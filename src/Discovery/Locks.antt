-- ===== src/Discovery/Locks.antt =====
-- The calls of `InMemoryDiscoveryStore` (pkg/scanner/discovery_store.go) in any number of
-- goroutines, with its `sync.RWMutex`. A goroutine waits at `Lock` and at `RLock`; `Save` calls
-- `FindByFingerprint`, which calls `RLock`, between its `Lock` and its `Unlock`. A mutex that keeps
-- new readers out while a writer waits allows fewer steps.
pub mod Invariant
pub mod Stuck
use Prim.Native.String.{◌++◌}
use suse_ai_up.Prelude.{
  String, ℕ, Bool, true, false, ◌+◌, ◌-◌, [], Option, none, some, ◌≡◌, ◌≢◌, nat_eq, if◌then◌else◌,
  Map, lookup, insert,
}
use suse_ai_up.Discovery.{
  DiscoveredServer, find_by_fingerprint, generate_fingerprint, merged, update_last_seen,
  remove_stale, delete_server, clear,
}

-- `save_call none` is a nil server; of a reading only the lock counts.
pub data Call (J : Type 0) : Type 0 where
  save_call : Option (DiscoveredServer J) → Call J
  update_call : (id : String) (last_seen : ℕ) → Call J
  stale_call : (now threshold : ℕ) → Call J
  delete_call : (id : String) → Call J
  clear_call read_call : Call J

-- Where a goroutine is: outside, before its first `Lock` or `RLock`, after it, and in `Save` at the
-- `RLock` of `FindByFingerprint`, behind it, and in the loop that looks for a free ID.
pub data Place (J : Type 0) : Type 0 where
  outside : Place J
  waiting inside : Call J → Place J
  finding found : DiscoveredServer J → Place J
  probing : DiscoveredServer J → (counter : ℕ) → Place J

-- `writer` is the goroutine that holds the lock for writing, `readers` how many hold it for reading.
pub record State (J : Type 0) : Type 0 where
  pub writer : Option ℕ
  pub readers : ℕ
  pub places : ℕ → Place J
  pub servers : Map (DiscoveredServer J)

module _ {J : Type 0} where
  abbrev pub start : State J
  start = record { writer = none; readers = 0; places = λ _. outside; servers = [] }

  unfoldable pub move : ℕ → Place J → (ℕ → Place J) → ℕ → Place J
  move thread place places other = if nat_eq other thread then place else places other

  unfoldable pub writes : Call J → Bool
  writes read_call = false
  writes (save_call _) = true
  writes (update_call _ _) = true
  writes (stale_call _ _) = true
  writes (delete_call _) = true
  writes clear_call = true

  -- What is done before `Unlock`, for all calls but `Save`.
  unfoldable pub effect : Call J → Map (DiscoveredServer J) → Map (DiscoveredServer J)
  effect (save_call _) s = s
  effect (update_call id last_seen) s = update_last_seen id last_seen s
  effect (stale_call now threshold) s = remove_stale now threshold s
  effect (delete_call id) s = delete_server id s
  effect clear_call s = clear s
  effect read_call s = s

  -- After `Lock`: `Save` writes the time to the server and goes on to `FindByFingerprint`.
  unfoldable pub entered : (now : ℕ) → Call J → Place J
  entered now (save_call (some server)) = finding (record server { last_seen = now })
  entered now (save_call none) = outside
  entered now (update_call id last_seen) = inside (update_call id last_seen)
  entered now (stale_call at threshold) = inside (stale_call at threshold)
  entered now (delete_call id) = inside (delete_call id)
  entered now clear_call = inside clear_call
  entered now read_call = inside read_call

  -- `fmt.Sprintf("%s-%d", server.ID, counter)`
  unfoldable pub numbered : (print : ℕ → String) → DiscoveredServer J → ℕ → String
  numbered print server counter = server.id ++ ("-" ++ print counter)

  -- One step of the goroutine `t`.
  pub data Step (digest : J → String) (print : ℕ → String) (t : ℕ) (c d : State J) : Type 0 where
    call_step :
        (call : Call J)
        → c.places t ≡ outside
        → d ≡ record c { places = move t (waiting call) c.places }
        → Step digest print t c d
    -- `Save(nil)` returns before the lock.
    nil_step :
        c.places t ≡ waiting (save_call none)
        → d ≡ record c { places = move t outside c.places }
        → Step digest print t c d
    lock_step :
        (now : ℕ) (call : Call J)
        → c.places t ≡ waiting call
        → call ≢ save_call none
        → writes call ≡ true
        → c.writer ≡ none
        → c.readers ≡ 0
        → d ≡ record c { writer = some t; places = move t (entered now call) c.places }
        → Step digest print t c d
    unlock_step :
        (call : Call J)
        → c.places t ≡ inside call
        → writes call ≡ true
        → d ≡ record c {
          writer = none;
          places = move t outside c.places;
          servers = effect call c.servers;
        }
        → Step digest print t c d
    read_lock_step :
        c.places t ≡ waiting read_call
        → c.writer ≡ none
        → d ≡ record c { readers = c.readers + 1; places = move t (inside read_call) c.places }
        → Step digest print t c d
    read_unlock_step :
        c.places t ≡ inside read_call
        → d ≡ record c { readers = c.readers - 1; places = move t outside c.places }
        → Step digest print t c d
    -- The `RLock` of `FindByFingerprint`, which `Save` has called.
    find_step :
        (server : DiscoveredServer J)
        → c.places t ≡ finding server
        → c.writer ≡ none
        → d ≡ record c { readers = c.readers + 1; places = move t (found server) c.places }
        → Step digest print t c d
    merge_step :
        (server existing : DiscoveredServer J)
        → c.places t ≡ found server
        → find_by_fingerprint digest (generate_fingerprint digest server) c.servers ≡ some existing
        → d ≡ record c {
          writer = none;
          readers = c.readers - 1;
          places = move t outside c.places;
          servers = insert existing.id (merged server existing) c.servers;
        }
        → Step digest print t c d
    -- No server with the fingerprint, and the ID is free
    new_step :
        (server : DiscoveredServer J)
        → c.places t ≡ found server
        → find_by_fingerprint digest (generate_fingerprint digest server) c.servers ≡ none
        → lookup server.id c.servers ≡ none
        → d ≡ record c {
          writer = none;
          readers = c.readers - 1;
          places = move t outside c.places;
          servers = insert server.id server c.servers;
        }
        → Step digest print t c d
    -- or taken.
    taken_step :
        (server holder : DiscoveredServer J)
        → c.places t ≡ found server
        → find_by_fingerprint digest (generate_fingerprint digest server) c.servers ≡ none
        → lookup server.id c.servers ≡ some holder
        → d ≡ record c { readers = c.readers - 1; places = move t (probing server 1) c.places }
        → Step digest print t c d
    probe_step :
        (server holder : DiscoveredServer J) (counter : ℕ)
        → c.places t ≡ probing server counter
        → lookup (numbered print server counter) c.servers ≡ some holder
        → d ≡ record c { places = move t (probing server (counter + 1)) c.places }
        → Step digest print t c d
    free_step :
        (server : DiscoveredServer J) (counter : ℕ)
        → c.places t ≡ probing server counter
        → lookup (numbered print server counter) c.servers ≡ none
        → d ≡ record c {
          writer = none;
          places = move t outside c.places;
          servers =
              insert
                (numbered print server counter)
                (record server { id = numbered print server counter })
                c.servers;
        }
        → Step digest print t c d

  pub data Reach (digest : J → String) (print : ℕ → String) (c : State J) : State J → Type 0 where
    here : Reach digest print c c
    next :
        {d e : State J} (t : ℕ)
        → Reach digest print c d
        → Step digest print t d e
        → Reach digest print c e
