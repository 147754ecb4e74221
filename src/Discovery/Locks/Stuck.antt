-- ===== src/Discovery/Locks/Stuck.antt =====
-- What the lock of the discovery store (pkg/scanner/discovery_store.go) lets happen.
use suse_ai_up.Prelude.{
  String, ℕ, [], none, some, ◌≡◌, ◌≢◌, sym, ap, subst, nat_eq, Bool-cases, nat_eq_iff, inl, inr,
  ◌∙◌,
}
use suse_ai_up.Discovery.{DiscoveredServer}
use suse_ai_up.Discovery.Locks.{
  save_call, read_call, Place, outside, waiting, inside, finding, found, probing, State, start,
  move, Step, call_step, nil_step, lock_step, unlock_step, read_lock_step, read_unlock_step,
  find_step, merge_step, new_step, taken_step, probe_step, free_step, Reach, here, next,
}
use suse_ai_up.Discovery.Locks.Invariant.{Fits, IsLocked, Reach-IsLocked, Reach-trans}

module _ {J : Type 0} (digest : J → String) (print : ℕ → String) where
  -- The goroutine `t` waits in `Save` for the lock that it holds itself.
  record Waits (t : ℕ) (server : DiscoveredServer J) (c : State J) : Type 0 where
    holds : c.writer ≡ some t
    place : c.places t ≡ finding server

  move-keeps :
      (t u : ℕ) (server : DiscoveredServer J) (old place : Place J) (places : ℕ → Place J)
      → places t ≡ finding server
      → places u ≡ old
      → old ≢ finding server
      → move u place places t ≡ finding server
  unfolding move
  move-keeps t u server old place places at own n = elim (Bool-cases (nat_eq t u)) [
    | inl e ↦ absurd (n (sym own ∙ ap places (sym ((nat_eq_iff t u).0 e)) ∙ at))
    | inr e ↦ rw e at
  ]

  Step-Waits :
      (t u : ℕ) (server : DiscoveredServer J) (c d : State J)
      → IsLocked c
      → Waits t server c
      → Step digest print u c d
      → Waits t server d
  unfolding Fits
  Step-Waits t u server c d h w (call_step call at e) = subst (Waits t server) (sym e) (record {
    holds = w.holds;
    place = move-keeps t u server outside (waiting call) c.places w.place at (λ x. cc);
  })
  Step-Waits t u server c d h w (nil_step at e) = subst (Waits t server) (sym e) (record {
    holds = w.holds;
    place = move-keeps t u server (waiting (save_call none)) outside c.places w.place at (λ x. cc);
  })
  Step-Waits t u server c d h w (read_unlock_step at e) = subst (Waits t server) (sym e) (record {
    holds = w.holds;
    place = move-keeps t u server (inside read_call) outside c.places w.place at (λ x. cc);
  })
  Step-Waits t u server c d h w (lock_step now call at real r free z e) =
      let held : c.writer ≡ some t = w.holds in absurd cc
  Step-Waits t u server c d h w (read_lock_step at free e) =
      let held : c.writer ≡ some t = w.holds in absurd cc
  Step-Waits t u server c d h w (find_step other at free e) =
      let held : c.writer ≡ some t = w.holds in absurd cc
  Step-Waits t u server c d h w (unlock_step call at r e) =
      let held : c.writer ≡ some t = w.holds in
      let own : c.writer ≡ some u = subst (Fits c.writer u) at (h.fits u) r in
      let same : u ≡ t = cc in let place : c.places t ≡ finding server = w.place in absurd cc
  Step-Waits t u server c d h w (merge_step other existing at f e) =
      absurd (subst (Fits c.writer u) at (h.fits u))
  Step-Waits t u server c d h w (new_step other at f l e) =
      absurd (subst (Fits c.writer u) at (h.fits u))
  Step-Waits t u server c d h w (taken_step other holder at f l e) =
      absurd (subst (Fits c.writer u) at (h.fits u))
  Step-Waits t u server c d h w (probe_step other holder counter at l e) =
      absurd (subst (Fits c.writer u) at (h.fits u))
  Step-Waits t u server c d h w (free_step other counter at l e) =
      absurd (subst (Fits c.writer u) at (h.fits u))

  Reach-Waits :
      (t : ℕ) (server : DiscoveredServer J) (c d : State J)
      → Reach digest print start c
      → Waits t server c
      → Reach digest print c d
      → Waits t server d
  Reach-Waits t server c d r w here = w
  Reach-Waits t server c d r w (next {d = e} u s step) =
      Step-Waits t u server e d
        (Reach-IsLocked digest print e (Reach-trans digest print start c e r s))
        (Reach-Waits t server c e r w s) step

  -- Whatever calls any number of goroutines make of a new store, and in whatever order their steps
  -- come: the store holds no server, and no goroutine is in a `Save` that has got past the `RLock`
  -- of `FindByFingerprint`, neither with its answer nor in the loop for a free ID.
  pub Reach-IsEmpty :
      (c : State J) (t : ℕ) (server : DiscoveredServer J) (counter : ℕ)
      → Reach digest print start c
      → (c.servers ≡ []) × (c.places t ≢ found server) × (c.places t ≢ probing server counter)
  unfolding Fits
  Reach-IsEmpty c t server counter r =
      let locked = Reach-IsLocked digest print c r in
      (
        locked.empty,
        λ at. subst (Fits c.writer t) at (locked.fits t),
        λ at. subst (Fits c.writer t) at (locked.fits t),
      )

  -- A goroutine whose `Save` is at the `RLock` of `FindByFingerprint` stays there, holding the
  -- lock for writing, in every state that can be reached after it, and the store holds no server
  -- then.
  pub Reach-IsStuck :
      (c d : State J) (t : ℕ) (server : DiscoveredServer J)
      → Reach digest print start c
      → c.places t ≡ finding server
      → Reach digest print c d
      → (d.places t ≡ finding server) × (d.writer ≡ some t) × (d.servers ≡ [])
  unfolding Fits
  Reach-IsStuck c d t server r at s =
      let waits =
        Reach-Waits t server c d r
          (record {
            holds = subst (Fits c.writer t) at ((Reach-IsLocked digest print c r).fits t);
            place = at;
          })
          s in
      (
        waits.place,
        waits.holds,
        (Reach-IsLocked digest print d (Reach-trans digest print start c d r s)).empty,
      )
