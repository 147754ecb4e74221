-- ===== src/Tests/Discovery.antt =====
-- The discovery store at concrete servers, and a run in which two goroutines stop.
use Prim.Native.String.{◌++◌}
use suse_ai_up.Prelude.{◌≢◌, String, ℕ, [], none, some, ◌≡◌, refl, String}
use suse_ai_up.Discovery.{
  DiscoveredServer, generate_fingerprint, joined, unless_empty, merged, newer_text,
}
use suse_ai_up.Discovery.Locks.{
  save_call, read_call, waiting, finding, found, probing, State, start, move, entered, writes,
  call_step, lock_step, Reach, here, next,
}
use suse_ai_up.Discovery.Locks.Stuck.{Reach-IsEmpty, Reach-IsStuck}

abbrev files_server : DiscoveredServer String
files_server = record {
  id = "server-1";
  name = "files";
  address = "http://10.0.0.1:8000";
  protocol = "MCP";
  connection = "StreamableHttp";
  status = "healthy";
  last_seen = 0;
  metadata = none;
  vulnerability_score = "low";
  capabilities = some "tools";
  tools = none;
  resources = none;
  prompts = none;
  resource_templates = none;
  auth_info = none;
  last_deep_scan = none;
  server_version = "1.0";
  protocol_version = "";
}

-- The name, the version and the digest of the capabilities.
fingerprint_of_files : generate_fingerprint (λ c. "d-" ++ c) files_server ≡ "files|1.0|d-tools"
unfolding generate_fingerprint joined unless_empty
fingerprint_of_files = refl

-- What is missing in the new server is kept.
merged_version :
    (merged (record files_server { server_version = "" }) files_server).server_version ≡ "1.0"
unfolding merged newer_text
merged_version = refl

abbrev no_digest : String → String
no_digest c = c

abbrev unary : ℕ → String
unary n = "n"

abbrev seen_server : DiscoveredServer String
seen_server = record files_server { last_seen = 5 }

abbrev called : State String
called = record start { places = move 0 (waiting (save_call (some files_server))) start.places }

abbrev locked : State String
locked = record called {
  writer = some 0;
  places = move 0 (entered 5 (save_call (some files_server))) called.places;
}

-- A second goroutine comes to read.
abbrev both_wait : State String
both_wait = record locked { places = move 1 (waiting read_call) locked.places }

to_locked : Reach no_digest unary start locked
unfolding move writes
to_locked =
    next 0 (next 0 here (call_step (save_call (some files_server)) refl refl))
      (lock_step 5 (save_call (some files_server)) refl (λ e. cc) refl refl refl refl)

to_both : Reach no_digest unary locked both_wait
unfolding move entered
to_both = next 1 here (call_step read_call refl refl)

at_find : locked.places 0 ≡ finding seen_server
unfolding move entered
at_find = refl

Reach-IsEmpty_example :
    (locked.servers ≡ [])
    × (locked.places 0 ≢ found seen_server)
    × (locked.places 0 ≢ probing seen_server 1)
Reach-IsEmpty_example = Reach-IsEmpty no_digest unary locked 0 seen_server 1 to_locked

Reach-IsStuck_example :
    (both_wait.places 0 ≡ finding seen_server)
    × (both_wait.writer ≡ some 0)
    × (both_wait.servers ≡ [])
Reach-IsStuck_example =
    Reach-IsStuck no_digest unary locked both_wait 0 seen_server to_locked at_find to_both
