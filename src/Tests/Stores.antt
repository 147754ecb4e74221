-- ===== src/Tests/Stores.antt =====
-- The port manager (pkg/proxy/port_manager.go) and the assignments
-- (pkg/clients/adapter_group_assignment_store.go).
use Prim.Native.String.{◌++◌}
use suse_ai_up.Prelude.{
  true, sym, List, String, ℕ, false, [], ◌∷◌, none, some, ◌≡◌, refl, lookup, IsMap, arith, ◌==◌,
  if◌then◌else◌, values,
}
use suse_ai_up.Files.{FileStore, then_save, Calls, Codec, written, save_to_file, write_and_rename}
use suse_ai_up.Files.RoundTrip.{Reads, map_list}
use suse_ai_up.Users.Instances.{AllFiled}
use suse_ai_up.Assignments.Files.{own_key, create_on_file}
use suse_ai_up.Ports.{
  PortManager, port, no_available_ports, new_port_manager, allocate_port, first_free, is_port_used,
}
use suse_ai_up.Ports.Steps.{here, next, allocate_step, IsApart, Reach-IsApart, allocate_port_room}
use suse_ai_up.Assignments.{Assignment, create_assignment, has_access, generate_assignment_id}
use suse_ai_up.Assignments.Grants.{
  Plain, is_for, has_access-create_assignment, has_access-shared_key,
}

abbrev one_port : PortManager
one_port = record { min_port = 8000; max_port = 8000; allocated = ("a", 8000) ∷ [] }

abbrev two_ports : PortManager
two_ports = record { min_port = 8000; max_port = 8001; allocated = ("a", 8000) ∷ [] }

second : (allocate_port "b" two_ports).1 ≡ port 8001
unfolding allocate_port first_free is_port_used lookup values
second = refl

full : (allocate_port "b" one_port).1 ≡ no_available_ports 8000 8000
unfolding allocate_port first_free is_port_used lookup values
full = refl

one-IsMap : IsMap one_port.allocated
unfolding lookup
one-IsMap = (refl, tt)

Reach-IsApart_example : IsApart 8000 8001 (allocate_port "a" (new_port_manager 8000 8001)).0
Reach-IsApart_example =
    Reach-IsApart 8000 8001 (allocate_port "a" (new_port_manager 8000 8001)).0
      (next here (allocate_step "a" refl))

allocate_port_room_example :
    (p : ℕ) × ((allocate_port "b" two_ports).1 ≡ port p)
    × (lookup "b" (allocate_port "b" two_ports).0.allocated ≡ some p)
allocate_port_room_example = allocate_port_room "b" two_ports one-IsMap (omega arith)

abbrev reading : (adapter_id group_id : String) → Assignment
reading adapter_id group_id = record {
  id = "1";
  adapter_id = adapter_id;
  group_id = group_id;
  permission = "read";
  created_at = 0;
  updated_at = 0;
  created_by = "admin";
}

created : (create_assignment (reading "maps" "devs") []).1 ≡ none
unfolding create_assignment lookup generate_assignment_id
created = refl

created_with_colon : (create_assignment (reading ("maps" ++ (":" ++ "eu")) "devs") []).1 ≡ none
unfolding create_assignment lookup generate_assignment_id
created_with_colon = refl

maps-Plain : Plain "maps"
maps-Plain = (refl, (refl, (refl, (refl, tt))))

devs-Plain : Plain "devs"
devs-Plain = (refl, (refl, (refl, (refl, tt))))

ops-Plain : Plain "ops"
ops-Plain = (refl, (refl, (refl, tt)))

has_access-create_assignment_example :
    has_access "maps" "ops" (create_assignment (reading "maps" "devs") []).0 ≡ (
      if is_for (reading "maps" "devs") "maps" "ops"
      then "read" == "read"
      else has_access "maps" "ops" [])
has_access-create_assignment_example =
    has_access-create_assignment (reading "maps" "devs") "maps" "ops" [] maps-Plain devs-Plain
      maps-Plain ops-Plain created

-- The assignment is of adapter "maps:eu" and group "devs".
has_access-shared_key_example :
    has_access "maps"
      ("eu" ++ (":" ++ "devs"))
      (create_assignment (reading ("maps" ++ (":" ++ "eu")) "devs") []).0
    ≡ ("read" == "read")
has_access-shared_key_example =
    has_access-shared_key (reading ("maps" ++ (":" ++ "eu")) "devs") "maps" "eu" "devs" [] refl refl
      created_with_colon

-- The bytes of the file are the list of assignments.
abbrev plain : Codec Assignment (List Assignment)
plain = record {
  marshal = λ xs. some (map_list (λ a. a) xs);
  unmarshal = λ xs. some xs;
  encrypt = λ bytes. some bytes;
  decrypt = λ bytes. some bytes;
  is_empty = λ _. false;
}

plain-Reads : Reads plain (λ a. a)
plain-Reads = record {
  parse = λ xs bytes e. sym e;
  key = λ d e h. sym h;
  full = λ xs d e _ _. refl;
}

abbrev working : Calls (List Assignment)
working = record { mkdir = true; write = written; rename = true; read = true }

abbrev nothing : FileStore Assignment (List Assignment)
nothing = record { entries = []; disk = record { file = none; temp = none } }

created_on_file : (create_on_file plain working (reading "maps" "devs") nothing).1 ≡ none
unfolding create_on_file create_assignment then_save save_to_file write_and_rename lookup
    generate_assignment_id
created_on_file = refl

nothing-IsMap : IsMap nothing.entries
nothing-IsMap = tt

nothing-AllFiled : AllFiled Assignment own_key nothing.entries
unfolding lookup
nothing-AllFiled k a e = cc
