-- ===== src/Tests/Files.antt =====
-- The file stores of pkg/clients/user_group_store.go on a disk that keeps the list of users as the
-- bytes of the file.
use suse_ai_up.Prelude.{
  true, false, List, [], ◌∷◌, none, some, ◌≡◌, sym, ◌⊎◌, refl, Map, lookup, insert, IsMap, values,
  String-cases, inl, inr, arith, eq_iff,
}
use suse_ai_up.Users.{User, Error, err, save_failed}
use suse_ai_up.Users.Memory
use suse_ai_up.Users.Instances.{AllFiled}
use suse_ai_up.Files.{
  FileStore, then_save, Disk, FileError, written, Calls, Codec, save_to_file, load_from_file,
  write_and_rename,
}
use suse_ai_up.Files.RoundTrip.{
  Reads, map_list, map_option, save_to_file-Atomic, load_from_file-save_to_file,
}
use suse_ai_up.Users.Files.{create_user, authenticate_user}
use suse_ai_up.Users.Files.Restart.{without_password, restarted, authenticate_user-restarted}

-- The bytes are the users as JSON has them; there is no encryption.
abbrev Bytes : Type 0
Bytes = List User

abbrev plain : Codec User Bytes
plain = record {
  marshal = λ us. some (map_list without_password us);
  unmarshal = λ us. some us;
  encrypt = λ bytes. some bytes;
  decrypt = λ bytes. some bytes;
  is_empty = λ _. false;
}

plain-Reads : Reads plain without_password
plain-Reads = record {
  parse = λ us bytes e. sym e;
  key = λ d e h. sym h;
  full = λ us d e _ _. refl;
}

abbrev working : Calls Bytes
working = record { mkdir = true; write = written; rename = true; read = true }

abbrev no_rename_call : Calls Bytes
no_rename_call = record { mkdir = true; write = written; rename = false; read = true }

abbrev blank : Disk Bytes
blank = record { file = none; temp = none }

abbrev ann : User
ann = record {
  id = "ann";
  name = "Ann";
  email = "ann@example.com";
  groups = "mcp-users" ∷ [];
  auth_provider = "local";
  external_id = "";
  provider_groups = [];
  password_hash = "hash";
  password_changed_at = none;
  last_login_at = none;
  created_at = 0;
  updated_at = 0;
}

abbrev users : Map User
users = ("ann", ann) ∷ []

saved : (save_to_file plain working users blank).1 ≡ none
unfolding save_to_file write_and_rename
saved = refl

users-IsMap : IsMap users
unfolding lookup
users-IsMap = (refl, tt)

users-AllFiled : AllFiled User (λ u. u.id) users
unfolding lookup
users-AllFiled k v e = elim (String-cases "ann" k) [
  | inl s ↦ ground (arith, eq_iff "ann" k)
  | inr (n, s) ↦ ground arith
]

save_to_file-Atomic_example :
    (((e : FileError) × ((save_to_file plain working users blank).1 ≡ some e))
      × ((save_to_file plain working users blank).0.file ≡ blank.file))
    ⊎ (((save_to_file plain working users blank).1 ≡ none)
        × (d : Bytes) × (e : Bytes) × (plain.marshal (values users) ≡ some d)
        × (plain.encrypt d ≡ some e)
        × ((save_to_file plain working users blank).0.file ≡ some e)
        × ((save_to_file plain working users blank).0.temp ≡ none))
save_to_file-Atomic_example = save_to_file-Atomic plain working users blank

load_from_file-save_to_file_example :
    ((load_from_file plain (λ u. u.id) working (save_to_file plain working users blank).0 []).1
      ≡ none)
    × (lookup "ann"
          (load_from_file plain (λ u. u.id) working (save_to_file plain working users blank).0 []).0
        ≡ map_option without_password (lookup "ann" users))
load_from_file-save_to_file_example =
    load_from_file-save_to_file plain (λ u. u.id) without_password (λ u. refl) plain-Reads working
      working users blank "ann" users-IsMap users-AllFiled refl saved

authenticate_user-restarted_example :
    (e : Error) × (authenticate_user
        (λ _ _. true)
        "ann"
        "secret"
        (restarted plain working working users blank)
      ≡ err e)
authenticate_user-restarted_example =
    authenticate_user-restarted plain plain-Reads working working users blank users-IsMap
      users-AllFiled refl saved (λ _ _. true) "ann" "secret"

abbrev no_users : FileStore User Bytes
no_users = record { entries = []; disk = blank }

unsaved : (create_user plain no_rename_call 1 2 ann no_users).1 ≡ some save_failed
unfolding create_user then_save Memory.create save_to_file write_and_rename lookup insert
unsaved = refl
