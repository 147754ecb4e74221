-- ===== src/Users/Files/Restart.antt =====
-- A restart of `FileUserStore` (pkg/clients/user_group_store.go). `User` carries the tag
-- `json:"-"` on its password hash.
use suse_ai_up.Prelude.{
  String, ℕ, Bool, true, ◌==◌, none, some, Map, lookup, IsMap, lookup-insert, ◌≡◌, refl, ◌∙◌, inl,
  inr, Option-cases, Bool-cases, arith, eq_iff,
}
use suse_ai_up.Users.{
  User, Error, save_failed, not_found, password_not_set, external_authentication, ok, err,
}
use suse_ai_up.Users.Memory
use suse_ai_up.Users.Instances.{AllFiled}
use suse_ai_up.Files.{FileStore, then_save, new_file_store, Disk, Calls, Codec, save_to_file}
use suse_ai_up.Files.RoundTrip.{Reads, map_option, load_from_file-save_to_file}
use suse_ai_up.Users.Files.{new_file_user_store, create_user, get_user, authenticate_user}

-- A user as its JSON has it.
abbrev pub without_password : User → User
without_password u = record u { password_hash = "" }

lookup-create :
    (created updated : ℕ) (u : User) (m : Map User)
    → lookup u.id m ≡ none
    → lookup u.id (Memory.create created updated u m).0
      ≡ some (record u { created_at = created; updated_at = updated })
unfolding Memory.create
lookup-create created updated u m n =
    rw (Memory.create, n) (lookup-insert u.id u.id _ m ∙ ground (arith, eq_iff u.id u.id))

module _ {D : Type 0} (codec : Codec User D) where
  -- The store that a restart makes after a save.
  abbrev pub restarted : (calls later : Calls D) → Map User → Disk D → FileStore User D
  restarted calls later m disk = new_file_user_store codec later (save_to_file codec calls m disk).0

  restarted-lookup :
      Reads codec without_password
      → (calls later : Calls D) (m : Map User) (disk : Disk D) (id : String) → IsMap m
      → AllFiled User (λ u. u.id) m
      → later.read ≡ true
      → (save_to_file codec calls m disk).1 ≡ none
      → lookup id (restarted calls later m disk).entries ≡ map_option without_password (lookup id m)
  unfolding new_file_user_store new_file_store
  restarted-lookup reads calls later m disk id h filed r e =
      (load_from_file-save_to_file codec (λ u. u.id) without_password (λ u. refl) reads calls later
        m disk id h filed r e).1

  -- With a codec that loses the password hashes and nothing else, for users stored under their own
  -- IDs: after a save without an error and a restart that can read the file, `Get` finds the users
  -- that were there, without their password hashes, and no other.
  pub get_user-restarted :
      Reads codec without_password
      → (calls later : Calls D) (m : Map User) (disk : Disk D) (id : String) → IsMap m
      → AllFiled User (λ u. u.id) m
      → later.read ≡ true
      → (save_to_file codec calls m disk).1 ≡ none
      → get_user id (restarted calls later m disk)
        ≡ (elim (Memory.get id m) [ ok u ↦ ok (without_password u) | err e ↦ err e ])
  unfolding get_user Memory.get
  get_user-restarted reads calls later m disk id h filed r e =
      let found = restarted-lookup reads calls later m disk id h filed r e in
      elim (Option-cases (lookup id m)) [
        | inl n ↦ ground (arith, found, n)
        | inr (u, n) ↦ ground (arith, found, n)
      ]

  -- With a codec that loses the password hashes and nothing else, for users stored under their own
  -- IDs: after a save without an error and a restart that can read the file, nobody can log in
  -- with a password, since `Authenticate` fails for every user and every password.
  pub authenticate_user-restarted :
      Reads codec without_password
      → (calls later : Calls D) (m : Map User) (disk : Disk D) → IsMap m
      → AllFiled User (λ u. u.id) m
      → later.read ≡ true
      → (save_to_file codec calls m disk).1 ≡ none
      → (compare_hash : String → String → Bool) (id password : String)
      → (e : Error) × (authenticate_user compare_hash id password (restarted calls later m disk)
          ≡ err e)
  unfolding authenticate_user Memory.authenticate
  authenticate_user-restarted reads calls later m disk h filed r e c id password =
      let found = restarted-lookup reads calls later m disk id h filed r e in
      elim (Option-cases (lookup id m)) [
        | inl n ↦ (not_found id, ground (arith, found, n))
        | inr (u, n) ↦ elim (Bool-cases (u.auth_provider == "local")) [
          | inl l ↦ (password_not_set, ground (arith, found, n, l, eq_iff "" ""))
          | inr l ↦ (external_authentication, ground (arith, found, n, l))
        ]
      ]

  -- A `Create` that reports that it could not save has stored the user in memory all the same.
  pub create_user_unsaved :
      (calls : Calls D) (created updated : ℕ) (u : User) (s : FileStore User D)
      → (create_user codec calls created updated u s).1 ≡ some save_failed
      → lookup u.id (create_user codec calls created updated u s).0.entries
        ≡ some (record u { created_at = created; updated_at = updated })
  unfolding create_user then_save Memory.create
  create_user_unsaved calls created updated u s h = elim (Option-cases (lookup u.id s.entries)) [
    | inl n ↦
        rw (create_user, then_save, Memory.create, n) (lookup-create created updated u s.entries n)
    | inr (v, n) ↦ ground (arith, n, h)
  ]
