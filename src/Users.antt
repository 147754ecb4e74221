-- ===== src/Users.antt =====
-- Users and groups: pkg/models/adapter.go (`User`, `Group`), and what the stores of
-- pkg/clients/user_group_store.go answer. A time is the number of nanoseconds of a clock reading,
-- given by the caller for each `time.Now()`; a slice is a value.
pub mod Memory
pub mod Groups
pub mod Api
pub mod Laws
pub mod Instances
pub mod GroupInstances
pub mod Files
use suse_ai_up.Prelude.{String, ℕ, List, Option, none, some, ◌≡◌, refl, ◌⊎◌, inl, inr}

pub record User : Type 0 where
  pub id : String
  pub name : String
  pub email : String
  pub groups : List String
  pub auth_provider : String
  pub external_id : String
  pub provider_groups : List String
  pub password_hash : String
  pub password_changed_at : Option ℕ
  pub last_login_at : Option ℕ
  pub created_at : ℕ
  pub updated_at : ℕ

pub record Group : Type 0 where
  pub id : String
  pub name : String
  pub description : String
  pub members : List String
  pub permissions : List String
  pub created_at : ℕ
  pub updated_at : ℕ

-- The errors that the stores build, by what went wrong; the wording of a message is left out.
pub data Error : Type 0 where
  already_exists not_found : String → Error
  already_member not_member : String → String → Error
  external_authentication password_not_set invalid_password : Error
  -- `saveToFile` failed at one of its steps
  save_failed : Error
  -- `bcrypt.GenerateFromPassword` failed
  hash_failed : Error
  -- `fmt.Errorf("failed to …: %w", err)` of a caller
  wrapped : String → Error → Error

-- `(T, error)` where exactly one of the two is set
pub data Result (A : Type 0) : Type 0 where
  ok : A → Result A
  err : Error → Result A

pub Result-cases :
    {A : Type 0} (r : Result A) → ((a : A) × (r ≡ ok a)) ⊎ ((e : Error) × (r ≡ err e))
Result-cases (ok a) = inl (a, refl)
Result-cases (err e) = inr (e, refl)
