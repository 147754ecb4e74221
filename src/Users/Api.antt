-- ===== src/Users/Api.antt =====
-- The interfaces `UserStore` and `GroupStore` of pkg/clients/user_group_store.go, which the service
-- of pkg/services/user_group.go is given. What the environment decides during one call (the clock,
-- the disk) is the call's argument of type `Call`.
use suse_ai_up.Prelude.{String, List, Option}
use suse_ai_up.Users.{User, Group, Error, Result}

pub record UserStore : Type 1 where
  pub State : Type 0
  pub Call : Type 0
  pub create : Call → User → State → State × Option Error
  pub get : String → State → Result User
  pub list : State → List User
  pub update : Call → User → State → State × Option Error
  pub delete_user : Call → User → State → State × Option Error
  pub get_by_email : String → State → Result User
  pub get_by_external_id : (provider external_id : String) → State → Result User
  pub authenticate : (id password : String) → State → Result User

pub record GroupStore : Type 1 where
  pub State : Type 0
  pub Call : Type 0
  pub create : Call → Group → State → State × Option Error
  pub get : String → State → Result Group
  pub list : State → List Group
  pub update : Call → Group → State → State × Option Error
  pub delete_group : Call → String → State → State × Option Error
  pub add_member : Call → (group_id user_id : String) → State → State × Option Error
  pub remove_member : Call → (group_id user_id : String) → State → State × Option Error
