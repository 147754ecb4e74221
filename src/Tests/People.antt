-- ===== src/Tests/People.antt =====
-- Users and groups, as pkg/clients/user_group_store.go stores them, for the tests of the service.
use suse_ai_up.Prelude.{String, Bool, false, List, [], ◌∷◌, none, Map}
use suse_ai_up.Users.{User, Group}
use suse_ai_up.Users.Api.{UserStore}
use suse_ai_up.Users.Instances.{Clock, memory_users}

abbrev pub no_login : String → String → Bool
no_login _ _ = false

abbrev pub people : UserStore
people = memory_users no_login

abbrev pub person : (id : String) → List String → User
person id groups = record {
  id = id;
  name = id;
  email = "";
  groups = groups;
  auth_provider = "local";
  external_id = "";
  provider_groups = [];
  password_hash = "";
  password_changed_at = none;
  last_login_at = none;
  created_at = 0;
  updated_at = 0;
}

abbrev pub team : (id : String) → List String → List String → Group
team id members permissions = record {
  id = id;
  name = id;
  description = "";
  members = members;
  permissions = permissions;
  created_at = 0;
  updated_at = 0;
}

abbrev pub noon : Clock
noon = record { first = 12; second = 13 }

abbrev pub ann_only : Map User
ann_only = ("ann", person "ann" []) ∷ []

abbrev pub devs_only : Map Group
devs_only = ("devs", team "devs" [] ("server:*" ∷ [])) ∷ []
