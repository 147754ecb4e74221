-- ===== src/Users/Files.antt =====
-- `FileUserStore` and `FileGroupStore` of pkg/clients/user_group_store.go: an operation changes the
-- map as the store in memory does, and then saves it; its reads are those of the store in memory.
pub mod Restart
use suse_ai_up.Prelude.{String, ℕ, Bool, Option, none, some, [], Map}
use suse_ai_up.Users.{User, Group, Error, save_failed, Result}
use suse_ai_up.Users.Memory
use suse_ai_up.Users.Groups
use suse_ai_up.Files.{Disk, Calls, Codec, FileStore, then_save, new_file_store}

module _ {D : Type 0} where
  module _ (codec : Codec User D) where
    unfoldable pub new_file_user_store : Calls D → Disk D → FileStore User D
    new_file_user_store calls disk = new_file_store (λ u. u.id) codec calls disk

    unfoldable pub create_user :
        Calls D → (created updated : ℕ) → User → FileStore User D → FileStore User D × Option Error
    create_user calls created updated u s =
        then_save save_failed codec calls (Memory.create created updated u s.entries) s

    unfoldable pub update_user :
        Calls D → (now : ℕ) → User → FileStore User D → FileStore User D × Option Error
    update_user calls now u s = then_save save_failed codec calls (Memory.update now u s.entries) s

    unfoldable pub remove_user : Calls D → User → FileStore User D → FileStore User D × Option Error
    remove_user calls u s = then_save save_failed codec calls (Memory.delete_user u s.entries) s

  unfoldable pub get_user : String → FileStore User D → Result User
  get_user id s = Memory.get id s.entries

  unfoldable pub authenticate_user :
      (compare_hash : String → String → Bool) (id password : String)
      → FileStore User D
      → Result User
  authenticate_user compare_hash id password s =
      Memory.authenticate compare_hash id password s.entries

  module _ (codec : Codec Group D) where
    unfoldable pub new_file_group_store : Calls D → Disk D → FileStore Group D
    new_file_group_store calls disk = new_file_store (λ g. g.id) codec calls disk

    unfoldable pub create_group :
        Calls D
        → (created updated : ℕ) → Group
        → FileStore Group D
        → FileStore Group D × Option Error
    create_group calls created updated g s =
        then_save save_failed codec calls (Groups.create created updated g s.entries) s

    unfoldable pub update_group :
        Calls D → (now : ℕ) → Group → FileStore Group D → FileStore Group D × Option Error
    update_group calls now g s = then_save save_failed codec calls (Groups.update now g s.entries) s

    unfoldable pub remove_group :
        Calls D → String → FileStore Group D → FileStore Group D × Option Error
    remove_group calls id s = then_save save_failed codec calls (Groups.delete_group id s.entries) s

    unfoldable pub add_file_member :
        Calls D
        → (now : ℕ) (group_id user_id : String) → FileStore Group D
        → FileStore Group D × Option Error
    add_file_member calls now group_id user_id s =
        then_save save_failed codec calls (Groups.add_member now group_id user_id s.entries) s

    unfoldable pub remove_file_member :
        Calls D
        → (now : ℕ) (group_id user_id : String) → FileStore Group D
        → FileStore Group D × Option Error
    remove_file_member calls now group_id user_id s =
        then_save save_failed codec calls (Groups.remove_member now group_id user_id s.entries) s
