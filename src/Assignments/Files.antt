-- ===== src/Assignments/Files.antt =====
-- `FileAdapterGroupAssignmentStore` of pkg/clients/adapter_group_assignment_store.go: each write is
-- that of the store in memory and then a save; the reads are the same.
use suse_ai_up.Prelude.{
  String, Option, none, some, Map, lookup, insert, IsMap, insert-IsMap, ◌≡◌, refl, true, ◌∙◌,
}
use suse_ai_up.Assignments.{
  Assignment, AssignmentError, save_failed, generate_assignment_id, create_assignment,
  update_assignment, delete_assignment, has_access,
}
use suse_ai_up.Users.Instances.{AllFiled, insert-AllFiled}
use suse_ai_up.Files.{FileStore, then_save, new_file_store, Disk, Calls, Codec, save_to_file}
use suse_ai_up.Files.RoundTrip.{Reads, map_option, load_from_file-save_to_file, then_save-none}
use suse_ai_up.Assignments.Grants.{create_assignment-insert}

abbrev pub own_key : Assignment → String
own_key a = generate_assignment_id a.adapter_id a.group_id

module _ {D : Type 0} (codec : Codec Assignment D) where
  unfoldable pub new_file_assignment_store : Calls D → Disk D → FileStore Assignment D
  new_file_assignment_store calls disk = new_file_store own_key codec calls disk

  unfoldable pub create_on_file :
      Calls D
      → Assignment
      → FileStore Assignment D
      → FileStore Assignment D × Option AssignmentError
  create_on_file calls a s = then_save save_failed codec calls (create_assignment a s.entries) s

  unfoldable pub update_on_file :
      Calls D
      → Assignment
      → FileStore Assignment D
      → FileStore Assignment D × Option AssignmentError
  update_on_file calls a s = then_save save_failed codec calls (update_assignment a s.entries) s

  unfoldable pub delete_on_file :
      Calls D
      → (adapter_id group_id : String) → FileStore Assignment D
      → FileStore Assignment D × Option AssignmentError
  delete_on_file calls adapter_id group_id s =
      then_save save_failed codec calls (delete_assignment adapter_id group_id s.entries) s

  same_access :
      (b h : String) (m n : Map Assignment)
      → lookup (generate_assignment_id b h) m ≡ lookup (generate_assignment_id b h) n
      → has_access b h m ≡ has_access b h n
  unfolding has_access
  same_access b h m n e = rw (has_access, e) refl

  kept_whole : (x : Option Assignment) → map_option (λ a. a) x ≡ x
  kept_whole none = refl
  kept_whole (some a) = refl

  create_on_file-insert :
      (calls : Calls D) (x : Assignment) (s : FileStore Assignment D)
      → (create_on_file calls x s).1 ≡ none
      → ((create_on_file calls x s).0 ≡ record {
        entries = insert (own_key x) x s.entries;
        disk = (save_to_file codec calls (insert (own_key x) x s.entries) s.disk).0;
      })
        × ((save_to_file codec calls (insert (own_key x) x s.entries) s.disk).1 ≡ none)
  unfolding create_on_file
  create_on_file-insert calls x s done =
      let (made, saved, after) =
        then_save-none save_failed codec calls (create_assignment x s.entries) s done in
      rw (← create_assignment-insert x s.entries made) (after, saved)

  -- When `CreateAssignment` of the store on file reports no error, then a restart that can read
  -- the file answers every `HasAccess` as the store did, for a codec that gives back what it was
  -- given and a map in which each assignment stands under its own key.
  pub has_access-restarted :
      Reads codec (λ a. a)
      → (calls later : Calls D) (x : Assignment) (s : FileStore Assignment D) (b h : String)
      → IsMap s.entries
      → AllFiled Assignment own_key s.entries
      → later.read ≡ true
      → (create_on_file calls x s).1 ≡ none
      → has_access b h (new_file_assignment_store later (create_on_file calls x s).0.disk).entries
        ≡ has_access b h (create_on_file calls x s).0.entries
  unfolding new_file_assignment_store new_file_store
  has_access-restarted reads calls later x s b h m filed r done =
      let (after, saved) = create_on_file-insert calls x s done in
      let new = insert (own_key x) x s.entries in
      let (_, same) =
        load_from_file-save_to_file codec own_key (λ a. a) (λ a. refl) reads calls later new s.disk
          (generate_assignment_id b h) (insert-IsMap (own_key x) x s.entries m)
          (insert-AllFiled Assignment own_key s.entries x filed) r saved in
      rw after (same_access b h _ new (same ∙ kept_whole _))
