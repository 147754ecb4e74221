-- ===== src/Assignments.antt =====
-- The assignments of adapters to groups: `InMemoryAdapterGroupAssignmentStore` of
-- pkg/clients/adapter_group_assignment_store.go, with `AdapterGroupAssignment` of
-- pkg/models/adapter.go. An operation that writes returns the new map beside its `error`.
pub mod Grants
pub mod Files
use Prim.Native.String.{◌++◌}
use suse_ai_up.Prelude.{
  ◌⊎◌, inl, inr, String, ℕ, Bool, false, ◌==◌, List, [], Option, none, some, Map, lookup, insert,
  delete, values, keep,
}

pub record Assignment : Type 0 where
  pub id : String
  pub adapter_id : String
  pub group_id : String
  pub permission : String
  pub created_at : ℕ
  pub updated_at : ℕ
  pub created_by : String

pub data AssignmentError : Type 0 where
  already_exists not_found : (adapter_id group_id : String) → AssignmentError
  -- `saveToFile` failed at one of its steps
  save_failed : AssignmentError

unfoldable pub generate_assignment_id : (adapter_id group_id : String) → String
generate_assignment_id adapter_id group_id = adapter_id ++ (":" ++ group_id)

abbrev pub id_of : Assignment → String
id_of a = generate_assignment_id a.adapter_id a.group_id

unfoldable pub create_assignment :
    Assignment → Map Assignment → Map Assignment × Option AssignmentError
create_assignment a s = elim (lookup (id_of a) s) [
  | some _ ↦ (s, some (already_exists a.adapter_id a.group_id))
  | none ↦ (insert (id_of a) a s, none)
]

unfoldable pub get_assignment :
    (adapter_id group_id : String) → Map Assignment → Assignment ⊎ AssignmentError
get_assignment adapter_id group_id s =
    elim (lookup (generate_assignment_id adapter_id group_id) s) [
      | some a ↦ inl a
      | none ↦ inr (not_found adapter_id group_id)
    ]

unfoldable pub update_assignment :
    Assignment → Map Assignment → Map Assignment × Option AssignmentError
update_assignment a s = elim (lookup (id_of a) s) [
  | none ↦ (s, some (not_found a.adapter_id a.group_id))
  | some _ ↦ (insert (id_of a) a s, none)
]

unfoldable pub delete_assignment :
    (adapter_id group_id : String) → Map Assignment → Map Assignment × Option AssignmentError
delete_assignment adapter_id group_id s =
    elim (lookup (generate_assignment_id adapter_id group_id) s) [
      | none ↦ (s, some (not_found adapter_id group_id))
      | some _ ↦ (delete (generate_assignment_id adapter_id group_id) s, none)
    ]

unfoldable pub list_assignments : Map Assignment → List Assignment
list_assignments s = values s

unfoldable pub list_assignments_for_adapter : String → Map Assignment → List Assignment
list_assignments_for_adapter adapter_id s = keep (λ a. a.adapter_id == adapter_id) (values s)

unfoldable pub list_assignments_for_group : String → Map Assignment → List Assignment
list_assignments_for_group group_id s = keep (λ a. a.group_id == group_id) (values s)

unfoldable pub has_access : (adapter_id group_id : String) → Map Assignment → Bool
has_access adapter_id group_id s = elim (lookup (generate_assignment_id adapter_id group_id) s) [
  | none ↦ false
  | some a ↦ a.permission == "read"
]
