-- ===== src/Adapters/Store.antt =====
-- `InMemoryAdapterStore` and `FileAdapterStore` of pkg/clients/adapter_store.go.
use suse_ai_up.Prelude.{
  ◌⊎◌, inl, inr, String, List, Option, none, some, ◌==◌, Map, lookup, insert, delete, values, keep,
}
use suse_ai_up.Adapters.{AdapterResource}
use suse_ai_up.Files.{FileStore, then_save, new_file_store, Disk, Calls, Codec}

pub data StoreError : Type 0 where
  already_exists not_found : String → StoreError
  -- `saveToFile` failed at one of its steps
  save_failed : StoreError

module _ {J : Type 0} where
  unfoldable pub create :
      AdapterResource J → Map (AdapterResource J) → Map (AdapterResource J) × Option StoreError
  create adapter s = elim (lookup adapter.id s) [
    | some _ ↦ (s, some (already_exists adapter.id))
    | none ↦ (insert adapter.id adapter s, none)
  ]

  unfoldable pub get : String → Map (AdapterResource J) → AdapterResource J ⊎ StoreError
  get id s = elim (lookup id s) [ none ↦ inr (not_found id) | some adapter ↦ inl adapter ]

  unfoldable pub list : (user_id : String) → Map (AdapterResource J) → List (AdapterResource J)
  list user_id s = keep (λ a. a.created_by == user_id) (values s)

  unfoldable pub list_all : Map (AdapterResource J) → List (AdapterResource J)
  list_all s = values s

  unfoldable pub update :
      AdapterResource J → Map (AdapterResource J) → Map (AdapterResource J) × Option StoreError
  update adapter s = elim (lookup adapter.id s) [
    | none ↦ (s, some (not_found adapter.id))
    | some _ ↦ (insert adapter.id adapter s, none)
  ]

  unfoldable pub delete_adapter :
      String → Map (AdapterResource J) → Map (AdapterResource J) × Option StoreError
  delete_adapter id s = elim (lookup id s) [
    | none ↦ (s, some (not_found id))
    | some _ ↦ (delete id s, none)
  ]

  unfoldable pub upsert_async :
      AdapterResource J → Map (AdapterResource J) → Map (AdapterResource J) × Option StoreError
  upsert_async adapter s = create adapter s

  module _ {D : Type 0} (codec : Codec (AdapterResource J) D) where
    unfoldable pub new_file_adapter_store : Calls D → Disk D → FileStore (AdapterResource J) D
    new_file_adapter_store calls disk = new_file_store (λ a. a.id) codec calls disk

    unfoldable pub create_on_file :
        Calls D
        → AdapterResource J
        → FileStore (AdapterResource J) D
        → FileStore (AdapterResource J) D × Option StoreError
    create_on_file calls adapter s = then_save save_failed codec calls (create adapter s.entries) s

    unfoldable pub update_on_file :
        Calls D
        → AdapterResource J
        → FileStore (AdapterResource J) D
        → FileStore (AdapterResource J) D × Option StoreError
    update_on_file calls adapter s = then_save save_failed codec calls (update adapter s.entries) s

    unfoldable pub delete_on_file :
        Calls D
        → String
        → FileStore (AdapterResource J) D
        → FileStore (AdapterResource J) D × Option StoreError
    delete_on_file calls id s = then_save save_failed codec calls (delete_adapter id s.entries) s

    unfoldable pub upsert_on_file :
        Calls D
        → AdapterResource J
        → FileStore (AdapterResource J) D
        → FileStore (AdapterResource J) D × Option StoreError
    upsert_on_file calls adapter s = create_on_file calls adapter s
