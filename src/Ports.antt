-- ===== src/Ports.antt =====
-- `PortManager` of pkg/proxy/port_manager.go: the ports given to sidecar containers. A port is a
-- natural number; the mutex makes each operation one step.
pub mod Search
pub mod Steps
use suse_ai_up.Prelude.{
  ℕ, zero, suc, ◌-◌, ◌+◌, String, Bool, true, Option, some, none, Map, lookup, insert, delete,
  values, any, [], nat_eq, if◌then◌else◌,
}

pub record PortManager : Type 0 where
  pub min_port : ℕ
  pub max_port : ℕ
  pub allocated : Map ℕ

pub data Answer : Type 0 where
  port : ℕ → Answer
  no_available_ports : (min_port max_port : ℕ) → Answer

unfoldable pub new_port_manager : (min_port max_port : ℕ) → PortManager
new_port_manager min_port max_port = record {
  min_port = min_port;
  max_port = max_port;
  allocated = [];
}

unfoldable pub is_port_used : PortManager → ℕ → Bool
is_port_used pm p = any (λ q. nat_eq q p) (values pm.allocated)

-- The `for` loop of `AllocatePort` from `p` on, with `left` ports left up to `maxPort`.
unfoldable pub first_free : PortManager → (left p : ℕ) → Option ℕ
first_free pm zero p = none
first_free pm (suc left) p =
    let rest = first_free pm left (suc p) in if is_port_used pm p then rest else some p

unfoldable pub allocate_port : String → PortManager → PortManager × Answer
allocate_port adapter_id pm = elim (lookup adapter_id pm.allocated) [
  | some p ↦ (pm, port p)
  | none ↦ elim (first_free pm (suc pm.max_port - pm.min_port) pm.min_port) [
    | some p ↦ (record pm { allocated = insert adapter_id p pm.allocated }, port p)
    | none ↦ (pm, no_available_ports pm.min_port pm.max_port)
  ]
]

unfoldable pub release_port : String → PortManager → PortManager
release_port adapter_id pm = record pm { allocated = delete adapter_id pm.allocated }

unfoldable pub get_allocated_port : String → PortManager → Option ℕ
get_allocated_port adapter_id pm = lookup adapter_id pm.allocated
