-- ===== src/Plugins/Steps.antt =====
-- The calls of `ServiceManager` (pkg/plugins/manager.go) that write, as steps.
use suse_ai_up.Prelude.{
  String, ℕ, Bool, true, Option, some, ◌≡◌, refl, ◌∙◌, inl, inr, arith, eq_iff, Map, lookup, insert,
  IsMap, lookup-insert, lookup-delete, insert-IsMap, delete-IsMap, Bool-cases, Option-cases,
  String-cases, ◌==◌,
}
use suse_ai_up.Plugins.{
  Registration, ServiceHealth, ServiceManager, is_service_enabled, register_service,
  unregister_service, update_service_health, get_service, get_service_health, new_service_manager,
}

-- A health check is a read, a call over the network and `update_service_health`, between which
-- other calls may come: so the last may be for any ID.
pub data Step (a b : ServiceManager) : Type 0 where
  register :
      (registered beat checked : ℕ) (r : Registration)
      → b ≡ (register_service registered beat checked r a).0
      → Step a b
  unregister : (id : String) → b ≡ (unregister_service id a).0 → Step a b
  update_health :
      (id : String) (health : ServiceHealth) → b ≡ update_service_health id health a → Step a b

pub data Reach (a : ServiceManager) : ServiceManager → Type 0 where
  here : Reach a a
  next : {b c : ServiceManager} → Reach a b → Step b c → Reach a c

-- A service stands under its own ID, is of a type that is enabled, and has a health status.
pub record IsKnown (sm : ServiceManager) (id : String) (s : Registration) : Type 0 where
  pub own_id : s.service_id ≡ id
  pub enabled : is_service_enabled s.service_type sm ≡ true
  pub checked : (h : ServiceHealth) × (get_service_health id sm ≡ some h)

pub record IsConsistent (sm : ServiceManager) : Type 0 where
  pub map : IsMap sm.services
  pub known : (id : String) (s : Registration) → get_service id sm ≡ some s → IsKnown sm id s

enabled_same :
    (t : String) (a b : ServiceManager)
    → b.config ≡ a.config
    → is_service_enabled t b ≡ is_service_enabled t a
unfolding is_service_enabled
enabled_same t a b e = rw (is_service_enabled, e) refl

has_health :
    (k j : String) (h : ServiceHealth) (m : Map ServiceHealth)
    → ((g : ServiceHealth) × (lookup j m ≡ some g))
    → (g : ServiceHealth) × (lookup j (insert k h m) ≡ some g)
has_health k j h m (g, e) = elim (Bool-cases (k == j)) [
  | inl s ↦ (h, ground (arith, lookup-insert k j h m))
  | inr s ↦ (g, ground (arith, lookup-insert k j h m))
]

update_service_health-IsConsistent :
    (id : String) (h : ServiceHealth) (sm : ServiceManager)
    → IsConsistent sm
    → IsConsistent (update_service_health id h sm)
unfolding update_service_health get_service get_service_health is_service_enabled
update_service_health-IsConsistent id h sm v = record {
  map = v.map;
  known = λ j s e. record {
    own_id = (v.known j s e).own_id;
    enabled = (v.known j s e).enabled;
    checked = has_health id j h sm.service_health (v.known j s e).checked;
  };
}

unregister_service-IsConsistent :
    (id : String) (sm : ServiceManager)
    → IsConsistent sm
    → IsConsistent (unregister_service id sm).0
unfolding unregister_service get_service get_service_health is_service_enabled
unregister_service-IsConsistent id sm v = elim (Option-cases (lookup id sm.services)) [
  | inl n ↦ rw (unregister_service, n) v
  | inr (r, n) ↦
      rw (unregister_service, n)
        (record {
          map = delete-IsMap id sm.services v.map;
          known = λ j s e.
              let old : lookup j sm.services ≡ some s =
                ground (arith, lookup-delete id j sm.services) in
              let k = v.known j s old in
              record {
                own_id = k.own_id;
                enabled = k.enabled;
                checked = (
                  k.checked.0,
                  ground (
                    arith,
                    lookup-delete id j sm.services,
                    lookup-delete id j sm.service_health,
                    k.checked.1,
                    e,
                  ),
                );
              };
        })
]

register_service-IsConsistent :
    (registered beat checked : ℕ) (r : Registration) (sm : ServiceManager)
    → IsConsistent sm
    → IsConsistent (register_service registered beat checked r sm).0
unfolding register_service get_service get_service_health
register_service-IsConsistent registered beat checked r sm v =
    elim (Bool-cases (is_service_enabled r.service_type sm)) [
      | inr n ↦ rw (register_service, n) v
      | inl n ↦
          rw (register_service, n)
            (record {
              map = insert-IsMap r.service_id _ sm.services v.map;
              known = λ j s e. elim (String-cases r.service_id j) [
                | inl same ↦
                    let new : record r { registered_at = registered; last_heartbeat = beat } ≡ s =
                      ground (
                        arith,
                        lookup-insert r.service_id j
                            (record r { registered_at = registered; last_heartbeat = beat })
                            sm.services,
                        eq_iff r.service_id j,
                      ) in
                    rw (← new) (record {
                      own_id = same;
                      enabled = enabled_same r.service_type sm _ refl ∙ n;
                      checked = (
                        (record {
                          status = "unknown";
                          message = "";
                          last_checked = checked;
                          response_time = 0;
                        }),
                        lookup-insert r.service_id j _ sm.service_health
                            ∙ rw ((eq_iff r.service_id j).1 same) refl,
                      );
                    })
                | inr (other, q) ↦
                    let k = v.known j s (
                      ground (
                        arith,
                        lookup-insert r.service_id j
                            (record r { registered_at = registered; last_heartbeat = beat })
                            sm.services,
                      )) in
                    record {
                      own_id = k.own_id;
                      enabled = enabled_same s.service_type sm _ refl ∙ k.enabled;
                      checked = has_health r.service_id j _ sm.service_health k.checked;
                    }
              ];
            })
    ]

-- After any sequence of calls on a new manager, each registered service stands under its own ID,
-- is of a type that the configuration enables, and has a health status.
pub Reach-IsConsistent :
    (config : Option (Map Bool)) (sm : ServiceManager)
    → Reach (new_service_manager config) sm
    → IsConsistent sm
unfolding new_service_manager get_service lookup
Reach-IsConsistent config sm here = record { map = tt; known = λ id s e. absurd (ground arith) }
Reach-IsConsistent config sm (next r (register t b c x e)) =
    rw e (register_service-IsConsistent t b c x _ (Reach-IsConsistent config _ r))
Reach-IsConsistent config sm (next r (unregister id e)) =
    rw e (unregister_service-IsConsistent id _ (Reach-IsConsistent config _ r))
Reach-IsConsistent config sm (next r (update_health id h e)) =
    rw e (update_service_health-IsConsistent id h _ (Reach-IsConsistent config _ r))
