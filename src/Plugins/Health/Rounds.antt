-- ===== src/Plugins/Health/Rounds.antt =====
-- A round of `performHealthChecks` of pkg/plugins/manager.go.
use suse_ai_up.Prelude.{
  String, ℕ, nat_eq, ◌==◌, List, [], ◌∷◌, none, some, ◌≡◌, refl, ap, ◌∙◌, inl, inr, if◌then◌else◌,
  arith, eq_iff, Map, lookup, lookup-insert, Bool-cases, Option-cases, String-cases, In,
}
use suse_ai_up.Plugins.{
  Registration, ServiceHealth, ServiceManager, get_service, get_service_health,
  update_service_health,
}
use suse_ai_up.Plugins.Health.{
  Answer, no_request, failed, answered, check_discovery, check_virtual_mcp_health,
  check_basic_service_health, check_service_health, check_listed, service_ids,
  perform_health_checks,
}

module _ (show : ℕ → String) where
  In-service_ids :
      (id : String) (s : Registration) (m : Map Registration)
      → lookup id m ≡ some s
      → In id (service_ids m)
  unfolding service_ids lookup
  In-service_ids id s [] e = cc
  In-service_ids id s ((j, t) ∷ m) e = elim (String-cases j id) [
    | inl same ↦ inl same
    | inr (other, q) ↦ inr (In-service_ids id s m (ground arith))
  ]

  check_discovery-unstamped :
      (mcps : Answer) (count : ℕ) → (check_discovery show mcps count).last_checked ≡ 0
  unfolding check_discovery
  check_discovery-unstamped (no_request e) count = refl
  check_discovery-unstamped (failed e) count = refl
  check_discovery-unstamped (answered status) count = elim (Bool-cases (nat_eq status 200)) [
    | inl e ↦ rw e refl
    | inr e ↦ rw e refl
  ]

  check_virtual_mcp_health-unstamped :
      (basic mcps : Answer) (count : ℕ)
      → (check_virtual_mcp_health show basic mcps count).last_checked ≡ 0
  unfolding check_virtual_mcp_health
  check_virtual_mcp_health-unstamped (no_request e) mcps count = refl
  check_virtual_mcp_health-unstamped (failed e) mcps count = refl
  check_virtual_mcp_health-unstamped (answered status) mcps count =
      elim (Bool-cases (nat_eq status 200)) [
        | inl e ↦ rw e (check_discovery-unstamped mcps count)
        | inr e ↦ rw e refl
      ]

  module _ (network : Registration → Answer × Answer × ℕ × ℕ) where
    check_service_health-unstamped :
        (s : Registration) → (check_service_health show network s).last_checked ≡ 0
    unfolding check_service_health check_basic_service_health
    check_service_health-unstamped s = elim (Bool-cases (s.service_type == "virtualmcp")) [
      | inl e ↦ rw e (check_virtual_mcp_health-unstamped _ _ _)
      | inr e ↦ rw e refl
    ]

    update-get_service_health :
        (id j : String) (h : ServiceHealth) (sm : ServiceManager)
        → get_service_health j (update_service_health id h sm)
          ≡ (if id == j then some h else get_service_health j sm)
    unfolding update_service_health get_service_health
    update-get_service_health id j h sm = lookup-insert id j h sm.service_health

    update-get_service :
        (id j : String) (h : ServiceHealth) (sm : ServiceManager)
        → get_service j (update_service_health id h sm) ≡ get_service j sm
    unfolding update_service_health get_service
    update-get_service id j h sm = refl

    perform_found :
        (j : String) (ids : List String) (sm : ServiceManager) (t : Registration)
        → get_service j sm ≡ some t
        → check_listed show network (j ∷ ids) sm
          ≡ check_listed show network ids
              (update_service_health j (check_service_health show network t) sm)
    unfolding check_listed
    perform_found j ids sm t n = rw (check_listed, n) refl

    perform_missing :
        (j : String) (ids : List String) (sm : ServiceManager)
        → get_service j sm ≡ none
        → check_listed show network (j ∷ ids) sm ≡ check_listed show network ids sm
    unfolding check_listed
    perform_missing j ids sm n = rw (check_listed, n) refl

    -- A check of some service leaves the health of another as it is.
    update_keeps :
        (j id : String) (sm : ServiceManager) (t s : Registration)
        → get_service j sm ≡ some t
        → get_service id sm ≡ some s
        → get_service_health id sm ≡ some (check_service_health show network s)
        → get_service_health id (update_service_health j (check_service_health show network t) sm)
          ≡ some (check_service_health show network s)
    update_keeps j id sm t s n found h = elim (String-cases j id) [
      | inl e ↦
          let same : t ≡ s = ground (arith, n, found, e) in
          update-get_service_health j id _ sm ∙ rw ((eq_iff j id).1 e, same) refl
      | inr (ne, e) ↦ update-get_service_health j id _ sm ∙ rw e h
    ]

    perform_keeps :
        (ids : List String) (sm : ServiceManager) (id : String) (s : Registration)
        → get_service id sm ≡ some s
        → get_service_health id sm ≡ some (check_service_health show network s)
        → get_service_health id (check_listed show network ids sm)
          ≡ some (check_service_health show network s)
    unfolding check_listed
    perform_keeps [] sm id s found h = h
    perform_keeps (j ∷ ids) sm id s found h = elim (Option-cases (get_service j sm)) [
      | inl n ↦
          ap (get_service_health id) (perform_missing j ids sm n)
          ∙ perform_keeps ids sm id s found h
      | inr (t, n) ↦
          ap (get_service_health id) (perform_found j ids sm t n)
          ∙ perform_keeps ids _ id s (update-get_service j id _ sm ∙ found)
              (update_keeps j id sm t s n found h)
    ]

    perform_checked :
        (ids : List String) (sm : ServiceManager) (id : String) (s : Registration)
        → In id ids
        → get_service id sm ≡ some s
        → get_service_health id (check_listed show network ids sm)
          ≡ some (check_service_health show network s)
    perform_checked [] sm id s i found = absurd i
    perform_checked (j ∷ ids) sm id s (inl e) found =
        let here : get_service j sm ≡ some s = rw e found in
        ap (get_service_health id) (perform_found j ids sm s here)
        ∙ perform_keeps ids _ id s (update-get_service j id _ sm ∙ found)
            (update-get_service_health j id _ sm ∙ rw ((eq_iff j id).1 e) refl)
    perform_checked (j ∷ ids) sm id s (inr i) found = elim (Option-cases (get_service j sm)) [
      | inl n ↦
          ap (get_service_health id) (perform_missing j ids sm n)
          ∙ perform_checked ids sm id s i found
      | inr (t, n) ↦
          ap (get_service_health id) (perform_found j ids sm t n)
          ∙ perform_checked ids _ id s i (update-get_service j id _ sm ∙ found)
    ]

    listed :
        (id : String) (s : Registration) (sm : ServiceManager)
        → get_service id sm ≡ some s
        → In id (service_ids sm.services)
    unfolding get_service
    listed id s sm e = In-service_ids id s sm.services e

    -- After `performHealthChecks`, with no other call in between, each registered service has the
    -- health of its own check, and the time of that check, `LastChecked`, is Go's zero time,
    -- whatever the network answered.
    pub perform_health_checks-unstamped :
        (sm : ServiceManager) (id : String) (s : Registration)
        → get_service id sm ≡ some s
        → (get_service_health id (perform_health_checks show network sm)
            ≡ some (check_service_health show network s))
          × ((check_service_health show network s).last_checked ≡ 0)
    unfolding perform_health_checks
    perform_health_checks-unstamped sm id s found = (
      perform_checked (service_ids sm.services) sm id s (listed id s sm found) found,
      check_service_health-unstamped s,
    )
