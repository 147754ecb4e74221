-- ===== src/Routes/Served.antt =====
-- Which requests reach a plugin service (internal/service/dynamic_router.go).
use suse_ai_up.Prelude.{
  String, true, false, ◌==◌, ◌&&◌, Option, none, some, ◌≡◌, refl, subst, any_sound, contains,
  contains-In, In, IsMap, Bool-cases, Option-cases, inl, inr, eq_iff, arith,
}
use suse_ai_up.Plugins.{
  Capability, Registration, ServiceHealth, ServiceManager, get_service, get_service_for_path,
  get_service_health,
}
use suse_ai_up.Plugins.Paths.{Covers, get_service_for_path_sound}
use suse_ai_up.Routes.{
  PluginRequest, next, proxied, status_of, path_matches, is_method_supported,
  is_plugin_management_endpoint, route,
}

-- Why a request may go to a service.
pub record Served (r : PluginRequest) (sm : ServiceManager) (s : Registration) : Type 0 where
  pub outside : is_plugin_management_endpoint r.path ≡ false
  pub id : String
  pub registered : get_service id sm ≡ some s
  pub health : ServiceHealth
  pub checked : get_service_health s.service_id sm ≡ some health
  pub healthy : health.status ≡ "healthy"
  pub covering : Capability
  pub covers : In covering s.capabilities × Covers covering.path r.path
  pub offering : Capability
  pub offers : In offering s.capabilities × (path_matches r.path offering.path ≡ true)
  pub method : In r.method offering.methods

healthy_health :
    (h : Option ServiceHealth)
    → (status_of h == "healthy") ≡ true
    → (health : ServiceHealth) × (h ≡ some health) × (health.status ≡ "healthy")
unfolding status_of
healthy_health none e = absurd (ground arith)
healthy_health (some health) e = (health, refl, (eq_iff health.status "healthy").0 e)

method_sound :
    (s : Registration) (path method : String)
    → is_method_supported s path method ≡ true
    → (c : Capability) × In c s.capabilities
      × (path_matches path c.path ≡ true)
      × In method c.methods
unfolding is_method_supported
method_sound s path method h =
    let (c, i, both) =
      any_sound (λ c. path_matches path c.path && contains method c.methods) s.capabilities h in
    (c, i, ground arith, contains-In method c.methods (ground arith))

-- The middleware sends a request to a service only when its path is no management path, the
-- service is registered, its health is "healthy", one of its capabilities covers the path, and a
-- capability whose pattern matches the path lists the method; with no service listed twice.
pub route-Served :
    (r : PluginRequest) (sm : ServiceManager) (s : Registration)
    → IsMap sm.services
    → route r sm ≡ proxied s
    → Served r sm s
unfolding route
route-Served r sm s m h = elim (Bool-cases (is_plugin_management_endpoint r.path)) [
  | inl e ↦ absurd (cc (rw (route, e) at h))
  | inr e ↦ elim (Option-cases (get_service_for_path r.path sm)) [
    | inl n ↦ absurd (cc (rw (route, e, n) at h))
    | inr (t, n) ↦ elim (Bool-cases (status_of (get_service_health t.service_id sm) == "healthy")) [
      | inr q ↦ absurd (cc (rw (route, e, n, q) at h))
      | inl q ↦ elim (Bool-cases (is_method_supported t r.path r.method)) [
        | inr k ↦ absurd (cc (rw (route, e, n, q, k) at h))
        | inl k ↦
            let (health, g, w) = healthy_health (get_service_health t.service_id sm) q in
            let ((id, found), (c, i, v)) = get_service_for_path_sound r.path sm t m n in
            let (d, j, match, method) = method_sound t r.path r.method k in
            let same : t ≡ s = cc (rw (route, e, n, q, k) at h) in
            subst (Served r sm) same (record {
              outside = e;
              id = id;
              registered = found;
              health = health;
              checked = g;
              healthy = w;
              covering = c;
              covers = (i, v);
              offering = d;
              offers = (j, match);
              method = method;
            })
      ]
    ]
  ]
]

-- A request whose path no capability of a registered service covers goes to the next handler: a
-- pattern with a parameter, such as "/agents/{id}", covers no path but itself.
pub route-uncovered :
    (r : PluginRequest) (sm : ServiceManager)
    → IsMap sm.services
    → ((id : String) (s : Registration) (c : Capability)
        → get_service id sm ≡ some s
        → In c s.capabilities
        → ¬ Covers c.path r.path)
    → route r sm ≡ next
unfolding route
route-uncovered r sm m none_covers = elim (Bool-cases (is_plugin_management_endpoint r.path)) [
  | inl e ↦ rw (route, e) refl
  | inr e ↦ elim (Option-cases (get_service_for_path r.path sm)) [
    | inl n ↦ rw (route, e, n) refl
    | inr (t, n) ↦
        let ((id, found), (c, i, v)) = get_service_for_path_sound r.path sm t m n in
        absurd (none_covers id t c found i v)
  ]
]
