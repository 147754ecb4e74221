-- ===== src/Plugins/Paths.antt =====
-- The choice of a plugin service for a path (`pathMatchesCapability` and `GetServiceForPath` of
-- pkg/plugins/manager.go), beside a description of what a pattern covers.
use Prim.Native.String.{◌++◌}
use text.Mathlib.TextLemmas.{cons-append}
use suse_ai_up.Prelude.{
  String, suc, true, false, ◌==◌, List, [], ◌∷◌, some, ◌≡◌, ◌≢◌, ◌↔◌, inl, inr, refl, sym, ap, ◌∙◌,
  arith, eq_iff, ltb, text_len, has_prefix, has_suffix, trim_suffix, has_prefix_sound,
  has_prefix_complete, has_suffix_sound, has_suffix_complete, trim_suffix-append, Bool-cases,
  String-cases, values, In, IsMap, any, any_sound, any_complete, In-values_of-lookup,
  lookup_of-In-values, ◌&&◌, ◌<◌,
}
use suse_ai_up.Plugins.{
  Capability, Registration, ServiceManager, path_matches_capability, first_service,
  get_service_for_path, get_service,
}

-- "prefix*", with a prefix that is not empty.
abbrev pub IsWild : String → Type 0
IsWild pattern = (front : String) × (front ≢ "") × (pattern ≡ front ++ "*")

pub data Covers (pattern path : String) : Type 0 where
  -- a pattern without the star is the path itself
  exactly : pattern ≢ "" → ¬ IsWild pattern → path ≡ pattern → Covers pattern path
  -- "front*" covers whatever begins with `front`
  beginning :
      (front rest : String)
      → front ≢ ""
      → pattern ≡ front ++ "*"
      → path ≡ front ++ rest
      → Covers pattern path

text_len_star : (front : String) → text_len (front ++ "*") ≡ suc (text_len front)
text_len_star String.[] = refl
text_len_star (String.◌∷◌ c s) = rw cons-append (ap suc (text_len_star s))

text_len_pos : (s : String) → s ≢ "" → 0 < text_len s
text_len_pos String.[] h = absurd (h refl)
text_len_pos (String.◌∷◌ c s) h = omega arith

IsWild-tests :
    (pattern : String)
    → IsWild pattern
    → (ltb 1 (text_len pattern) && has_suffix pattern "*") ≡ true
IsWild-tests pattern (front, named, e) =
    rw (e, text_len_star front, has_suffix_complete front "*")
      (ground (arith, text_len_pos front named))

tests-IsWild :
    (pattern : String)
    → (ltb 1 (text_len pattern) && has_suffix pattern "*") ≡ true
    → IsWild pattern
tests-IsWild pattern h =
    let (front, e) = has_suffix_sound pattern "*" (ground arith) in
    (
      front,
      λ n.
          let len : text_len pattern ≡ 1 =
            ap text_len e ∙ text_len_star front ∙ ap (λ t. suc (text_len t)) n in
          ground (arith, len),
      e,
    )

wild_value :
    (path pattern : String)
    → (pattern == "") ≡ false
    → (ltb 1 (text_len pattern) && has_suffix pattern "*") ≡ true
    → has_prefix path (trim_suffix pattern "*") ≡ path_matches_capability path pattern
unfolding path_matches_capability
wild_value path pattern e w = rw (path_matches_capability, e, w) refl

plain_value :
    (path pattern : String)
    → (pattern == "") ≡ false
    → (ltb 1 (text_len pattern) && has_suffix pattern "*") ≡ false
    → (path == pattern) ≡ path_matches_capability path pattern
unfolding path_matches_capability
plain_value path pattern e w = rw (path_matches_capability, e, w) refl

wild-named :
    (pattern : String)
    → (ltb 1 (text_len pattern) && has_suffix pattern "*") ≡ true
    → (pattern == "") ≡ false
wild-named pattern w = elim (String-cases pattern "") [
  | inl e ↦
      let long : 1 < text_len pattern = ground arith in absurd (omega (arith, long, ap text_len e))
  | inr (named, e) ↦ e
]

path_matches_capability_sound :
    (path pattern : String) → path_matches_capability path pattern ≡ true → Covers pattern path
unfolding path_matches_capability
path_matches_capability_sound path pattern h = elim (String-cases pattern "") [
  | inl e ↦ absurd (ground (arith, eq_iff pattern ""))
  | inr (named, e) ↦ elim (Bool-cases (ltb 1 (text_len pattern) && has_suffix pattern "*")) [
    | inl w ↦
        let (front, some_front, p) = tests-IsWild pattern w in
        let cut : trim_suffix pattern "*" ≡ front = rw p (trim_suffix-append front "*") in
        let (rest, q) =
          has_prefix_sound path front
            (ap (has_prefix path) (sym cut) ∙ wild_value path pattern e w ∙ h) in
        beginning front rest some_front p q
    | inr n ↦
        exactly named (λ w. cc (IsWild-tests pattern w))
          ((eq_iff path pattern).0 (plain_value path pattern e n ∙ h))
  ]
]

path_matches_capability_complete :
    (path pattern : String) → Covers pattern path → path_matches_capability path pattern ≡ true
unfolding path_matches_capability
path_matches_capability_complete path pattern (exactly named plain e) =
    elim (Bool-cases (ltb 1 (text_len pattern) && has_suffix pattern "*")) [
      | inl w ↦ absurd (plain (tests-IsWild pattern w))
      | inr n ↦ ground (arith, eq_iff pattern "", eq_iff path pattern)
    ]
path_matches_capability_complete path pattern (beginning front rest some_front p q) =
    let tests = IsWild-tests pattern (front, some_front, p) in
    let cut : trim_suffix pattern "*" ≡ front = rw p (trim_suffix-append front "*") in
    let begins : has_prefix path front ≡ true = rw q (has_prefix_complete front rest) in
    let named : (pattern == "") ≡ false = wild-named pattern tests in
    sym (wild_value path pattern named tests) ∙ ap (has_prefix path) cut ∙ begins

first_service_sound :
    (path : String) (rest : List Registration) (s : Registration)
    → first_service path rest ≡ some s
    → In s rest × (any (λ c. path_matches_capability path c.path) s.capabilities ≡ true)
unfolding first_service
first_service_sound path [] s h = cc
first_service_sound path (t ∷ rest) s h =
    elim (Bool-cases (any (λ c. path_matches_capability path c.path) t.capabilities)) [
      | inl e ↦ let same : t ≡ s = ground arith in (inl same, rw (← same) e)
      | inr e ↦ let (i, q) = first_service_sound path rest s (ground arith) in (inr i, q)
    ]

first_service_complete :
    (path : String) (rest : List Registration) (s : Registration)
    → In s rest
    → any (λ c. path_matches_capability path c.path) s.capabilities ≡ true
    → (t : Registration) × (first_service path rest ≡ some t)
unfolding first_service
first_service_complete path [] s i h = absurd i
first_service_complete path (t ∷ rest) s i h =
    elim (Bool-cases (any (λ c. path_matches_capability path c.path) t.capabilities)) [
      | inl e ↦ (t, rw e refl)
      | inr e ↦ elim i [
        | inl same ↦ absurd (
            ground (
              arith,
              ap
                  (λ (r : Registration).
                    any (λ c. path_matches_capability path c.path) r.capabilities)
                  same,
            ))
        | inr j ↦ let (u, q) = first_service_complete path rest s j h in (u, rw e q)
      ]
    ]

-- A pattern of a capability matches a path exactly when it covers it: "front*", with a front that
-- is not empty, covers what begins with it, and any other pattern but the empty one itself alone.
pub path_matches_capability-Covers :
    (path pattern : String) → (path_matches_capability path pattern ≡ true) ↔ Covers pattern path
path_matches_capability-Covers path pattern =
    (path_matches_capability_sound path pattern, path_matches_capability_complete path pattern)

-- With no service listed twice, the service that `GetServiceForPath` answers with is registered,
-- and one of its capabilities covers the path.
pub get_service_for_path_sound :
    (path : String) (sm : ServiceManager) (s : Registration)
    → IsMap sm.services
    → get_service_for_path path sm ≡ some s
    → ((id : String) × (get_service id sm ≡ some s))
      × ((c : Capability) × In c s.capabilities × Covers c.path path)
unfolding get_service_for_path get_service
get_service_for_path_sound path sm s m h =
    let (i, e) = first_service_sound path (values sm.services) s h in
    let (c, j, q) = any_sound (λ c. path_matches_capability path c.path) s.capabilities e in
    (lookup_of-In-values s sm.services m i, (c, j, path_matches_capability_sound path c.path q))

-- A path that a capability of a registered service covers is answered with some service.
pub get_service_for_path_complete :
    (path id : String) (sm : ServiceManager) (s : Registration) (c : Capability)
    → get_service id sm ≡ some s
    → In c s.capabilities
    → Covers c.path path
    → (t : Registration) × (get_service_for_path path sm ≡ some t)
unfolding get_service_for_path get_service
get_service_for_path_complete path id sm s c found j covers =
    first_service_complete path (values sm.services) s (In-values_of-lookup id s sm.services found)
      (any_complete (λ c'. path_matches_capability path c'.path) c s.capabilities j
        (path_matches_capability_complete path c.path covers))
