-- ===== src/Permissions/Grants.antt =====
-- What a permission pattern grants, described without the code's tests, and the matcher against it.
use Prim.Native.String.{◌++◌}
use Prim.Native.Char.{Char}
use suse_ai_up.Prelude.{
  String, true, false, List, [], ◌∷◌, ◌==◌, has_prefix, has_suffix, trim_suffix, contains_text,
  split_on, Lacks, Bool-cases, inl, inr, ◌≡◌, ◌↔◌, eq_iff, refl, ap, ◌∙◌, arith, has_prefix_sound,
  has_prefix_complete, has_suffix_sound, has_suffix_complete, trim_suffix-append,
  split_on_two_sound, split_on_two_complete, contains_text-middle,
}
use suse_ai_up.Permissions.{permission_matches, two_parts}

-- The text ends as a scope pattern does.
abbrev pub IsScope : String → Type 0
IsScope pattern = (scope : String) × (pattern ≡ scope ++ ":*")

abbrev pub star : Char
star = "*"

pub data Grants (pattern required : String) : Type 0 where
  -- the permission itself
  itself : pattern ≡ required → Grants pattern required
  -- "scope:*" grants whatever stands below "scope:"
  below :
      (scope rest : String)
      → pattern ≡ scope ++ ":*"
      → required ≡ (scope ++ ":") ++ rest
      → Grants pattern required
  -- "a*b", with one star and not a scope, grants what begins with `a` and ends with `b`
  between :
      (a b front back : String)
      → pattern ≡ a ++ String.◌∷◌ star b
      → Lacks star a
      → Lacks star b
      → ¬ IsScope pattern
      → required ≡ a ++ back
      → required ≡ front ++ b
      → Grants pattern required

two_parts_sound :
    (parts : List String) (required : String)
    → two_parts parts required ≡ true
    → (a : String) × (b : String) × (parts ≡ a ∷ b ∷ [])
      × (has_prefix required a ≡ true)
      × (has_suffix required b ≡ true)
unfolding two_parts
two_parts_sound [] r h = cc
two_parts_sound (a ∷ []) r h = cc
two_parts_sound (a ∷ b ∷ []) r h = (a, b, refl, ground arith, ground arith)
two_parts_sound (a ∷ b ∷ c ∷ cs) r h = cc

not-IsScope : (pattern : String) → has_suffix pattern ":*" ≡ false → ¬ IsScope pattern
not-IsScope pattern h (scope, e) =
    let found : has_suffix pattern ":*" ≡ true = rw e (has_suffix_complete scope ":*") in cc

permission_matches_sound :
    (pattern required : String)
    → permission_matches pattern required ≡ true
    → Grants pattern required
unfolding permission_matches
permission_matches_sound p r h = elim (Bool-cases (p == r)) [
  | inl same ↦ itself ((eq_iff p r).0 same)
  | inr other ↦ elim (Bool-cases (has_suffix p ":*")) [
    | inl ends ↦
        let (scope, e) = has_suffix_sound p ":*" ends in
        let cut : trim_suffix p ":*" ≡ scope =
          ap (λ t. trim_suffix t ":*") e ∙ trim_suffix-append scope ":*" in
        let (rest, q) = has_prefix_sound r (trim_suffix p ":*" ++ ":") (ground arith) in
        below scope rest e (q ∙ ap (λ t. (t ++ ":") ++ rest) cut)
    | inr unscoped ↦ elim (Bool-cases (contains_text p "*")) [
      | inl starred ↦
          let (a, b, parts, front, back) = two_parts_sound (split_on "*" p) r (ground arith) in
          let (e, la, lb) = split_on_two_sound "*" p a b parts in
          let (y, py) = has_prefix_sound r a front in
          let (x, px) = has_suffix_sound r b back in
          between a b x y e la lb (not-IsScope p unscoped) py px
      | inr plain ↦ ground arith
    ]
  ]
]

permission_matches_complete :
    (pattern required : String)
    → Grants pattern required
    → permission_matches pattern required ≡ true
unfolding permission_matches
permission_matches_complete p r (itself e) = ground (arith, eq_iff p r)
permission_matches_complete p r (below scope rest e q) = elim (Bool-cases (p == r)) [
  | inl same ↦ rw same
  | inr other ↦
      let ends : has_suffix p ":*" ≡ true = rw e (has_suffix_complete scope ":*") in
      let cut : trim_suffix p ":*" ≡ scope = rw e (trim_suffix-append scope ":*") in
      let starts : has_prefix r (scope ++ ":") ≡ true =
        rw q (has_prefix_complete (scope ++ ":") rest) in
      rw (other, ends, cut) starts
]
permission_matches_complete p r (between a b x y e la lb n py px) = elim (Bool-cases (p == r)) [
  | inl same ↦ rw same
  | inr other ↦ elim (Bool-cases (has_suffix p ":*")) [
    | inl ends ↦ absurd (n (has_suffix_sound p ":*" ends))
    | inr unscoped ↦
        let starred : contains_text p "*" ≡ true =
          ap (λ t. contains_text t "*") e ∙ contains_text-middle a b star in
        let parts : split_on star p ≡ a ∷ b ∷ [] = rw e (split_on_two_complete star a b la lb) in
        let front : has_prefix r a ≡ true = rw py (has_prefix_complete a y) in
        let back : has_suffix r b ≡ true = rw px (has_suffix_complete x b) in
        rw (other, unscoped, starred, parts, front, back)
  ]
]

-- A pattern matches a permission exactly when it grants it: it is that permission, or it is
-- "scope:*" and the permission stands below "scope:", or it is "a*b" with one star, not of the
-- scope form, and the permission begins with `a` and ends with `b`.
pub permission_matches-Grants :
    (pattern required : String)
    → (permission_matches pattern required ≡ true) ↔ Grants pattern required
permission_matches-Grants p r = (permission_matches_sound p r, permission_matches_complete p r)
