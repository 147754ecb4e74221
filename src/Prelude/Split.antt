-- ===== src/Prelude/Split.antt =====
-- `strings.Split(s, sep)` for a separator of one character, which the program cuts in two parts.
use Prim.Native.Nat.{◌+◌, ◌≤◌}
use Prim.Native.Char.{Char}
use Prim.Native.String.{String, ◌++◌}
use mathlib.Core.Path.{◌≡◌, refl, sym, ap, ap₂, subst, ◌∙◌}
use mathlib.Core.Logic.{◌≢◌, inl, inr}
use mathlib.Core.Bool.{false}
use mathlib.Core.List.{List, [], ◌∷◌}
use native.Mathlib.Omega.{arith}
use text.Mathlib.TextLemmas.{nil-append, cons-append}
use suse_ai_up.Prelude.Tests.{if◌then◌else◌, nat_eq_iff, Bool-cases}
use suse_ai_up.Prelude.Texts.{char_eq, char_eq_path}
use suse_ai_up.Prelude.Lists.{length}

-- The first part grows by a character.
abbrev pub onto_first : Char → List String → List String
onto_first d [] = String.◌∷◌ d String.[] ∷ []
onto_first d (x ∷ xs) = String.◌∷◌ d x ∷ xs

unfoldable pub split_on : Char → String → List String
split_on c String.[] = String.[] ∷ []
split_on c (String.◌∷◌ d s) =
    let rest = split_on c s in if char_eq d c then String.[] ∷ rest else onto_first d rest

-- The separator does not stand in the text.
abbrev pub Lacks : Char → String → Type 0
Lacks c String.[] = Unit
Lacks c (String.◌∷◌ d s) = (char_eq d c ≡ false) × Lacks c s

onto_first-ne-nil : (d : Char) (xs : List String) → onto_first d xs ≢ []
onto_first-ne-nil d [] = cc
onto_first-ne-nil d (x ∷ xs) = cc

split_on-ne-nil : (c : Char) (s : String) → split_on c s ≢ []
unfolding split_on
split_on-ne-nil c String.[] = cc
split_on-ne-nil c (String.◌∷◌ d s) = elim (Bool-cases (char_eq d c)) [
  | inl e ↦ rw e (cc)
  | inr e ↦ rw e (onto_first-ne-nil d (split_on c s))
]

onto_first-eq-cons :
    (d : Char) (xs ys : List String) (a : String)
    → xs ≢ []
    → onto_first d xs ≡ a ∷ ys
    → (x : String) × (xs ≡ x ∷ ys) × (String.◌∷◌ d x ≡ a)
onto_first-eq-cons d [] ys a n h = absurd (n refl)
onto_first-eq-cons d (x ∷ xs) ys a n h = (x, cc, cc)

split_on_one_sound : (c : Char) (s a : String) → split_on c s ≡ a ∷ [] → (s ≡ a) × Lacks c s
unfolding split_on
split_on_one_sound c String.[] a h = (cc, tt)
split_on_one_sound c (String.◌∷◌ d s) a h = elim (Bool-cases (char_eq d c)) [
  | inl e ↦ absurd (split_on-ne-nil c s (ground arith))
  | inr e ↦
      let (x, p, q) =
        onto_first-eq-cons d (split_on c s) [] a (split_on-ne-nil c s) (ground arith) in
      let (same, lacks) = split_on_one_sound c s x p in (ap (String.◌∷◌ d) same ∙ q, (e, lacks))
]

-- Two parts: the text has the separator once, between them.
pub split_on_two_sound :
    (c : Char) (s a b : String)
    → split_on c s ≡ a ∷ b ∷ []
    → (s ≡ a ++ String.◌∷◌ c b) × Lacks c a × Lacks c b
unfolding split_on
split_on_two_sound c String.[] a b h = cc
split_on_two_sound c (String.◌∷◌ d s) a b h = elim (Bool-cases (char_eq d c)) [
  | inl e ↦
      let (same, lacks) = split_on_one_sound c s b (ground arith) in
      let nothing : String.[] ≡ a = ground arith in
      (
        ap₂ String.◌∷◌ (char_eq_path d c e) same
            ∙ sym (nil-append _)
            ∙ ap (λ y. y ++ String.◌∷◌ c b) nothing,
        subst (Lacks c) nothing tt,
        subst (Lacks c) same lacks,
      )
  | inr e ↦
      let (x, p, q) =
        onto_first-eq-cons d (split_on c s) (b ∷ []) a (split_on-ne-nil c s) (ground arith) in
      let (same, lacks_a, lacks_b) = split_on_two_sound c s x b p in
      (
        ap (String.◌∷◌ d) same ∙ sym (cons-append d x _) ∙ ap (λ y. y ++ String.◌∷◌ c b) q,
        subst (Lacks c) q (e, lacks_a),
        lacks_b,
      )
]

split_on_one_complete : (c : Char) (s : String) → Lacks c s → split_on c s ≡ s ∷ []
unfolding split_on
split_on_one_complete c String.[] h = refl
split_on_one_complete c (String.◌∷◌ d s) (n, h) = rw (n, split_on_one_complete c s h) refl

pub split_on_two_complete :
    (c : Char) (a b : String)
    → Lacks c a
    → Lacks c b
    → split_on c (a ++ String.◌∷◌ c b) ≡ a ∷ b ∷ []
unfolding split_on
split_on_two_complete c String.[] b h k =
    rw nil-append (rw ((nat_eq_iff _ _).1 refl, split_on_one_complete c b k) refl)
split_on_two_complete c (String.◌∷◌ d a) b (n, h) k =
    rw (cons-append, split_on, n, split_on_two_complete c a b h k) refl

-- A text without the separator before one: its own part, then the parts of the rest.
pub split_on-append :
    (c : Char) (a b : String) → Lacks c a → split_on c (a ++ String.◌∷◌ c b) ≡ a ∷ split_on c b
unfolding split_on
split_on-append c String.[] b h = rw nil-append (rw ((nat_eq_iff _ _).1 refl) refl)
split_on-append c (String.◌∷◌ d a) b (n, h) =
    rw (cons-append, split_on, n, split_on-append c a b h) refl

pub split_on_one : (c : Char) (s : String) → Lacks c s → split_on c s ≡ s ∷ []
split_on_one c s h = split_on_one_complete c s h

length-onto_first : (d : Char) (xs : List String) → xs ≢ [] → length (onto_first d xs) ≡ length xs
length-onto_first d [] n = absurd (n refl)
length-onto_first d (x ∷ xs) n = refl

-- A separator between two texts: the parts of both.
pub length-split_on-append :
    (c : Char) (a b : String)
    → length (split_on c (a ++ String.◌∷◌ c b)) ≡ length (split_on c a) + length (split_on c b)
unfolding split_on
length-split_on-append c String.[] b = rw nil-append (rw ((nat_eq_iff _ _).1 refl) (omega arith))
length-split_on-append c (String.◌∷◌ d a) b = elim (Bool-cases (char_eq d c)) [
  | inl e ↦ rw (cons-append, split_on, e) (omega (arith, length-split_on-append c a b))
  | inr e ↦
      rw
        (
          cons-append,
          split_on,
          e,
          length-onto_first d (split_on c (a ++ String.◌∷◌ c b)) (split_on-ne-nil c _),
          length-onto_first d (split_on c a) (split_on-ne-nil c a),
        )
        (length-split_on-append c a b)
]

at_least_one : (xs : List String) → xs ≢ [] → 1 ≤ length xs
at_least_one [] n = absurd (n refl)
at_least_one (x ∷ xs) n = omega arith

pub length-split_on-pos : (c : Char) (s : String) → 1 ≤ length (split_on c s)
length-split_on-pos c s = at_least_one (split_on c s) (split_on-ne-nil c s)
