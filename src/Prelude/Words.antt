-- ===== src/Prelude/Words.antt =====
-- More of Go's package `strings`: lower case compared with ASCII texts, white space, the cut at
-- the first separator, and the replacement of a character.
use Prim.Native.Nat.{ℕ, ◌+◌}
use Prim.Native.Char.{Char, code}
use Prim.Native.String.{String, [], ◌∷◌, ◌++◌}
use mathlib.Core.Path.{◌≡◌, refl, subst, ap, ap₂, ◌∙◌, sym}
use mathlib.Core.Logic.{inl, inr}
use mathlib.Core.Bool.{Bool, true, false, ◌||◌, ◌&&◌}
use mathlib.Core.Option.{Option, none, some}
use text.Mathlib.Text.{◌==◌}
use text.Mathlib.TextLemmas.{nil-append, cons-append}
use suse_ai_up.Prelude.Tests.{if◌then◌else◌, nat_eq, nat_eq_iff, leb, Bool-cases, Option-cases}
use suse_ai_up.Prelude.Texts.{char_eq, char_eq_path}
use suse_ai_up.Prelude.Split.{Lacks}

-- `unicode.ToLower` of a character's number where the result is an ASCII letter: besides A to Z
-- these are U+0130 and the Kelvin sign.
abbrev pub lower_code : ℕ → ℕ
lower_code n =
    if leb 65 n && leb n 90
    then n + 32
    else if nat_eq n 304
    then 105
    else if nat_eq n 8490
    then 107
    else n

-- `strings.ToLower(s) == t` for an ASCII text `t`
unfoldable pub lower_is : String → String → Bool
lower_is [] [] = true
lower_is [] (d ∷ t) = false
lower_is (c ∷ s) [] = false
lower_is (c ∷ s) (d ∷ t) = nat_eq (lower_code (code c)) (code d) && lower_is s t

-- `strings.HasPrefix(strings.ToLower(s), t)` for an ASCII text `t`
unfoldable pub lower_has_prefix : String → String → Bool
lower_has_prefix s [] = true
lower_has_prefix [] (d ∷ t) = false
lower_has_prefix (c ∷ s) (d ∷ t) = nat_eq (lower_code (code c)) (code d) && lower_has_prefix s t

-- `strings.Contains(strings.ToLower(s), t)` for an ASCII text `t`
unfoldable pub lower_contains : String → String → Bool
lower_contains [] t = lower_has_prefix [] t
lower_contains (c ∷ s) t = lower_has_prefix (c ∷ s) t || lower_contains s t

-- `unicode.IsSpace`
abbrev pub is_space : Char → Bool
is_space c =
    let n = code c in
    (leb 9 n && leb n 13)
    || nat_eq n 32
    || nat_eq n 133
    || nat_eq n 160
    || nat_eq n 5760
    || (leb 8192 n && leb n 8202)
    || nat_eq n 8232
    || nat_eq n 8233
    || nat_eq n 8239
    || nat_eq n 8287
    || nat_eq n 12288

unfoldable pub trim_left : String → String
trim_left [] = []
trim_left (c ∷ s) = let rest = trim_left s in if is_space c then rest else c ∷ s

unfoldable pub trim_right : String → String
trim_right [] = []
trim_right (c ∷ s) = let rest = trim_right s in if is_space c && (rest == "") then "" else c ∷ rest

-- `strings.TrimSpace(s)`
unfoldable pub trim_space : String → String
trim_space s = trim_right (trim_left s)

-- A first part grows by a character.
abbrev pub onto_cut : Char → Option (String × String) → Option (String × String)
onto_cut d none = none
onto_cut d (some (a, b)) = some (d ∷ a, b)

-- The two parts of `strings.SplitN(s, sep, 2)`; none where it has one part.
unfoldable pub cut_at : Char → String → Option (String × String)
cut_at c [] = none
cut_at c (d ∷ s) = let rest = cut_at c s in if char_eq d c then some ([], s) else onto_cut d rest

-- `strings.ReplaceAll(s, c, d)` for texts of one character
unfoldable pub replace_char : Char → Char → String → String
replace_char c d [] = []
replace_char c d (x ∷ s) = (if char_eq x c then d else x) ∷ replace_char c d s

-- `strings.TrimPrefix(s, prefix)` where the prefix is there
unfoldable pub drop_prefix : String → String → String
drop_prefix s [] = s
drop_prefix [] (d ∷ p) = []
drop_prefix (c ∷ s) (d ∷ p) = drop_prefix s p

pub cut_at_sound :
    (c : Char) (s a b : String) → cut_at c s ≡ some (a, b) → (s ≡ a ++ (c ∷ b)) × Lacks c a
unfolding cut_at
cut_at_sound c [] a b h = cc
cut_at_sound c (d ∷ s) a b h = elim (Bool-cases (char_eq d c)) [
  | inl e ↦
      let pair : some ([], s) ≡ some (a, b) = rw (cut_at, e) at h in
      let first : [] ≡ a = cc in
      let second : s ≡ b = cc in
      (
        ap₂ ◌∷◌ (char_eq_path d c e) second
            ∙ sym (nil-append (c ∷ b))
            ∙ ap (λ y. y ++ (c ∷ b)) first,
        subst (Lacks c) first tt,
      )
  | inr e ↦
      let grown : onto_cut d (cut_at c s) ≡ some (a, b) = rw (cut_at, e) at h in
      elim (Option-cases (cut_at c s)) [
        | inl n ↦ absurd (cc (rw n at grown))
        | inr ((x, y), n) ↦
            let pair : some (d ∷ x, y) ≡ some (a, b) = rw n at grown in
            let first : (d ∷ x) ≡ a = cc in
            let second : y ≡ b = cc in
            let (same, lacks) = cut_at_sound c s x y n in
            (
              ap (◌∷◌ d) same
                  ∙ sym (cons-append d x (c ∷ y))
                  ∙ ap₂ (λ l r. l ++ (c ∷ r)) first second,
              subst (Lacks c) first (e, lacks),
            )
      ]
]

pub cut_at_complete : (c : Char) (a b : String) → Lacks c a → cut_at c (a ++ (c ∷ b)) ≡ some (a, b)
unfolding cut_at
cut_at_complete c [] b h = rw nil-append (rw ((nat_eq_iff _ _).1 refl) refl)
cut_at_complete c (d ∷ a) b (n, h) = rw (cons-append, cut_at, n, cut_at_complete c a b h) refl
