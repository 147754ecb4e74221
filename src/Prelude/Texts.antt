-- ===== src/Prelude/Texts.antt =====
-- The functions of Go's package `strings` that the program calls, over texts read character by
-- character. On valid UTF-8 they answer as on bytes.
use Prim.Native.Nat.{ℕ, zero, suc}
use Prim.Native.Char.{Char, code}
use Prim.Native.String.{String, [], ◌∷◌, ◌++◌}
use mathlib.Core.Path.{◌≡◌, refl, sym, ap, ◌∙◌}
use mathlib.Core.Logic.{inl, inr}
use mathlib.Core.Bool.{Bool, true, false, ◌||◌, ◌&&◌}
use native.Mathlib.Omega.{arith}
use text.Mathlib.Text.{◌==◌}
use text.Mathlib.TextEquality.{eq_iff, Char-path}
use text.Mathlib.TextPositions.{eq_refl}
use text.Mathlib.TextLemmas.{nil-append, cons-append, append_cancel_right, cons≢nil}
use suse_ai_up.Prelude.Tests.{if◌then◌else◌, nat_eq, nat_eq_iff, Bool-cases}

abbrev pub char_eq : Char → Char → Bool
char_eq c d = nat_eq (code c) (code d)

pub char_eq_path : (c d : Char) → char_eq c d ≡ true → c ≡ d
char_eq_path c d h = Char-path c d ((nat_eq_iff _ _).0 h)

-- `strings.HasPrefix(s, prefix)`
unfoldable pub has_prefix : String → String → Bool
has_prefix s [] = true
has_prefix [] (d ∷ p) = false
has_prefix (c ∷ s) (d ∷ p) = char_eq c d && has_prefix s p

-- `strings.HasSuffix(s, suffix)`
unfoldable pub has_suffix : String → String → Bool
has_suffix [] t = [] == t
has_suffix (c ∷ s) t = ((c ∷ s) == t) || has_suffix s t

-- `strings.TrimSuffix(s, suffix)`
unfoldable pub trim_suffix : String → String → String
trim_suffix [] t = []
trim_suffix (c ∷ s) t = if (c ∷ s) == t then [] else c ∷ trim_suffix s t

-- `strings.Contains(s, substr)`
unfoldable pub contains_text : String → String → Bool
unfolding has_prefix
contains_text [] t = has_prefix [] t
contains_text (c ∷ s) t = has_prefix (c ∷ s) t || contains_text s t

pub has_prefix_sound : (s p : String) → has_prefix s p ≡ true → (r : String) × (s ≡ p ++ r)
unfolding has_prefix
has_prefix_sound s [] h = (s, sym (nil-append s))
has_prefix_sound [] (d ∷ p) h = cc
has_prefix_sound (c ∷ s) (d ∷ p) h =
    let (r, e) = has_prefix_sound s p (ground arith) in
    (r, ap (λ x. x ∷ s) (char_eq_path c d (ground arith)) ∙ ap (◌∷◌ d) e ∙ sym (cons-append d p r))

pub has_prefix_complete : (p r : String) → has_prefix (p ++ r) p ≡ true
unfolding has_prefix
has_prefix_complete [] r = refl
has_prefix_complete (d ∷ p) r = rw cons-append (ground (arith, has_prefix_complete p r))

pub has_suffix_sound : (s t : String) → has_suffix s t ≡ true → (r : String) × (s ≡ r ++ t)
unfolding has_suffix
has_suffix_sound [] t h = ([], sym (nil-append t ∙ sym ((eq_iff [] t).0 h)))
has_suffix_sound (c ∷ s) t h = elim (Bool-cases ((c ∷ s) == t)) [
  | inl e ↦ ([], (eq_iff _ _).0 e ∙ sym (nil-append t))
  | inr e ↦
      let (r, p) = has_suffix_sound s t (ground arith) in
      (c ∷ r, ap (◌∷◌ c) p ∙ sym (cons-append c r t))
]

has_suffix_self : (t : String) → has_suffix t t ≡ true
unfolding has_suffix
has_suffix_self [] = refl
has_suffix_self (c ∷ t) = ground (arith, eq_refl (c ∷ t))

pub has_suffix_complete : (r t : String) → has_suffix (r ++ t) t ≡ true
unfolding has_suffix
has_suffix_complete [] t = rw nil-append (has_suffix_self t)
has_suffix_complete (c ∷ r) t = rw cons-append (ground (arith, has_suffix_complete r t))

-- A suffix that is there is cut off once.
pub trim_suffix-append : (r t : String) → trim_suffix (r ++ t) t ≡ r
unfolding trim_suffix
trim_suffix-append [] [] = refl
trim_suffix-append [] (c ∷ t) = rw nil-append (ground (arith, eq_refl (c ∷ t)))
trim_suffix-append (c ∷ r) t = elim (Bool-cases ((c ∷ (r ++ t)) == t)) [
  | inl e ↦ absurd (
      cons≢nil (
        append_cancel_right (c ∷ r) [] t
          (cons-append c r t ∙ (eq_iff _ _).0 e ∙ sym (nil-append t))))
  | inr e ↦ rw (cons-append, trim_suffix, e) (ap (◌∷◌ c) (trim_suffix-append r t))
]

-- A character in the middle is found.
pub contains_text-middle : (a b : String) (c : Char) → contains_text (a ++ (c ∷ b)) (c ∷ []) ≡ true
unfolding contains_text
contains_text-middle [] b c = rw nil-append (ground arith)
contains_text-middle (d ∷ a) b c = rw cons-append (ground (arith, contains_text-middle a b c))

-- `len(s)`, `s[:n]` and `s[n:]`, in characters, for texts such as the digits of a hash.
abbrev pub text_len : String → ℕ
text_len [] = 0
text_len (c ∷ s) = suc (text_len s)

abbrev pub take_text : ℕ → String → String
take_text zero s = []
take_text (suc n) [] = []
take_text (suc n) (c ∷ s) = c ∷ take_text n s

abbrev pub drop_text : ℕ → String → String
drop_text zero s = s
drop_text (suc n) [] = []
drop_text (suc n) (c ∷ s) = drop_text n s

pub take_text_all : (n : ℕ) (s : String) → text_len s ≡ n → take_text n s ≡ s
take_text_all zero [] h = refl
take_text_all zero (c ∷ s) h = absurd (omega arith)
take_text_all (suc n) [] h = refl
take_text_all (suc n) (c ∷ s) h = ap (◌∷◌ c) (take_text_all n s (omega arith))

pub drop_text_all : (n : ℕ) (s : String) → text_len s ≡ n → drop_text n s ≡ []
drop_text_all zero [] h = refl
drop_text_all zero (c ∷ s) h = absurd (omega arith)
drop_text_all (suc n) [] h = refl
drop_text_all (suc n) (c ∷ s) h = drop_text_all n s (omega arith)
