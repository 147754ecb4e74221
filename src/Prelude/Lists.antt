-- ===== src/Prelude/Lists.antt =====
-- Lists with native lengths, the loops that search a list of texts, and membership by recursion.
use Prim.Native.Nat.{ℕ, suc, ◌+◌}
use Prim.Native.String.{String}
use mathlib.Core.Path.{◌≡◌, refl}
use mathlib.Core.Logic.{◌≢◌, ◌⊎◌, inl, inr}
use mathlib.Core.Bool.{Bool, true, false, ◌||◌}
use mathlib.Core.List.{List, [], ◌∷◌, ◌++◌}
use native.Mathlib.Omega.{arith}
use text.Mathlib.Text.{◌==◌}
use text.Mathlib.TextEquality.{eq_iff}
use suse_ai_up.Prelude.Tests.{if◌then◌else◌, Bool-cases}

module _ {ℓ} {A : Type ℓ} where
  abbrev pub length : List A → ℕ
  length [] = 0
  length (x ∷ xs) = suc (length xs)

  -- `for _, x := range xs { if p(x) { return true } }; return false`
  abbrev pub any : (A → Bool) → List A → Bool
  any p [] = false
  any p (x ∷ xs) = p x || any p xs

  -- `for _, x := range xs { if p(x) { out = append(out, x) } }`
  abbrev pub keep : (A → Bool) → List A → List A
  keep p [] = []
  keep p (x ∷ xs) = if p x then x ∷ keep p xs else keep p xs

  pub length-append : (xs ys : List A) → length (xs ++ ys) ≡ length xs + length ys
  length-append [] ys = omega arith
  length-append (x ∷ xs) ys = omega (arith, length-append xs ys)

-- `x` stands in the list.
abbrev pub In : {A : Type 0} → A → List A → Type 0
In x [] = ⊥
In x (y ∷ ys) = (y ≡ x) ⊎ In x ys

abbrev pub All : {A : Type 0} → (A → Type 0) → List A → Type 0
All P [] = Unit
All P (x ∷ xs) = P x × All P xs

module _ {A : Type 0} where
  pub All-In : (P : A → Type 0) (x : A) (xs : List A) → All P xs → In x xs → P x
  All-In P x (y ∷ ys) (h, hs) (inl e) = rw (← e) h
  All-In P x (y ∷ ys) (h, hs) (inr i) = All-In P x ys hs i
  All-In P x [] h i = absurd i

  pub any_sound : (p : A → Bool) (xs : List A) → any p xs ≡ true → (x : A) × In x xs × (p x ≡ true)
  any_sound p [] h = cc
  any_sound p (x ∷ xs) h = elim (Bool-cases (p x)) [
    | inl e ↦ (x, inl refl, e)
    | inr e ↦ let (y, i, q) = any_sound p xs (ground arith) in (y, inr i, q)
  ]

  pub any_complete : (p : A → Bool) (x : A) (xs : List A) → In x xs → p x ≡ true → any p xs ≡ true
  any_complete p x [] i h = absurd i
  any_complete p x (y ∷ ys) (inl e) h = ground arith
  any_complete p x (y ∷ ys) (inr i) h = ground (arith, any_complete p x ys i h)

  pub In-append_left : (x : A) (xs ys : List A) → In x xs → In x (xs ++ ys)
  In-append_left x (y ∷ xs) ys (inl e) = inl e
  In-append_left x (y ∷ xs) ys (inr i) = inr (In-append_left x xs ys i)
  In-append_left x [] ys i = absurd i

  pub In-append_last : (x : A) (xs : List A) → In x (xs ++ x ∷ [])
  In-append_last x [] = inl refl
  In-append_last x (y ∷ xs) = inr (In-append_last x xs)

  pub In-append : (x y : A) (xs : List A) → In x (xs ++ y ∷ []) → In x xs ⊎ (y ≡ x)
  In-append x y [] (inl e) = inr e
  In-append x y [] (inr i) = absurd i
  In-append x y (z ∷ xs) (inl e) = inl (inl e)
  In-append x y (z ∷ xs) (inr i) = elim (In-append x y xs i) [ inl j ↦ inl (inr j) | inr e ↦ inr e ]

-- `for _, m := range xs { if m == x { … } }`
abbrev pub contains : String → List String → Bool
contains x [] = false
contains x (y ∷ ys) = (y == x) || contains x ys

-- `xs = append(xs[:i], xs[i+1:]...)` at the first `i` with `xs[i] == x`
unfoldable pub remove_first : String → List String → List String
remove_first x [] = []
remove_first x (y ∷ ys) = if y == x then ys else y ∷ remove_first x ys

pub contains-In : (x : String) (xs : List String) → contains x xs ≡ true → In x xs
contains-In x [] h = cc
contains-In x (y ∷ ys) h = elim (Bool-cases (y == x)) [
  | inl e ↦ inl ((eq_iff y x).0 e)
  | inr e ↦ inr (contains-In x ys (ground arith))
]

pub In-contains : (x : String) (xs : List String) → In x xs → contains x xs ≡ true
In-contains x [] i = absurd i
In-contains x (y ∷ ys) (inl e) = ground (arith, eq_iff y x)
In-contains x (y ∷ ys) (inr i) = ground (arith, In-contains x ys i)

pub remove_first-append_last :
    (x : String) (xs : List String) → contains x xs ≡ false → remove_first x (xs ++ x ∷ []) ≡ xs
unfolding remove_first
remove_first-append_last x [] h = ground (arith, eq_iff x x)
remove_first-append_last x (y ∷ ys) h = ground (arith, remove_first-append_last x ys)

pub In-remove_first_ne :
    (x y : String) (xs : List String) → x ≢ y → In y xs → In y (remove_first x xs)
unfolding remove_first
In-remove_first_ne x y [] h i = i
In-remove_first_ne x y (z ∷ zs) h (inl e) = ground (arith, eq_iff z x)
In-remove_first_ne x y (z ∷ zs) h (inr i) = ground (arith, In-remove_first_ne x y zs h i)

pub In-of-remove_first : (x y : String) (xs : List String) → In y (remove_first x xs) → In y xs
unfolding remove_first
In-of-remove_first x y [] i = i
In-of-remove_first x y (z ∷ zs) i = elim (Bool-cases (z == x)) [
  | inl e ↦ inr (rw (e, remove_first) at i)
  | inr e ↦ elim (rw (e, remove_first) at i) as (λ _. In y (z ∷ zs)) [
    | inl p ↦ inl p
    | inr j ↦ inr (In-of-remove_first x y zs j)
  ]
]

-- No text stands twice in the list.
abbrev pub Distinct : List String → Type 0
Distinct [] = Unit
Distinct (x ∷ xs) = (¬ In x xs) × Distinct xs

pub not-In-remove_first : (x : String) (xs : List String) → Distinct xs → ¬ In x (remove_first x xs)
unfolding remove_first
not-In-remove_first x [] d = λ i. i
not-In-remove_first x (y ∷ ys) (n, d) = elim (Bool-cases (y == x)) [
  | inl e ↦ rw e (rw ((eq_iff y x).0 e) at n)
  | inr e ↦
      rw e
        (λ i. elim i [ inl p ↦ ground (arith, eq_iff y x) | inr j ↦ not-In-remove_first x ys d j ])
]

pub Distinct-append_last :
    (x : String) (xs : List String) → contains x xs ≡ false → Distinct xs → Distinct (xs ++ x ∷ [])
Distinct-append_last x [] h d = (λ i. i, tt)
Distinct-append_last x (y ∷ ys) h (n, d) = (
  λ i. elim (In-append y x ys i) [ inl j ↦ n j | inr e ↦ ground (arith, eq_iff y x) ],
  Distinct-append_last x ys (ground arith) d,
)

pub Distinct-remove_first :
    (x : String) (xs : List String) → Distinct xs → Distinct (remove_first x xs)
unfolding remove_first
Distinct-remove_first x [] d = tt
Distinct-remove_first x (y ∷ ys) (n, d) = elim (Bool-cases (y == x)) [
  | inl e ↦ rw e d
  | inr e ↦ rw e (λ i. n (In-of-remove_first x y ys i), Distinct-remove_first x ys d)
]
