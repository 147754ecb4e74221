-- ===== src/Prelude/Maps.antt =====
-- Go's `map[string]V` as an association list. A write to a present key keeps its place and one to
-- a new key goes to the end; the order that a `range` loop sees is the list's, and since Go fixes
-- no order, the theorems are about every list.
use Prim.Native.Nat.{◌+◌, ◌≤◌}
use Prim.Native.String.{String}
use mathlib.Core.Path.{◌≡◌, refl}
use mathlib.Core.Logic.{inl, inr}
use mathlib.Core.Bool.{Bool}
use mathlib.Core.List.{List, [], ◌∷◌, ◌++◌}
use mathlib.Core.Option.{Option, none, some}
use native.Mathlib.Omega.{arith}
use text.Mathlib.Text.{◌==◌}
use text.Mathlib.TextEquality.{eq_iff}
use suse_ai_up.Prelude.Tests.{if◌then◌else◌, Bool-cases, String-cases}
use suse_ai_up.Prelude.Lists.{length, In}

abbrev pub Map {ℓ} : Type ℓ → Type ℓ
Map V = List (String × V)

module _ {ℓ} {V : Type ℓ} where
  -- `v, exists := m[k]`
  unfoldable pub lookup : String → Map V → Option V
  lookup key [] = none
  lookup key ((own, value) ∷ rest) = if own == key then some value else lookup key rest

  -- `m[k] = v`
  unfoldable pub insert : String → V → Map V → Map V
  insert key new [] = (key, new) ∷ []
  insert key new ((own, value) ∷ rest) =
      if own == key then (key, new) ∷ rest else (own, value) ∷ insert key new rest

  -- `delete(m, k)`
  unfoldable pub delete : String → Map V → Map V
  delete k [] = []
  delete k ((j, w) ∷ m) = if j == k then delete k m else (j, w) ∷ delete k m

  -- `for k, v := range m { if p(v) { delete(m, k) } }`, and the loops that collect keys first
  unfoldable pub delete_where : (String → V → Bool) → Map V → Map V
  delete_where p [] = []
  delete_where p ((j, w) ∷ m) = if p j w then delete_where p m else (j, w) ∷ delete_where p m

  -- `for _, v := range m { … }`
  unfoldable pub values : Map V → List V
  values [] = []
  values ((j, w) ∷ m) = w ∷ values m

  pub lookup-insert :
      (key asked : String) (new : V) (m : Map V)
      → lookup asked (insert key new m) ≡ (if key == asked then some new else lookup asked m)
  unfolding insert lookup
  lookup-insert key asked new ((own, value) ∷ rest) =
      ground (
        arith,
        lookup-insert key asked new rest,
        eq_iff own asked,
        eq_iff own key,
        eq_iff key asked,
      )
  lookup-insert key asked new [] = refl

  pub lookup-delete :
      (k j : String) (m : Map V) → lookup j (delete k m) ≡ (if k == j then none else lookup j m)
  unfolding lookup delete
  lookup-delete k j [] = ground arith
  lookup-delete k j ((i, w) ∷ m) =
      ground (arith, eq_iff k j, eq_iff i k, eq_iff i j, lookup-delete k j m)

  pub insert_new :
      (k : String) (v : V) (m : Map V) → lookup k m ≡ none → insert k v m ≡ m ++ (k, v) ∷ []
  unfolding lookup insert
  insert_new k v [] h = refl
  insert_new k v ((j, w) ∷ m) h = ground (arith, insert_new k v m)

  pub length-insert-le : (k : String) (v : V) (m : Map V) → length (insert k v m) ≤ length m + 1
  unfolding insert
  length-insert-le k v [] = omega arith
  length-insert-le k v ((j, w) ∷ m) = ground (arith, length-insert-le k v m)

  pub length-insert_new :
      (k : String) (v : V) (m : Map V) → lookup k m ≡ none → length (insert k v m) ≡ length m + 1
  unfolding lookup insert
  length-insert_new k v [] h = omega arith
  length-insert_new k v ((j, w) ∷ m) h = ground (arith, length-insert_new k v m)

  pub length-insert_old :
      (k : String) (v w : V) (m : Map V) → lookup k m ≡ some w → length (insert k v m) ≡ length m
  unfolding lookup insert
  length-insert_old k v w [] h = cc
  length-insert_old k v w ((j, x) ∷ m) h = ground (arith, length-insert_old k v w m)

  pub length-delete_where-le :
      (p : String → V → Bool) (m : Map V) → length (delete_where p m) ≤ length m
  unfolding delete_where
  length-delete_where-le p [] = omega arith
  length-delete_where-le p ((j, w) ∷ m) = ground (arith, length-delete_where-le p m)

  pub length-delete-le : (k : String) (m : Map V) → length (delete k m) ≤ length m
  unfolding delete
  length-delete-le k [] = omega arith
  length-delete-le k ((j, w) ∷ m) = ground (arith, length-delete-le k m)

  -- A key that is present leaves with at least one entry.
  pub length-delete-lt :
      (k : String) (v : V) (m : Map V) → lookup k m ≡ some v → length (delete k m) + 1 ≤ length m
  unfolding lookup delete
  length-delete-lt k v [] h = cc
  length-delete-lt k v ((j, w) ∷ m) h = ground (arith, length-delete-lt k v m, length-delete-le k m)

  -- A key is listed once; what every Go map satisfies.
  abbrev pub IsMap : Map V → Type ℓ
  IsMap [] = Unit
  IsMap ((j, w) ∷ m) = (lookup j m ≡ none) × IsMap m

  pub insert-IsMap : (k : String) (v : V) (m : Map V) → IsMap m → IsMap (insert k v m)
  unfolding lookup insert
  insert-IsMap k v [] h = (refl, tt)
  insert-IsMap k v ((j, w) ∷ m) (n, h) = elim (Bool-cases (j == k)) [
    | inl e ↦ rw e (rw ((eq_iff j k).0 e) at n, h)
    | inr e ↦
        rw e (ground (arith, lookup-insert k j v m, eq_iff k j, eq_iff j k), insert-IsMap k v m h)
  ]

  pub delete-IsMap : (k : String) (m : Map V) → IsMap m → IsMap (delete k m)
  unfolding delete
  delete-IsMap k [] h = tt
  delete-IsMap k ((j, w) ∷ m) (n, h) = elim (Bool-cases (j == k)) [
    | inl e ↦ rw e (delete-IsMap k m h)
    | inr e ↦ rw e (ground (arith, lookup-delete k j m), delete-IsMap k m h)
  ]

  -- On a map with distinct keys a filtered deletion is read off at each key.
  pub lookup-delete_where :
      (p : String → V → Bool) (j : String) (m : Map V)
      → IsMap m
      → lookup j (delete_where p m)
        ≡ elim (lookup j m) [ none ↦ none | some v ↦ if p j v then none else some v ]
  unfolding lookup delete_where
  lookup-delete_where p j [] h = refl
  lookup-delete_where p j ((i, w) ∷ m) (n, h) = elim (String-cases i j) [
    | inl e ↦ rw (← e) (ground (arith, lookup-delete_where p i m h, eq_iff i i))
    | inr (ne, e) ↦ ground (arith, lookup-delete_where p j m h)
  ]

  pub lookup-delete_where-none :
      (p : String → V → Bool) (j : String) (m : Map V)
      → lookup j m ≡ none
      → lookup j (delete_where p m) ≡ none
  unfolding lookup delete_where
  lookup-delete_where-none p j [] h = refl
  lookup-delete_where-none p j ((i, w) ∷ m) h = ground (arith, lookup-delete_where-none p j m)

  pub delete_where-IsMap : (p : String → V → Bool) (m : Map V) → IsMap m → IsMap (delete_where p m)
  unfolding delete_where
  delete_where-IsMap p [] h = tt
  delete_where-IsMap p ((j, w) ∷ m) (n, h) = elim (Bool-cases (p j w)) [
    | inl e ↦ rw e (delete_where-IsMap p m h)
    | inr e ↦ rw e (lookup-delete_where-none p j m n, delete_where-IsMap p m h)
  ]

-- What a `range` loop over the values meets is what the map holds.
module _ {V : Type 0} where
  pub In-values_of-lookup : (k : String) (v : V) (m : Map V) → lookup k m ≡ some v → In v (values m)
  unfolding lookup values
  In-values_of-lookup k v [] h = cc
  In-values_of-lookup k v ((j, w) ∷ m) h = elim (Bool-cases (j == k)) [
    | inl e ↦ inl (ground arith)
    | inr e ↦ inr (In-values_of-lookup k v m (ground arith))
  ]

  pub lookup_of-In-values :
      (v : V) (m : Map V) → IsMap m → In v (values m) → (k : String) × (lookup k m ≡ some v)
  unfolding lookup values
  lookup_of-In-values v [] h i = absurd i
  lookup_of-In-values v ((j, w) ∷ m) (n, h) (inl e) = (j, ground (arith, eq_iff j j))
  lookup_of-In-values v ((j, w) ∷ m) (n, h) (inr i) =
      let (k, found) = lookup_of-In-values v m h i in
      (k, elim (Bool-cases (j == k)) [ inl e ↦ ground (arith, eq_iff j k) | inr e ↦ ground arith ])
