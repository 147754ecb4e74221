-- ===== src/Ports/Search.antt =====
-- The search for a free port (`AllocatePort` and `isPortUsed` of pkg/proxy/port_manager.go).
use suse_ai_up.Prelude.{
  ℕ, zero, suc, [], ◌+◌, ◌≤◌, ◌<◌, true, false, some, none, ◌≡◌, List, ◌∷◌, values, In, any_sound,
  any_complete, keep, length, not, nat_eq, nat_eq_iff, Bool-cases, inl, inr, arith,
}
use suse_ai_up.Ports.{PortManager, is_port_used, first_free}

pub used-In : (pm : PortManager) (p : ℕ) → is_port_used pm p ≡ true → In p (values pm.allocated)
unfolding is_port_used
used-In pm p h =
    let (q, i, e) = any_sound (λ q. nat_eq q p) (values pm.allocated) h in
    rw (← (nat_eq_iff q p).0 e) i

pub In-used : (pm : PortManager) (p : ℕ) → In p (values pm.allocated) → is_port_used pm p ≡ true
unfolding is_port_used
In-used pm p i = any_complete (λ q. nat_eq q p) p (values pm.allocated) i (ground arith)

pub first_free_sound :
    (pm : PortManager) (left p q : ℕ)
    → first_free pm left p ≡ some q
    → (p ≤ q) × (q < p + left) × (is_port_used pm q ≡ false)
unfolding first_free
first_free_sound pm zero p q h = cc
first_free_sound pm (suc left) p q h = elim (Bool-cases (is_port_used pm p)) [
  | inl e ↦ ground (arith, first_free_sound pm left (suc p) q)
  | inr e ↦ ground arith
]

pub first_free-none :
    (pm : PortManager) (left p q : ℕ)
    → first_free pm left p ≡ none
    → p ≤ q
    → q < p + left
    → is_port_used pm q ≡ true
unfolding first_free
first_free-none pm zero p q h a b = absurd (omega arith)
first_free-none pm (suc left) p q h a b = elim (Bool-cases (is_port_used pm p)) [
  | inl e ↦ elim (Bool-cases (nat_eq p q)) [
    | inl s ↦ rw (← (nat_eq_iff p q).0 s) e
    | inr s ↦ first_free-none pm left (suc p) q (ground arith) (ground arith) (omega arith)
  ]
  | inr e ↦ ground arith
]

others : ℕ → List ℕ → List ℕ
others p xs = keep (λ q. not (nat_eq q p)) xs

length-others-le : (p : ℕ) (xs : List ℕ) → length (others p xs) ≤ length xs
unfolding others
length-others-le p [] = omega arith
length-others-le p (x ∷ xs) = ground (arith, length-others-le p xs)

length-others : (p : ℕ) (xs : List ℕ) → In p xs → length (others p xs) < length xs
unfolding others
length-others p [] i = absurd i
length-others p (x ∷ xs) (inl e) = ground (arith, length-others-le p xs)
length-others p (x ∷ xs) (inr i) = ground (arith, length-others p xs i)

In-others : (p q : ℕ) (xs : List ℕ) → In q xs → p < q → In q (others p xs)
unfolding others
In-others p q [] i h = absurd i
In-others p q (x ∷ xs) (inl e) h = ground arith
In-others p q (x ∷ xs) (inr i) h = elim (Bool-cases (nat_eq x p)) [
  | inl e ↦ rw e (In-others p q xs i h)
  | inr e ↦ rw e (inr (In-others p q xs i h))
]

-- A list that has every number of a range is at least as long as the range.
pub range-length : (n p : ℕ) (xs : List ℕ) → ((q : ℕ) → p ≤ q → q < p + n → In q xs) → n ≤ length xs
range-length zero p xs h = omega arith
range-length (suc n) p xs h =
    let tail =
      range-length n (suc p) (others p xs)
        (λ q a b. In-others p q xs (h q (omega arith) (omega arith)) (omega arith)) in
    omega (arith, tail, length-others p xs (h p (omega arith) (omega arith)))
