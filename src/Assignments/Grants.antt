-- ===== src/Assignments/Grants.antt =====
-- Who has access after an assignment is made or removed
-- (pkg/clients/adapter_group_assignment_store.go), and what the key `adapter:group` costs.
use Prim.Native.String.{◌++◌}
use text.Mathlib.TextLemmas.{append_assoc, nil-append, cons-append}
use suse_ai_up.Prelude.{
  String, Bool, false, ◌==◌, ◌&&◌, none, ◌≡◌, refl, sym, ap, ap₂, ◌∙◌, if◌then◌else◌, Map, lookup,
  insert, delete, lookup-insert, lookup-delete, Bool-cases, Option-cases, String-cases, inl, inr,
  arith, eq_iff, Lacks, split_on, split_on_two_complete,
}
use suse_ai_up.Assignments.{
  Assignment, generate_assignment_id, create_assignment, delete_assignment, has_access,
}

-- An identifier without the separator of the keys.
abbrev pub Plain : String → Type 0
Plain s = Lacks ":" s

generate_assignment_id_injective :
    (a g b h : String)
    → Plain a
    → Plain g
    → Plain b
    → Plain h
    → generate_assignment_id a g ≡ generate_assignment_id b h
    → (a ≡ b) × (g ≡ h)
unfolding generate_assignment_id
generate_assignment_id_injective a g b h pa pg pb ph e =
    let cut = λ (y : String). cons-append ":" "" y ∙ ap (String.◌∷◌ ":") (nil-append y) in
    let same = ap (λ y. a ++ y) (sym (cut g)) ∙ e ∙ ap (λ y. b ++ y) (cut h) in
    let parts =
      sym (split_on_two_complete ":" a g pa pg)
      ∙ ap (split_on ":") same
      ∙ split_on_two_complete ":" b h pb ph in
    (cc, cc)

-- An assignment is for this adapter and this group.
abbrev pub is_for : Assignment → (adapter_id group_id : String) → Bool
is_for x adapter_id group_id = x.adapter_id == adapter_id && x.group_id == group_id

pub ids-eq :
    (a g b h : String)
    → Plain a
    → Plain g
    → Plain b
    → Plain h
    → (generate_assignment_id a g == generate_assignment_id b h) ≡ (a == b && g == h)
ids-eq a g b h pa pg pb ph =
    elim (String-cases (generate_assignment_id a g) (generate_assignment_id b h)) [
      | inl e ↦
          let (p, q) = generate_assignment_id_injective a g b h pa pg pb ph e in
          ground (
            arith,
            p,
            q,
            eq_iff a b,
            eq_iff g h,
            eq_iff (generate_assignment_id a g) (generate_assignment_id b h),
          )
      | inr (n, e) ↦ elim (Bool-cases (a == b && g == h)) [
        | inl i ↦ absurd (
            n (
              ap₂ generate_assignment_id ((eq_iff a b).0 (ground arith))
                ((eq_iff g h).0 (ground arith))))
        | inr i ↦ rw (e, i) refl
      ]
    ]

pub create_assignment-insert :
    (x : Assignment) (s : Map Assignment)
    → (create_assignment x s).1 ≡ none
    → (create_assignment x s).0 ≡ insert (generate_assignment_id x.adapter_id x.group_id) x s
unfolding create_assignment
create_assignment-insert x s e =
    elim (Option-cases (lookup (generate_assignment_id x.adapter_id x.group_id) s)) [
      | inl n ↦ rw (create_assignment, n) refl
      | inr (v, n) ↦ ground arith
    ]

has_access-insert :
    (x : Assignment) (k b h : String) (s : Map Assignment)
    → has_access b h (insert k x s)
      ≡ (if k == generate_assignment_id b h then x.permission == "read" else has_access b h s)
unfolding has_access
has_access-insert x k b h s = elim (Bool-cases (k == generate_assignment_id b h)) [
  | inl e ↦ rw (has_access, lookup-insert k (generate_assignment_id b h) x s, e) refl
  | inr e ↦ rw (has_access, lookup-insert k (generate_assignment_id b h) x s, e) refl
]

has_access-delete :
    (k b h : String) (s : Map Assignment)
    → has_access b h (delete k s)
      ≡ (if k == generate_assignment_id b h then false else has_access b h s)
unfolding has_access
has_access-delete k b h s = elim (Bool-cases (k == generate_assignment_id b h)) [
  | inl e ↦ rw (has_access, lookup-delete k (generate_assignment_id b h) s, e) refl
  | inr e ↦ rw (has_access, lookup-delete k (generate_assignment_id b h) s, e) refl
]

has_access-missing :
    (a g : String) (s : Map Assignment)
    → lookup (generate_assignment_id a g) s ≡ none
    → has_access a g s ≡ false
unfolding has_access
has_access-missing a g s n = ground arith

-- With identifiers that have no ":", a successful `CreateAssignment` gives its group access to its
-- adapter exactly when its permission is "read", and no other answer of `HasAccess` changes.
pub has_access-create_assignment :
    (x : Assignment) (b h : String) (s : Map Assignment)
    → Plain x.adapter_id
    → Plain x.group_id
    → Plain b
    → Plain h
    → (create_assignment x s).1 ≡ none
    → has_access b h (create_assignment x s).0
      ≡ (if is_for x b h then x.permission == "read" else has_access b h s)
has_access-create_assignment x b h s pa pg pb ph e =
    ap (has_access b h) (create_assignment-insert x s e)
    ∙ has_access-insert x _ b h s
    ∙ ap (λ t. if t then x.permission == "read" else has_access b h s)
        (ids-eq x.adapter_id x.group_id b h pa pg pb ph)

-- The keys of two different pairs are equal when an identifier has a ":": an assignment of adapter
-- `a ++ ":" ++ b` and group `c` answers for adapter `a` and group `b ++ ":" ++ c`, which gets
-- access when the permission is "read".
pub has_access-shared_key :
    (x : Assignment) (a b c : String) (s : Map Assignment)
    → x.adapter_id ≡ a ++ (":" ++ b)
    → x.group_id ≡ c
    → (create_assignment x s).1 ≡ none
    → has_access a (b ++ (":" ++ c)) (create_assignment x s).0 ≡ (x.permission == "read")
unfolding generate_assignment_id
has_access-shared_key x a b c s ha hc e =
    let same : generate_assignment_id x.adapter_id x.group_id
        ≡ generate_assignment_id a (b ++ (":" ++ c)) =
      rw (ha, hc, append_assoc, append_assoc) refl in
    ap (has_access a (b ++ (":" ++ c))) (create_assignment-insert x s e)
    ∙ has_access-insert x _ a (b ++ (":" ++ c)) s
    ∙ ap (λ t. if t then x.permission == "read" else has_access a (b ++ (":" ++ c)) s)
        ((eq_iff _ _).1 same)

-- With identifiers that have no ":", `DeleteAssignment` takes the access of that group to that
-- adapter away, whether or not there was such an assignment, and changes no other answer of
-- `HasAccess`.
pub has_access-delete_assignment :
    (a g b h : String) (s : Map Assignment)
    → Plain a
    → Plain g
    → Plain b
    → Plain h
    → has_access b h (delete_assignment a g s).0
      ≡ (if a == b && g == h then false else has_access b h s)
unfolding delete_assignment
has_access-delete_assignment a g b h s pa pg pb ph =
    elim (Option-cases (lookup (generate_assignment_id a g) s)) [
      | inl n ↦ elim (Bool-cases (a == b && g == h)) [
        | inl e ↦
            let same_adapter : a ≡ b = (eq_iff a b).0 (ground arith) in
            let same_group : g ≡ h = (eq_iff g h).0 (ground arith) in
            rw (delete_assignment, n, e, ← same_adapter, ← same_group) (has_access-missing a g s n)
        | inr e ↦ rw (delete_assignment, n, e) refl
      ]
      | inr (v, n) ↦ rw (delete_assignment, n, has_access-delete, ids-eq a g b h pa pg pb ph) refl
    ]
