-- ===== src/Access/Linked.antt =====
-- Membership in `UserGroupService` of pkg/services/user_group.go, for the lists alone: when a user
-- lists a group exactly if the group lists the user, and how a change of both lists keeps that.
use suse_ai_up.Prelude.{
  String, false, List, [], ◌∷◌, ◌++◌, Option, none, some, ◌≡◌, ◌≢◌, ◌==◌, ◌↔◌, ◌⊎◌, if◌then◌else◌,
  contains, In-contains, In, In-append, In-append_left, In-append_last, remove_first,
  In-remove_first_ne, In-of-remove_first, Distinct, not-In-remove_first, Distinct-append_last,
  Distinct-remove_first, String-cases, inl, inr, eq_iff, arith, sym,
}
use mathlib.Core.Path.{subst}
use suse_ai_up.Users.{User, Group, Result, ok, err}

-- The lists alone, for what the stores show of a user and of a group.
abbrev pub groups_of : Result User → Option (List String)
groups_of (ok user) = some user.groups
groups_of (err _) = none

abbrev pub members_of : Result Group → Option (List String)
members_of (ok group) = some group.members
members_of (err _) = none

-- The two families of lists, as functions of the IDs.
pub record AreLinked (groups members : String → Option (List String)) : Type 0 where
  pub linked :
      (uid gid : String) (gs us : List String)
      → groups uid ≡ some gs
      → members gid ≡ some us
      → In gid gs ↔ In uid us
  pub distinct_groups : (uid : String) (gs : List String) → groups uid ≡ some gs → Distinct gs
  pub distinct_members : (gid : String) (us : List String) → members gid ≡ some us → Distinct us

-- One entry of a family of lists is replaced.
abbrev pub put :
    String → List String → (String → Option (List String)) → String → Option (List String)
put k v f j = if k == j then some v else f j

put_cases :
    (k j : String) (v w : List String) (f : String → Option (List String))
    → put k v f j ≡ some w
    → ((k ≡ j) × (v ≡ w)) ⊎ ((k ≢ j) × (f j ≡ some w))
put_cases k j v w f e = elim (String-cases k j) [
  | inl same ↦ inl (same, ground (arith, eq_iff k j))
  | inr (other, p) ↦ inr (other, ground arith)
]

-- The lists of one user and of one group change together.
pub record Relinks (uid gid : String) (gl ul gl' ul' : List String) : Type 0 where
  pub both : In gid gl' ↔ In uid ul'
  pub other_groups : (x : String) → gid ≢ x → In x gl' ↔ In x gl
  pub other_members : (x : String) → uid ≢ x → In x ul' ↔ In x ul
  pub distinct_gl : Distinct gl'
  pub distinct_ul : Distinct ul'

module _ (groups members : String → Option (List String)) (h : AreLinked groups members)
    (uid gid : String) (gl ul gl' ul' : List String) (hg : groups uid ≡ some gl)
    (hm : members gid ≡ some ul) (r : Relinks uid gid gl ul gl' ul') where
  relink-linked :
      (u g : String) (gs us : List String)
      → put uid gl' groups u ≡ some gs
      → put gid ul' members g ≡ some us
      → In g gs ↔ In u us
  relink-linked u g gs us eu em = elim (put_cases uid u gl' gs groups eu) [
    | inl (su, lu) ↦ elim (put_cases gid g ul' us members em) [
      | inl (sg, lg) ↦ rw (← su, ← lu, ← sg, ← lg) r.both
      | inr (og, fg) ↦
          let old = h.linked uid g gl us hg fg in
          let near = r.other_groups g og in
          rw (← su, ← lu) (λ i. old.0 (near.0 i), λ i. near.1 (old.1 i))
    ]
    | inr (ou, fu) ↦ elim (put_cases gid g ul' us members em) [
      | inl (sg, lg) ↦
          let old = h.linked u gid gs ul fu hm in
          let near = r.other_members u ou in
          rw (← sg, ← lg) (λ i. near.1 (old.0 i), λ i. old.1 (near.0 i))
      | inr (og, fg) ↦ h.linked u g gs us fu fg
    ]
  ]

  pub relink-AreLinked : AreLinked (put uid gl' groups) (put gid ul' members)
  relink-AreLinked = record {
    linked = relink-linked;
    distinct_groups = λ k gs e. elim (put_cases uid k gl' gs groups e) [
      | inl (_, p) ↦ rw (← p) r.distinct_gl
      | inr (_, p) ↦ h.distinct_groups k gs p
    ];
    distinct_members = λ k us e. elim (put_cases gid k ul' us members e) [
      | inl (_, p) ↦ rw (← p) r.distinct_ul
      | inr (_, p) ↦ h.distinct_members k us p
    ];
  }

In-append_ne : (x y : String) (xs : List String) → y ≢ x → In x (xs ++ y ∷ []) ↔ In x xs
In-append_ne x y xs n = (
  λ i. elim (In-append x y xs i) [ inl j ↦ j | inr e ↦ absurd (n e) ],
  In-append_left x xs (y ∷ []),
)

not-contains : (x : String) (xs : List String) → contains x xs ≡ false → ¬ In x xs
not-contains x xs e i = let yes_in = In-contains x xs i in cc

module _ (uid gid : String) (gl ul : List String) (dg : Distinct gl) (du : Distinct ul) where
  pub link-Relinks :
      contains gid gl ≡ false
      → contains uid ul ≡ false
      → Relinks uid gid gl ul (gl ++ gid ∷ []) (ul ++ uid ∷ [])
  link-Relinks ng nu = record {
    both = (λ _. In-append_last uid ul, λ _. In-append_last gid gl);
    other_groups = λ x n. In-append_ne x gid gl n;
    other_members = λ x n. In-append_ne x uid ul n;
    distinct_gl = Distinct-append_last gid gl ng dg;
    distinct_ul = Distinct-append_last uid ul nu du;
  }

  pub unlink-Relinks : Relinks uid gid gl ul (remove_first gid gl) (remove_first uid ul)
  unlink-Relinks = record {
    both = (
      λ i. absurd (not-In-remove_first gid gl dg i),
      λ i. absurd (not-In-remove_first uid ul du i),
    );
    other_groups = λ x n. (In-of-remove_first gid x gl, In-remove_first_ne gid x gl n);
    other_members = λ x n. (In-of-remove_first uid x ul, In-remove_first_ne uid x ul n);
    distinct_gl = Distinct-remove_first gid gl dg;
    distinct_ul = Distinct-remove_first uid ul du;
  }

-- A member that is no user may leave.
pub unlink_missing :
    (groups members : String → Option (List String)) (uid gid : String) (ul : List String)
    → AreLinked groups members
    → groups uid ≡ none
    → members gid ≡ some ul
    → AreLinked groups (put gid (remove_first uid ul) members)
unlink_missing groups members uid gid ul h missing hm = record {
  linked = λ u g gs us eu em. elim (put_cases gid g (remove_first uid ul) us members em) [
    | inr (og, fg) ↦ h.linked u g gs us eu fg
    | inl (sg, lg) ↦
        let n : uid ≢ u = λ e. ground (arith, subst (λ x. groups x ≡ some gs) (sym e) eu) in
        let old = h.linked u gid gs ul eu hm in
        rw (← sg, ← lg)
          (λ i. In-remove_first_ne uid u ul n (old.0 i), λ i. old.1 (In-of-remove_first uid u ul i))
  ];
  distinct_groups = h.distinct_groups;
  distinct_members = λ k us e. elim (put_cases gid k (remove_first uid ul) us members e) [
    | inl (_, p) ↦ rw (← p) (Distinct-remove_first uid ul (h.distinct_members gid ul hm))
    | inr (_, p) ↦ h.distinct_members k us p
  ];
}
