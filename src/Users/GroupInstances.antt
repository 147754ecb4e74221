-- ===== src/Users/GroupInstances.antt =====
-- `InMemoryGroupStore` of pkg/clients/user_group_store.go as an instance of `GroupStore`.
use suse_ai_up.Prelude.{
  String, ℕ, true, false, [], ◌∷◌, ◌++◌, none, some, ◌≡◌, ◌==◌, if◌then◌else◌, contains,
  remove_first, Map, lookup, insert, lookup-insert, arith, refl, Bool-cases, Option-cases, inl, inr,
  eq_iff,
}
use suse_ai_up.Users.{Group, Error, ok}
use suse_ai_up.Users.Api.{GroupStore}
use suse_ai_up.Users.Laws.{GroupLaws}
use suse_ai_up.Users.Instances.{Clock, AllFiled}
use suse_ai_up.Users.Groups

abbrev pub memory_groups : GroupStore
memory_groups = record {
  State = Map Group;
  Call = Clock;
  create = λ c. Groups.create c.first c.second;
  get = Groups.get;
  list = Groups.list;
  update = λ c. Groups.update c.first;
  delete_group = λ _. Groups.delete_group;
  add_member = λ c. Groups.add_member c.first;
  remove_member = λ c. Groups.remove_member c.first;
}

abbrev FiledGroups : Map Group → Type 0
FiledGroups = AllFiled Group (λ g. g.id)

get-ok : (s : Map Group) (id : String) (g : Group) → Groups.get id s ≡ ok g → lookup id s ≡ some g
unfolding Groups.get
get-ok s id g h = ground arith

add_member_fails :
    (now : ℕ) (id user : String) (s : Map Group) (e : Error)
    → (Groups.add_member now id user s).1 ≡ some e
    → (Groups.add_member now id user s).0 ≡ s
unfolding Groups.add_member
add_member_fails now id user s e h = ground arith

remove_member_fails :
    (now : ℕ) (id user : String) (s : Map Group) (e : Error)
    → (Groups.remove_member now id user s).1 ≡ some e
    → (Groups.remove_member now id user s).0 ≡ s
unfolding Groups.remove_member
remove_member_fails now id user s e h = ground arith

add_member_was :
    (now : ℕ) (id user : String) (s : Map Group)
    → (Groups.add_member now id user s).1 ≡ none
    → (g : Group) × (Groups.get id s ≡ ok g) × (contains user g.members ≡ false)
unfolding Groups.add_member Groups.get
add_member_was now id user s h = elim (Option-cases (lookup id s)) [
  | inl e ↦ ground arith
  | inr (g, e) ↦ (g, ground arith, ground arith)
]

remove_member_was :
    (now : ℕ) (id user : String) (s : Map Group)
    → (Groups.remove_member now id user s).1 ≡ none
    → (g : Group) × (Groups.get id s ≡ ok g) × (contains user g.members ≡ true)
unfolding Groups.remove_member Groups.get
remove_member_was now id user s h = elim (Option-cases (lookup id s)) [
  | inl e ↦ ground arith
  | inr (g, e) ↦ (g, ground arith, ground arith)
]

module _ (now : ℕ) (id user : String) (s : Map Group) (g : Group) where
  abbrev added : Group
  added = record g { members = g.members ++ user ∷ []; updated_at = now }

  abbrev removed : Group
  removed = record g { members = remove_first user g.members; updated_at = now }

  get-add_member :
      Groups.get id s ≡ ok g
      → contains user g.members ≡ false
      → (j : String)
      → Groups.get j (Groups.add_member now id user s).0
        ≡ (if id == j then ok added else Groups.get j s)
  unfolding Groups.add_member Groups.get
  get-add_member h c j = ground (arith, lookup-insert id j added s)

  get-remove_member :
      Groups.get id s ≡ ok g
      → contains user g.members ≡ true
      → (j : String)
      → Groups.get j (Groups.remove_member now id user s).0
        ≡ (if id == j then ok removed else Groups.get j s)
  unfolding Groups.remove_member Groups.get
  get-remove_member h c j = ground (arith, lookup-insert id j removed s)

insert_member-filed :
    (s : Map Group) (id : String) (g h : Group)
    → FiledGroups s
    → lookup id s ≡ some g
    → h.id ≡ g.id
    → FiledGroups (insert id h s)
insert_member-filed s id g h filed found same k w e = elim (Bool-cases (id == k)) [
  | inl p ↦ ground (arith, lookup-insert id k h s, filed id g found, eq_iff id k)
  | inr p ↦ filed k w (ground (arith, lookup-insert id k h s))
]

add_member-filed :
    (now : ℕ) (id user : String) (s : Map Group)
    → FiledGroups s
    → FiledGroups (Groups.add_member now id user s).0
unfolding Groups.add_member
add_member-filed now id user s h = elim (Option-cases (lookup id s)) [
  | inl e ↦ rw (e, Groups.add_member) h
  | inr (g, e) ↦ elim (Bool-cases (contains user g.members)) [
    | inl c ↦ rw (e, Groups.add_member, c) h
    | inr c ↦
        rw (e, Groups.add_member, c) (insert_member-filed s id g (added now id user s g) h e refl)
  ]
]

remove_member-filed :
    (now : ℕ) (id user : String) (s : Map Group)
    → FiledGroups s
    → FiledGroups (Groups.remove_member now id user s).0
unfolding Groups.remove_member
remove_member-filed now id user s h = elim (Option-cases (lookup id s)) [
  | inl e ↦ rw (e, Groups.remove_member) h
  | inr (g, e) ↦ elim (Bool-cases (contains user g.members)) [
    | inr c ↦ rw (e, Groups.remove_member, c) h
    | inl c ↦
        rw (e, Groups.remove_member, c)
          (insert_member-filed s id g (removed now id user s g) h e refl)
  ]
]

pub memory_group_laws : GroupLaws memory_groups
memory_group_laws = record {
  IsFiled = FiledGroups;
  get_filed = λ s id g h e. h id g (get-ok s id g e);
  add_member_filed = λ c id user s h. add_member-filed c.first id user s h;
  remove_member_filed = λ c id user s h. remove_member-filed c.first id user s h;
  add_member_fails = λ c id user s e h. add_member_fails c.first id user s e h;
  add_member_was = λ c id user s h. add_member_was c.first id user s h;
  get-add_member = λ c id user s g h k. (c.first, get-add_member c.first id user s g h k);
  remove_member_fails = λ c id user s e h. remove_member_fails c.first id user s e h;
  remove_member_was = λ c id user s h. remove_member_was c.first id user s h;
  get-remove_member = λ c id user s g h k. (c.first, get-remove_member c.first id user s g h k);
}
