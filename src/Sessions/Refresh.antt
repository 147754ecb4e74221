-- ===== src/Sessions/Refresh.antt =====
-- `RefreshToken` of pkg/session/store.go, and the sessions that hold the same token pointer.
use suse_ai_up.Prelude.{
  String, ℕ, Bool, false, ◌+◌, ◌==◌, ◌≡◌, ◌||◌, Option, none, some, if◌then◌else◌, lookup,
  lookup-insert, Option-cases, inl, inr, arith, eq_iff, ltb, nat_eq,
}
use suse_ai_up.Sessions.{SessionDetails, Store}
use suse_ai_up.Sessions.Tokens.{buffer, is_token_valid, refresh_token}
use suse_ai_up.Sessions.Invariant.{IsValid}

abbrev pub same_pointer : Option ℕ → Option ℕ → Bool
same_pointer (some p) (some q) = nat_eq p q
same_pointer _ _ = false

-- The pointer that the store holds for an ID.
abbrev pub pointer : {C : Type 0} → String → Store C → Option ℕ
pointer id s = elim (lookup id s.sessions) [ none ↦ none | some d ↦ d.token_info ]

module _ {C : Type 0} (now : ℕ) (id access : String) (expires : ℕ) (s : Store C)
    (d : SessionDetails C) (found : lookup id s.sessions ≡ some d) where
  -- The session had a token: it is written in place, and seen through every equal pointer.
  refresh_in_place :
      (p later : ℕ) (j : String)
      → d.token_info ≡ some p
      → is_token_valid later j (refresh_token now id access expires s).0 ≡ (
          if same_pointer (some p) (pointer j s)
          then ltb (later + buffer) expires
          else is_token_valid later j s)
  unfolding is_token_valid refresh_token
  refresh_in_place p later j q = ground (arith, lookup-insert id j d s.sessions, eq_iff id j)

  -- The session had none: a new token is made, which no other session can hold.
  refresh_new :
      (later : ℕ) (j : String)
      → IsValid s
      → d.token_info ≡ none
      → is_token_valid later j (refresh_token now id access expires s).0
        ≡ (if id == j then ltb (later + buffer) expires else is_token_valid later j s)
  unfolding is_token_valid refresh_token
  refresh_new later j v q = elim (Option-cases (lookup j s.sessions)) [
    | inl e ↦
        ground (
          arith,
          lookup-insert id j (record d { token_info = some s.next }) s.sessions,
          eq_iff id j,
        )
    | inr (d', e) ↦ elim (Option-cases d'.token_info) [
      | inl r ↦ ground (
        arith,
        lookup-insert id j (record d { token_info = some s.next }) s.sessions,
        eq_iff id j,
      )
      | inr (p, r) ↦ ground (
        arith,
        lookup-insert id j (record d { token_info = some s.next }) s.sessions,
        eq_iff id j,
        (v.filed j d' e).allocated p r,
      )
    ]
  ]

  -- In a valid store that has the named session: after `RefreshToken`, a session's token is valid
  -- until the new expiry (less the buffer of five minutes) if it is the named session or holds the
  -- same pointer, and otherwise exactly when it was valid before.
  pub is_token_valid-refresh_token :
      (later : ℕ) (j : String)
      → IsValid s
      → is_token_valid later j (refresh_token now id access expires s).0 ≡ (
          if (id == j) || same_pointer (pointer id s) (pointer j s)
          then ltb (later + buffer) expires
          else is_token_valid later j s)
  is_token_valid-refresh_token later j v = elim (Option-cases d.token_info) [
    | inl q ↦ ground (arith, refresh_new later j v q)
    | inr (p, q) ↦ ground (arith, refresh_in_place p later j q, eq_iff id j)
  ]
