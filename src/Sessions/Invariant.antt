-- ===== src/Sessions/Invariant.antt =====
-- The invariant of `InMemorySessionStore` (pkg/session/store.go), and its steps.
use mathlib.Core.Path.{subst₂}
use suse_ai_up.Prelude.{
  String, ℕ, Bool, ◌+◌, ◌<◌, ◌==◌, ◌≡◌, some, Map, lookup, insert, delete_where, lookup-insert,
  lookup-delete, lookup-delete_where, IsMap, insert-IsMap, delete-IsMap, delete_where-IsMap,
  Option-cases, Bool-cases, inl, inr, arith, refl, eq_iff,
}
use suse_ai_up.Sessions.{SessionDetails, Store, set_with_details, delete_session, change}
use suse_ai_up.Sessions.Tokens.{refresh_token}

module _ {C : Type 0} where
  -- A session stands under its own ID and points at a token that exists.
  pub record IsFiled (next : ℕ) (k : String) (d : SessionDetails C) : Type 0 where
    pub own_id : d.session_id ≡ k
    pub allocated : (p : ℕ) → d.token_info ≡ some p → p < next

  pub record IsValid (s : Store C) : Type 0 where
    pub map : IsMap s.sessions
    pub filed :
        (k : String) (d : SessionDetails C) → lookup k s.sessions ≡ some d → IsFiled s.next k d

  insert-filed :
      (next : ℕ) (k : String) (d : SessionDetails C) (m : Map (SessionDetails C))
      → IsFiled next k d
      → ((j : String) (e : SessionDetails C) → lookup j m ≡ some e → IsFiled next j e)
      → (j : String) (e : SessionDetails C) → lookup j (insert k d m) ≡ some e
      → IsFiled next j e
  insert-filed next k d m h hs j e found = elim (Bool-cases (k == j)) [
    | inl p ↦
        let same : d ≡ e = ground (arith, lookup-insert k j d m) in
        subst₂ (IsFiled next) ((eq_iff k j).0 p) same h
    | inr p ↦ hs j e (ground (arith, lookup-insert k j d m))
  ]

  -- A change of one session that keeps its ID and stores a token that exists.
  pub change-IsValid :
      (k : String) (f : SessionDetails C → SessionDetails C) (s : Store C)
      → ((d : SessionDetails C) → IsFiled s.next k d → IsFiled s.next k (f d))
      → IsValid s
      → IsValid (change k f s).0
  unfolding change
  change-IsValid k f s keeps v = elim (Option-cases (lookup k s.sessions)) [
    | inl e ↦ rw (e, change) v
    | inr (d, e) ↦
        rw (e, change)
          (record {
            map = insert-IsMap k (f d) s.sessions v.map;
            filed = insert-filed s.next k (f d) s.sessions (keeps d (v.filed k d e)) v.filed;
          })
  ]

  pub set_with_details-IsValid :
      (now : ℕ) (id adapter target kind : String) (s : Store C)
      → IsValid s
      → IsValid (set_with_details now id adapter target kind s)
  unfolding set_with_details
  set_with_details-IsValid now id adapter target kind s v = record {
    map = insert-IsMap id _ s.sessions v.map;
    filed =
        insert-filed s.next id _ s.sessions
          (record { own_id = refl; allocated = λ p e. ground arith }) v.filed;
  }

  pub delete_session-IsValid :
      (id : String) (s : Store C) → IsValid s → IsValid (delete_session id s).0
  unfolding delete_session
  delete_session-IsValid id s v = elim (Option-cases (lookup id s.sessions)) [
    | inl e ↦ rw (e, delete_session) v
    | inr (d, e) ↦
        rw (e, delete_session)
          (record {
            map = delete-IsMap id s.sessions v.map;
            filed = λ k d' found. v.filed k d' (ground (arith, lookup-delete id k s.sessions));
          })
  ]

  pub delete_where-IsValid :
      (p : String → SessionDetails C → Bool) (s : Store C)
      → IsValid s
      → IsValid (record s { sessions = delete_where p s.sessions })
  delete_where-IsValid p s v = record {
    map = delete_where-IsMap p s.sessions v.map;
    filed = λ k d found. v.filed k d (ground (arith, lookup-delete_where p k s.sessions v.map));
  }

  pub weaken :
      (next : ℕ) (k : String) (d : SessionDetails C) → IsFiled next k d → IsFiled (next + 1) k d
  weaken next k d h = record {
    own_id = h.own_id;
    allocated = λ p e. omega (arith, h.allocated p e);
  }

  pub refresh_token-IsValid :
      (now : ℕ) (id access : String) (expires : ℕ) (s : Store C)
      → IsValid s
      → IsValid (refresh_token now id access expires s).0
  unfolding refresh_token
  refresh_token-IsValid now id access expires s v = elim (Option-cases (lookup id s.sessions)) [
    | inl e ↦ rw (e, refresh_token) v
    | inr (d, e) ↦ elim (Option-cases d.token_info) [
      | inr (p, q) ↦
          rw (e, refresh_token, q)
            (record {
              map = insert-IsMap id d s.sessions v.map;
              filed = insert-filed s.next id d s.sessions (v.filed id d e) v.filed;
            })
      | inl q ↦
          rw (e, refresh_token, q)
            (record {
              map = insert-IsMap id _ s.sessions v.map;
              filed =
                  insert-filed (s.next + 1) id _ s.sessions
                    (record { own_id = (v.filed id d e).own_id; allocated = λ p r. ground arith })
                    (λ k d' found. weaken s.next k d' (v.filed k d' found));
            })
    ]
  ]
