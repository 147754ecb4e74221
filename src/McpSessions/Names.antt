-- ===== src/McpSessions/Names.antt =====
-- The names of the sessions of pkg/mcp/session_manager.go.
use Prim.Native.Nat.{◌%◌}
use suse_ai_up.Prelude.{
  String, ℕ, some, ◌≡◌, refl, sym, ap, ◌∙◌, length, Map, lookup, insert, lookup-insert,
  length-insert_old, eq_iff, if◌then◌else◌,
}
use suse_ai_up.McpSessions.{
  McpSession, McpClientInfo, Clocks, generate_session_id, create_session, get_session,
}

same_name :
    (format print : ℕ → String) (c d : Clocks)
    → format c.formatted ≡ format d.formatted
    → c.counted % 1000 ≡ d.counted % 1000
    → generate_session_id format print c ≡ generate_session_id format print d
unfolding generate_session_id
same_name format print c d e f = rw (generate_session_id, e, f) refl

-- A second write under the same name.
insert_twice :
    {V : Type 0} (j k : String) (x y : V) (m : Map V)
    → j ≡ k
    → (lookup j (insert k y (insert j x m)) ≡ some y)
      × (length (insert k y (insert j x m)) ≡ length (insert j x m))
insert_twice j k x y m e =
    let own : lookup k (insert j x m) ≡ some x =
      lookup-insert j k x m ∙ ap (λ t. if t then some x else lookup k m) ((eq_iff j k).1 e) in
    (
      lookup-insert k j y (insert j x m)
          ∙ ap (λ t. if t then some y else lookup j (insert j x m)) ((eq_iff k j).1 (sym e)),
      length-insert_old k y x (insert j x m) own,
    )

module _ {C : Type 0} (format print : ℕ → String) where
  -- Two sessions that are created in one second, at nanoseconds that agree modulo 1000, have one
  -- name: under the name of the first there is then the second, and there are no more sessions
  -- than before the second was created.
  pub create_session-create_session :
      (c d : Clocks) (a b : String) (i j : McpClientInfo) (s : Map (McpSession C))
      → format c.formatted ≡ format d.formatted
      → c.counted % 1000 ≡ d.counted % 1000
      → (get_session
            (create_session format print c a i s).1.id
            (create_session format print d b j (create_session format print c a i s).0).0
          ≡ some (create_session format print d b j s).1)
        × (length (create_session format print d b j (create_session format print c a i s).0).0
            ≡ length (create_session format print c a i s).0)
  unfolding create_session get_session
  create_session-create_session c d a b i j s e f =
      insert_twice (generate_session_id format print c) (generate_session_id format print d) _ _ s
        (same_name format print c d e f)
