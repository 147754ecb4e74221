-- ===== src/Servers/Keys.antt =====
-- The keys of the stores of MCP servers of pkg/clients and of internal/service.
use suse_ai_up.Prelude.{
  String, some, ◌≡◌, sym, subst, Map, lookup, insert, delete, lookup-insert, lookup-delete,
  Option-cases, String-cases, inl, inr, eq_iff, arith,
}
use suse_ai_up.Servers.{
  McpServer, named, create_mcp_server, update_mcp_server, delete_mcp_server, create_unless_taken,
}

module _ {J : Type 0} where
  -- A server stands under its own ID, which is what a load from the file makes of it.
  abbrev pub IsKeyed : Map (McpServer J) → Type 0
  IsKeyed s = (id : String) (server : McpServer J) → lookup id s ≡ some server → server.id ≡ id

  insert-IsKeyed :
      (server : McpServer J) (s : Map (McpServer J))
      → IsKeyed s
      → IsKeyed (insert server.id server s)
  insert-IsKeyed server s h id found e = elim (String-cases server.id id) [
    | inl same ↦ ground (arith, lookup-insert server.id id server s, eq_iff server.id id)
    | inr (n, o) ↦ h id found (ground (arith, lookup-insert server.id id server s))
  ]

  delete-IsKeyed : (k : String) (s : Map (McpServer J)) → IsKeyed s → IsKeyed (delete k s)
  delete-IsKeyed k s h id found e = elim (String-cases k id) [
    | inl same ↦ absurd (ground (arith, lookup-delete k id s, eq_iff k id))
    | inr (n, o) ↦ h id found (ground (arith, lookup-delete k id s))
  ]

  pub data Step (s t : Map (McpServer J)) : Type 0 where
    create_step :
        (generated : String) (server : McpServer J)
        → t ≡ (create_mcp_server generated server s).0
        → Step s t
    taken_step : (server : McpServer J) → t ≡ (create_unless_taken server s).0 → Step s t
    update_step :
        (id : String) (updated : McpServer J) → t ≡ (update_mcp_server id updated s).0 → Step s t
    delete_step : (id : String) → t ≡ (delete_mcp_server id s).0 → Step s t

  -- Every write keeps each server under its own ID.
  pub Step-IsKeyed : (s t : Map (McpServer J)) → IsKeyed s → Step s t → IsKeyed t
  unfolding create_mcp_server create_unless_taken update_mcp_server delete_mcp_server
  Step-IsKeyed s t h (create_step generated server e) =
      subst (λ m. IsKeyed m) (sym e) (insert-IsKeyed (named generated server) s h)
  Step-IsKeyed s t h (taken_step server e) = elim (Option-cases (lookup server.id s)) [
    | inr (old, l) ↦ subst (λ m. IsKeyed m) (sym (rw (create_unless_taken, l) at e)) h
    | inl l ↦
        subst (λ m. IsKeyed m) (sym (rw (create_unless_taken, l) at e)) (insert-IsKeyed server s h)
  ]
  Step-IsKeyed s t h (update_step id updated e) = elim (Option-cases (lookup id s)) [
    | inl l ↦ subst (λ m. IsKeyed m) (sym (rw (update_mcp_server, l) at e)) h
    | inr (old, l) ↦
        subst (λ m. IsKeyed m) (sym (rw (update_mcp_server, l) at e))
          (insert-IsKeyed (record updated { id = id }) s h)
  ]
  Step-IsKeyed s t h (delete_step id e) = elim (Option-cases (lookup id s)) [
    | inl l ↦ subst (λ m. IsKeyed m) (sym (rw (delete_mcp_server, l) at e)) h
    | inr (old, l) ↦
        subst (λ m. IsKeyed m) (sym (rw (delete_mcp_server, l) at e)) (delete-IsKeyed id s h)
  ]
