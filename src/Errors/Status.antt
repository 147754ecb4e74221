-- ===== src/Errors/Status.antt =====
-- The HTTP status and the retry of what the handlers of pkg/mcp/error_handler.go make of an error.
use suse_ai_up.Prelude.{
  String, ℕ, ℤ, negsuc, List, [], ◌∷◌, ◌≡◌, if◌then◌else◌, contains_text, arith,
}
use suse_ai_up.Errors.{
  McpError, Occasion, handle_protocol_error, handle_transport_error, handle_auth_error,
  handle_session_error, to_http_response,
}

-- The status of an authentication error: 401 when its text says "unauthorized", or else 404 when it
-- says "forbidden", and 500 otherwise.
pub to_http_response-handle_auth_error :
    {J : Type 0} (str : String → J) (o : Occasion) (text : String)
    → to_http_response (handle_auth_error str o text) ≡ (
        if contains_text text "unauthorized"
        then 401
        else if contains_text text "forbidden"
        then 404
        else 500)
unfolding handle_auth_error to_http_response
to_http_response-handle_auth_error str o text = ground arith

-- The handlers that read the text of an error.
pub data Handler : Type 0 where
  by_protocol by_transport by_auth by_session : Handler

abbrev pub handle : {J : Type 0} → (String → J) → Handler → Occasion → String → McpError J
handle str by_protocol o text = handle_protocol_error str o text
handle str by_transport o text = handle_transport_error str o text
handle str by_auth o text = handle_auth_error str o text
handle str by_session o text = handle_session_error str o text

-- For each phrase that a handler looks for, in its order: the JSON-RPC code and the HTTP status.
abbrev pub table : Handler → List (String × (ℤ × ℕ))
table by_protocol =
    ("parse error", (negsuc 32699, 400))
    ∷ ("invalid request", (negsuc 32599, 400))
    ∷ ("method not found", (negsuc 32600, 404))
    ∷ ("invalid params", (negsuc 32601, 400))
    ∷ []
table by_transport =
    ("connection refused", (negsuc 32009, 502))
    ∷ ("timeout", (negsuc 32010, 502))
    ∷ ("network", (negsuc 32011, 502))
    ∷ []
table by_auth = ("unauthorized", (negsuc 32000, 401)) ∷ ("forbidden", (negsuc 32001, 404)) ∷ []
table by_session = ("not found", (negsuc 32001, 404)) ∷ ("expired", (negsuc 32000, 401)) ∷ []

-- The row of the first phrase in the text, or that of an internal error.
abbrev pub answer : List (String × (ℤ × ℕ)) → (text : String) → ℤ × ℕ
answer [] text = (negsuc 32602, 500)
answer ((phrase, row) ∷ rows) text = if contains_text text phrase then row else answer rows text

-- What the handlers for protocol, transport, authentication and session errors make of an error:
-- its JSON-RPC code and its HTTP status are those of the handler's table for the first of the
-- table's phrases that is in the text of the error, and -32603 with 500 when none is.
pub to_http_response-handle :
    {J : Type 0} (str : String → J) (h : Handler) (o : Occasion) (text : String)
    → ((handle str h o text).code ≡ (answer (table h) text).0)
      × (to_http_response (handle str h o text) ≡ (answer (table h) text).1)
unfolding handle_protocol_error handle_transport_error handle_auth_error handle_session_error
    to_http_response
to_http_response-handle str by_protocol o text = (ground arith, ground arith)
to_http_response-handle str by_transport o text = (ground arith, ground arith)
to_http_response-handle str by_auth o text = (ground arith, ground arith)
to_http_response-handle str by_session o text = (ground arith, ground arith)
