-- ===== src/Errors.antt =====
-- `ErrorHandler` of pkg/mcp/error_handler.go: what an error becomes by the phrases in its text.
-- `J` is the type of JSON values and `str` the JSON of a text. What `logError` prints is left out.
pub mod Status
use suse_ai_up.Prelude.{
  String, ℕ, ℤ, negsuc, int_eq, Bool, true, false, ◌*◌, ◌==◌, ◌||◌, List, [], ◌∷◌, Option, none,
  some, if◌then◌else◌, Map, insert, any, contains_text, lower_contains,
}
use suse_ai_up.Router.Messages.{Message, JsonRpcError}

pub data ErrorType : Type 0 where
  protocol transport auth validation timeout network parsing capability session : ErrorType

pub record McpError (J : Type 0) : Type 0 where
  pub error_type : ErrorType
  pub code : ℤ
  pub message : String
  pub details : Map J
  pub timestamp : ℕ
  pub session_id : String
  pub adapter_name : String
  pub retryable : Bool
  pub suggestions : List String

abbrev pub parse_error : ℤ
parse_error = negsuc 32699

abbrev pub invalid_request : ℤ
invalid_request = negsuc 32599

abbrev pub method_not_found : ℤ
method_not_found = negsuc 32600

abbrev pub invalid_params : ℤ
invalid_params = negsuc 32601

abbrev pub internal_error : ℤ
internal_error = negsuc 32602

abbrev pub mcp_unauthorized : ℤ
mcp_unauthorized = negsuc 32000

abbrev pub mcp_not_found : ℤ
mcp_not_found = negsuc 32001

abbrev pub connection_refused : ℤ
connection_refused = negsuc 32009

abbrev pub request_timeout : ℤ
request_timeout = negsuc 32010

abbrev pub network_error : ℤ
network_error = negsuc 32011

-- What the environment gives a handler: the clock and the names.
pub record Occasion : Type 0 where
  pub now : ℕ
  pub session_id : String
  pub adapter_name : String

module _ {J : Type 0} (str : String → J) where
  -- `Details` with the original text, and the hint where the branch writes one.
  abbrev pub details_of : String → Option String → Map J
  details_of original none = ("originalError", str original) ∷ []
  details_of original (some hint) = ("originalError", str original) ∷ ("suggestion", str hint) ∷ []

  abbrev pub error_of :
      ErrorType
      → Bool
      → Occasion
      → (original : String) → ℤ
      → (message : String) → Option String
      → List String
      → McpError J
  error_of error_type retryable o original code message hint suggestions = record {
    error_type = error_type;
    code = code;
    message = message;
    details = details_of original hint;
    timestamp = o.now;
    session_id = o.session_id;
    adapter_name = o.adapter_name;
    retryable = retryable;
    suggestions = suggestions;
  }

  unfoldable pub handle_protocol_error : Occasion → (text : String) → McpError J
  handle_protocol_error o text =
      if contains_text text "parse error"
      then error_of protocol false o text parse_error "Failed to parse MCP message"
          (some "Check message format and JSON syntax")
          ("Verify JSON-RPC 2.0 message format" ∷ "Check for proper UTF-8 encoding"
            ∷ "Ensure required fields are present" ∷ [])
      else if contains_text text "invalid request"
      then error_of protocol false o text invalid_request "Invalid MCP request"
          (some "Check request structure and parameters")
          ("Verify method name is correct" ∷ "Check parameter types and values"
            ∷ "Ensure protocol version is '2.0'" ∷ [])
      else if contains_text text "method not found"
      then error_of protocol false o text method_not_found "MCP method not supported"
          (some "Check if method is supported by the target server")
          ("Verify method name spelling" ∷ "Check server capabilities"
            ∷ "Ensure server supports the requested method" ∷ [])
      else if contains_text text "invalid params"
      then error_of protocol false o text invalid_params "Invalid method parameters"
          (some "Check parameter types and values")
          ("Verify parameter names" ∷ "Check parameter types"
            ∷ "Ensure required parameters are provided" ∷ [])
      else error_of protocol false o text internal_error "Internal MCP protocol error" none
          ("Try the request again" ∷ "Contact support if the issue persists" ∷ [])

  unfoldable pub handle_transport_error : Occasion → (text : String) → McpError J
  handle_transport_error o text =
      if contains_text text "connection refused"
      then error_of transport true o text connection_refused "Connection to target server refused"
          (some "Check if target server is running")
          ("Verify target server is running" ∷ "Check network connectivity"
            ∷ "Ensure correct port and address" ∷ [])
      else if contains_text text "timeout"
      then error_of timeout true o text request_timeout "Request timeout"
          (some "Increase timeout or check server performance")
          ("Increase request timeout" ∷ "Check server performance" ∷ "Try again later" ∷ [])
      else if contains_text text "network"
      then error_of network true o text network_error "Network error"
          (some "Check network connectivity")
          ("Check network connection" ∷ "Verify DNS resolution" ∷ "Check firewall settings" ∷ [])
      else error_of transport true o text internal_error "Transport error" none
          ("Try the request again" ∷ "Check network connectivity" ∷ [])

  unfoldable pub handle_auth_error : Occasion → (text : String) → McpError J
  handle_auth_error o text =
      if contains_text text "unauthorized"
      then error_of auth false o text mcp_unauthorized "Authentication failed"
          (some "Check authentication credentials")
          ("Verify authentication token" ∷ "Check token expiration" ∷ "Refresh authentication token"
            ∷ [])
      else if contains_text text "forbidden"
      then error_of auth false o text mcp_not_found "Access forbidden"
          (some "Check access permissions")
          ("Check access permissions" ∷ "Verify user roles" ∷ "Contact administrator" ∷ [])
      else error_of auth false o text internal_error "Authentication error" none
          ("Check authentication configuration" ∷ "Verify credentials" ∷ [])

  unfoldable pub handle_session_error : Occasion → (text : String) → McpError J
  handle_session_error o text =
      if contains_text text "not found"
      then error_of session true o text mcp_not_found "Session not found"
          (some "Session may have expired")
          ("Start a new session" ∷ "Check session ID" ∷ "Verify session is still active" ∷ [])
      else if contains_text text "expired"
      then error_of session true o text mcp_unauthorized "Session expired"
          (some "Session has expired, please reconnect")
          ("Start a new session" ∷ "Refresh session token" ∷ [])
      else error_of session true o text internal_error "Session error" none
          ("Try the request again" ∷ "Restart session if needed" ∷ [])

  -- `HandleValidationError`; the text is none for a nil error, the details are [] for a nil map.
  unfoldable pub handle_validation_error : Occasion → Option String → Map J → McpError J
  handle_validation_error o text details = record {
    error_type = validation;
    code = invalid_params;
    message = "Validation error";
    details = elim text [
      | none ↦ details
      | some original ↦ insert "originalError" (str original) details
    ];
    timestamp = o.now;
    session_id = o.session_id;
    adapter_name = o.adapter_name;
    retryable = false;
    suggestions =
        "Check input parameters" ∷ "Verify data format" ∷ "Ensure required fields are provided"
        ∷ [];
  }

module _ {J : Type 0} where
  -- The details as a JSON object are a parameter.
  unfoldable pub to_json_rpc_response : (Map J → J) → Option J → McpError J → Message J
  to_json_rpc_response object id e = record {
    jsonrpc = "2.0";
    id = id;
    method = "";
    params = none;
    result = none;
    error = some (record { code = e.code; message = e.message; content = some (object e.details) });
  }

  -- The status of `ToHTTPResponse`; its body is the error itself.
  unfoldable pub to_http_response : McpError J → ℕ
  to_http_response e =
      if int_eq e.code parse_error || int_eq e.code invalid_request || int_eq e.code invalid_params
      then 400
      else if int_eq e.code method_not_found
      then 404
      else if int_eq e.code mcp_unauthorized
      then 401
      else if int_eq e.code mcp_not_found
      then 404
      else if int_eq e.code connection_refused
          || int_eq e.code request_timeout
          || int_eq e.code network_error
      then 502
      else 500

-- A Go error: one of the handler's own, or another with its text.
pub data AnyError (J : Type 0) : Type 0 where
  mcp : McpError J → AnyError J
  plain : String → AnyError J

abbrev pub retryable_strings : List String
retryable_strings = "timeout" ∷ "connection refused" ∷ "network" ∷ "temporary" ∷ "retry" ∷ []

module _ {J : Type 0} where
  unfoldable pub is_retryable : AnyError J → Bool
  is_retryable (mcp e) = e.retryable
  is_retryable (plain text) = any (λ phrase. lower_contains text phrase) retryable_strings

  -- In nanoseconds; `attempt` is not negative, and the wrap-around of a Duration is left out.
  unfoldable pub get_retry_delay : AnyError J → (attempt : ℕ) → ℕ
  get_retry_delay (mcp e) attempt = elim e.error_type [
    | timeout ↦ attempt * 1000000000
    | network ↦ attempt * 2 * 1000000000
    | transport ↦ attempt * 500000000
    | _ ↦ 1000000000
  ]
  get_retry_delay (plain text) attempt = attempt * 1000000000
