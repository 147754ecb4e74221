-- ===== src/Security.antt =====
-- `MCPSecurityService` of pkg/mcp/security.go: the risk of a call, the automatic consent, and the
-- audit log. A description is only logged, so it is an argument where the code prints one.
pub mod Audit
pub mod Risk
use Prim.Native.String.{◌++◌}
use suse_ai_up.Prelude.{
  String, ℕ, zero, suc, Bool, true, false, not, ◌+◌, ◌-◌, ◌==◌, ◌&&◌, ◌||◌, List, [], ◌∷◌,
  ◌++◌ as join, Option, none, some, if◌then◌else◌, ltb, length, any, keep, lower_contains,
}

pub record UserConsentRequest : Type 0 where
  pub request_type : String
  pub resource : String
  pub tool : String
  pub description : String
  pub required_permissions : List String
  pub risk_level : String

pub record ConsentConditions : Type 0 where
  pub max_requests_per_hour : ℕ
  pub audit_required : Bool

pub record UserConsentResponse : Type 0 where
  pub approved : Bool
  pub granted_permissions : List String
  pub expires_at : Option ℕ
  pub conditions : Option ConsentConditions

-- The metadata is always empty, and the user is never set.
pub record AuditLog : Type 0 where
  pub timestamp : ℕ
  pub session_id : String
  pub adapter_name : String
  pub action : String
  pub resource : String
  pub success : Bool
  pub error_message : String
  pub risk_level : String
  pub consent_id : String

pub data SecurityError : Type 0 where
  tool_execution_denied resource_access_denied : SecurityError

abbrev pub high_risk_tools : List String
high_risk_tools =
    "execute_shell" ∷ "run_command" ∷ "delete_file" ∷ "modify_system" ∷ "access_sensitive_data" ∷ []

abbrev pub high_risk_patterns : List String
high_risk_patterns =
    "/etc/" ∷ "/var/log" ∷ "/home/" ∷ "/root/" ∷ "password" ∷ "secret" ∷ "private" ∷ []

-- A parameter whose name asks for care.
abbrev pub is_sensitive : String → Bool
is_sensitive key =
    lower_contains key "password" || lower_contains key "secret" || lower_contains key "token"

-- The parameters are the keys of the map, none of them for a nil map.
unfoldable pub assess_tool_risk : (tool_name : String) (parameters : List String) → String
assess_tool_risk tool_name parameters =
    if any (λ tool. lower_contains tool_name tool) high_risk_tools
    then "high"
    else if any is_sensitive parameters
    then "high"
    else "medium"

unfoldable pub assess_resource_risk : (resource_uri access_type : String) → String
assess_resource_risk resource_uri access_type =
    if any (λ pattern. lower_contains resource_uri pattern) high_risk_patterns
    then "high"
    else if access_type == "write"
    then "medium"
    else "low"

unfoldable pub assess_risk : UserConsentRequest → String
assess_risk request =
    if request.request_type == "tool_execution"
    then assess_tool_risk request.tool []
    else if request.request_type == "resource_access"
    then assess_resource_risk request.resource "read"
    else if request.request_type == "data_sharing"
    then "high"
    else "medium"

-- The state is the audit log, the oldest entry first.
unfoldable pub log_audit_event :
    (now : ℕ) (session_id adapter_name action resource : String)
    → Bool
    → (error_message risk_level consent_id : String) → List AuditLog
    → List AuditLog
log_audit_event now session_id adapter_name action resource success error_message risk_level
      consent_id logs =
    join logs (
      record {
        timestamp = now;
        session_id = session_id;
        adapter_name = adapter_name;
        action = action;
        resource = resource;
        success = success;
        error_message = error_message;
        risk_level = risk_level;
        consent_id = consent_id;
      }
      ∷ [])

-- `if request.RiskLevel == "" { … }`
unfoldable pub risk_of : UserConsentRequest → String
risk_of request = if request.risk_level == "" then assess_risk request else request.risk_level

-- The readings of the clock in a validation: for the end of a consent, for the entry of the consent,
-- and for the entry of the outcome.
pub record Readings : Type 0 where
  pub granted : ℕ
  pub asked : ℕ
  pub decided : ℕ

unfoldable pub request_user_consent :
    Readings
    → (session_id adapter_name : String) → UserConsentRequest
    → List AuditLog
    → List AuditLog × UserConsentResponse
request_user_consent at session_id adapter_name request logs =
    let risk = risk_of request in
    if risk == "medium"
    then (
      log_audit_event at.asked session_id adapter_name "consent_granted" "" true "" risk
          "auto-approved-medium-risk" logs,
      record {
        approved = true;
        granted_permissions = request.required_permissions;
        expires_at = some (at.granted + 3600000000000);
        conditions = some (record { max_requests_per_hour = 10; audit_required = true });
      },
    )
    else if risk == "low"
    then (
      log_audit_event at.asked session_id adapter_name "consent_granted" "" true "" risk
          "auto-decision" logs,
      record {
        approved = true;
        granted_permissions = request.required_permissions;
        expires_at = none;
        conditions = none;
      },
    )
    else (
      log_audit_event at.asked session_id adapter_name "consent_denied" "" false "" risk
          "auto-decision" logs,
      record { approved = false; granted_permissions = []; expires_at = none; conditions = none },
    )

unfoldable pub validate_tool_execution :
    Readings
    → (session_id adapter_name tool_name description : String) → List String
    → List AuditLog
    → List AuditLog × Option SecurityError
validate_tool_execution at session_id adapter_name tool_name description parameters logs =
    let risk = assess_tool_risk tool_name parameters in
    let (asked, consent) =
      request_user_consent at session_id adapter_name
        (record {
          request_type = "tool_execution";
          resource = "";
          tool = tool_name;
          description = description;
          required_permissions = "tool.execute" ∷ [];
          risk_level = risk;
        })
        logs in
    let allowed : List AuditLog → List AuditLog = λ before.
      (log_audit_event at.decided session_id adapter_name "tool_execution_allowed" tool_name true ""
        risk "" before) in
    if risk == "high"
    then if consent.approved then (allowed asked, none) else (
      log_audit_event at.decided session_id adapter_name "tool_execution_denied" tool_name false
          "consent denied" risk "" asked,
      some tool_execution_denied,
    )
    else (allowed logs, none)

unfoldable pub validate_resource_access :
    Readings
    → (session_id adapter_name resource_uri access_type description : String) → List AuditLog
    → List AuditLog × Option SecurityError
validate_resource_access at session_id adapter_name resource_uri access_type description logs =
    let risk = assess_resource_risk resource_uri access_type in
    let (asked, consent) =
      request_user_consent at session_id adapter_name
        (record {
          request_type = "resource_access";
          resource = resource_uri;
          tool = "";
          description = description;
          required_permissions = ("resource." ++ access_type) ∷ [];
          risk_level = risk;
        })
        logs in
    let allowed : List AuditLog → List AuditLog = λ before.
      (log_audit_event at.decided session_id adapter_name "resource_access_allowed" resource_uri
        true "" risk "" before) in
    if risk == "high"
    then if consent.approved then (allowed asked, none) else (
      log_audit_event at.decided session_id adapter_name "resource_access_denied" resource_uri false
          "consent denied" risk "" asked,
      some resource_access_denied,
    )
    else (allowed logs, none)

-- A filter that is "" lets every entry pass.
abbrev pub selected : (wanted found : String) → Bool
selected wanted found = (wanted == "") || (found == wanted)

unfoldable pub filtered : (session_id adapter_name action : String) → List AuditLog → List AuditLog
filtered session_id adapter_name action logs =
    keep
      (λ l.
        selected session_id l.session_id
        && selected adapter_name l.adapter_name
        && selected action l.action)
      logs

-- `xs[n:]`
unfoldable pub drop : {A : Type 0} → ℕ → List A → List A
drop zero xs = xs
drop (suc n) [] = []
drop (suc n) (x ∷ xs) = drop n xs

-- `limit` is not negative; 0 is no limit, as a negative one is.
unfoldable pub get_audit_logs :
    (session_id adapter_name action : String) (limit : ℕ) → List AuditLog → List AuditLog
get_audit_logs session_id adapter_name action limit logs =
    let found = filtered session_id adapter_name action logs in
    if ltb limit (length found) && ltb 0 limit then drop (length found - limit) found else found
