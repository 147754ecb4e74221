-- ===== src/Security/Risk.antt =====
-- Which tools may be executed (pkg/mcp/security.go).
use suse_ai_up.Prelude.{
  String, ℕ, Bool, true, false, List, [], ◌∷◌, ◌++◌, none, some, ◌≡◌, ◌⊎◌, ◌≢◌, refl, ap, sym, ◌∙◌,
  String-cases, any, In, any_sound, any_complete, lower_contains, Bool-cases, inl, inr, arith,
}
use suse_ai_up.Security.{
  AuditLog, Readings, tool_execution_denied, high_risk_tools, is_sensitive, assess_tool_risk,
  risk_of, log_audit_event, request_user_consent, validate_tool_execution,
}

-- A reason to refuse a tool: one of five phrases in its name, or one of three words in the name of a
-- parameter, in any case of letters.
abbrev pub Risky : (tool_name : String) → List String → Type 0
Risky tool_name parameters =
    ((phrase : String) × In phrase (
        "execute_shell" ∷ "run_command" ∷ "delete_file" ∷ "modify_system" ∷ "access_sensitive_data"
        ∷ [])
      × (lower_contains tool_name phrase ≡ true))
    ⊎ ((key : String) × In key parameters
        × (word : String) × In word ("password" ∷ "secret" ∷ "token" ∷ [])
        × (lower_contains key word ≡ true))

is_sensitive_sound :
    (key : String)
    → is_sensitive key ≡ true
    → (word : String) × In word ("password" ∷ "secret" ∷ "token" ∷ [])
      × (lower_contains key word ≡ true)
is_sensitive_sound key h = elim (Bool-cases (lower_contains key "password")) [
  | inl e ↦ ("password", inl refl, e)
  | inr a ↦ elim (Bool-cases (lower_contains key "secret")) [
    | inl e ↦ ("secret", inr (inl refl), e)
    | inr b ↦ ("token", inr (inr (inl refl)), ground arith)
  ]
]

is_sensitive_complete :
    (key word : String)
    → In word ("password" ∷ "secret" ∷ "token" ∷ [])
    → lower_contains key word ≡ true
    → is_sensitive key ≡ true
is_sensitive_complete key word (inl p) e =
    let own : lower_contains key "password" ≡ true = rw p e in ground arith
is_sensitive_complete key word (inr (inl p)) e =
    let own : lower_contains key "secret" ≡ true = rw p e in ground arith
is_sensitive_complete key word (inr (inr (inl p))) e =
    let own : lower_contains key "token" ≡ true = rw p e in ground arith
is_sensitive_complete key word (inr (inr (inr z))) e = elim z [ ]

append_two : {A : Type 0} (xs : List A) (a b : A) → (xs ++ a ∷ []) ++ b ∷ [] ≡ xs ++ a ∷ b ∷ []
append_two [] a b = refl
append_two (x ∷ xs) a b = ap (λ l. x ∷ l) (append_two xs a b)

risk_sound :
    (tool_name : String) (parameters : List String)
    → assess_tool_risk tool_name parameters ≢ "medium"
    → Risky tool_name parameters
unfolding assess_tool_risk
risk_sound tool_name parameters h =
    elim (Bool-cases (any (λ tool. lower_contains tool_name tool) high_risk_tools)) [
      | inl e ↦ inl (any_sound (λ tool. lower_contains tool_name tool) high_risk_tools e)
      | inr e ↦ elim (Bool-cases (any is_sensitive parameters)) [
        | inl k ↦
            let (key, i, s) = any_sound is_sensitive parameters k in
            let (word, w, e) = is_sensitive_sound key s in inr (key, i, word, w, e)
        | inr k ↦ absurd (h (rw (assess_tool_risk, e, k) refl))
      ]
    ]

risk_complete :
    (tool_name : String) (parameters : List String)
    → Risky tool_name parameters
    → assess_tool_risk tool_name parameters ≡ "high"
unfolding assess_tool_risk
risk_complete tool_name parameters (inl (phrase, i, e)) =
    rw
      (
        assess_tool_risk,
        any_complete (λ tool. lower_contains tool_name tool) phrase high_risk_tools i e,
      )
      refl
risk_complete tool_name parameters (inr (key, i, word, w, e)) =
    elim (Bool-cases (any (λ tool. lower_contains tool_name tool) high_risk_tools)) [
      | inl t ↦ rw (assess_tool_risk, t) refl
      | inr t ↦
          rw
            (
              assess_tool_risk,
              t,
              any_complete is_sensitive key parameters i (is_sensitive_complete key word w e),
            )
            refl
    ]

abbrev pub entry :
    (session_id adapter_name : String) (now : ℕ) (action resource : String)
    → Bool
    → (message risk consent : String) → AuditLog
entry session_id adapter_name now action resource success message risk consent = record {
  timestamp = now;
  session_id = session_id;
  adapter_name = adapter_name;
  action = action;
  resource = resource;
  success = success;
  error_message = message;
  risk_level = risk;
  consent_id = consent;
}

module _ (at : Readings) (session_id adapter_name tool_name description : String)
    (parameters : List String) (logs : List AuditLog) where
  refused :
      assess_tool_risk tool_name parameters ≡ "high"
      → validate_tool_execution at session_id adapter_name tool_name description parameters logs ≡ (
        logs
            ++ entry session_id adapter_name at.asked "consent_denied" "" false "" "high"
                "auto-decision"
              ∷ entry session_id adapter_name at.decided "tool_execution_denied" tool_name false
                  "consent denied" "high" ""
              ∷ [],
        some tool_execution_denied,
      )
  unfolding validate_tool_execution request_user_consent log_audit_event risk_of
  refused h =
      rw (validate_tool_execution, request_user_consent, h)
        (ap (λ l. (l, some tool_execution_denied)) (append_two logs _ _))

  allowed :
      assess_tool_risk tool_name parameters ≡ "medium"
      → validate_tool_execution at session_id adapter_name tool_name description parameters logs ≡ (
        logs
            ++ entry session_id adapter_name at.decided "tool_execution_allowed" tool_name true ""
                "medium" ""
              ∷ [],
        none,
      )
  unfolding validate_tool_execution request_user_consent log_audit_event risk_of
  allowed h = rw (validate_tool_execution, h) refl

  -- `ValidateToolExecution` refuses a tool exactly when its name has one of the five phrases or a
  -- parameter's name has "password", "secret" or "token", in any case of letters. A refusal adds
  -- two entries to the audit log, the denied consent and the denied execution, each with its own
  -- reading of the clock, and a permission adds one.
  pub validate_tool_execution-Risky :
      (Risky tool_name parameters
        × (validate_tool_execution at session_id adapter_name tool_name description parameters logs
            ≡ (
              logs
                  ++ entry session_id adapter_name at.asked "consent_denied" "" false "" "high"
                      "auto-decision"
                    ∷ entry session_id adapter_name at.decided "tool_execution_denied" tool_name
                        false "consent denied" "high" ""
                    ∷ [],
              some tool_execution_denied,
            )))
      ⊎ ((¬ Risky tool_name parameters)
          × (validate_tool_execution at session_id adapter_name tool_name description parameters
                logs
              ≡ (
                logs
                    ++ entry session_id adapter_name at.decided "tool_execution_allowed" tool_name
                        true "" "medium" ""
                      ∷ [],
                none,
              )))
  validate_tool_execution-Risky =
      elim (String-cases (assess_tool_risk tool_name parameters) "medium") [
        | inl e ↦ inr (
          λ r.
              let wrong : "medium" ≡ "high" = sym e ∙ risk_complete tool_name parameters r in
              absurd (cc),
          allowed e,
        )
        | inr (ne, b) ↦
            let r = risk_sound tool_name parameters ne in
            inl (r, refused (risk_complete tool_name parameters r))
      ]
