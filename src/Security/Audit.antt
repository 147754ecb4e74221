-- ===== src/Security/Audit.antt =====
-- What the audit log of pkg/mcp/security.go records and what it gives back.
use suse_ai_up.Prelude.{
  String, ℕ, zero, suc, ◌-◌, ◌≤◌, ◌<◌, ◌&&◌, List, [], ◌∷◌, ◌++◌, ◌≡◌, refl, ap, ltb, length,
  Bool-cases, inl, inr, arith,
}
use suse_ai_up.Security.{AuditLog, filtered, drop, get_audit_logs}

-- `xs` is the end of `ys`.
abbrev pub IsEnd : {A : Type 0} → List A → List A → Type 0
IsEnd xs ys = (before : List _) × (ys ≡ before ++ xs)

drop-IsEnd : {A : Type 0} (n : ℕ) (xs : List A) → IsEnd (drop n xs) xs
unfolding drop
drop-IsEnd zero xs = ([], refl)
drop-IsEnd (suc n) [] = ([], refl)
drop-IsEnd (suc n) (x ∷ xs) = let (before, e) = drop-IsEnd n xs in (x ∷ before, ap (λ ys. x ∷ ys) e)

length-drop : {A : Type 0} (n : ℕ) (xs : List A) → length (drop n xs) ≡ length xs - n
unfolding drop
length-drop zero xs = omega arith
length-drop (suc n) [] = omega arith
length-drop (suc n) (x ∷ xs) = omega (arith, length-drop n xs)

-- `GetAuditLogs` returns the end of the list of all entries that match, the newest ones, no more
-- than the limit, and all of them where the limit is 0.
pub get_audit_logs-IsEnd :
    (session_id adapter_name action : String) (limit : ℕ) (logs : List AuditLog)
    → IsEnd
        (get_audit_logs session_id adapter_name action limit logs)
        (filtered session_id adapter_name action logs)
      × (0 < limit → length (get_audit_logs session_id adapter_name action limit logs) ≤ limit)
      × (limit ≡ 0
          → get_audit_logs session_id adapter_name action limit logs
            ≡ filtered session_id adapter_name action logs)
unfolding get_audit_logs
get_audit_logs-IsEnd session_id adapter_name action limit logs =
    let found = filtered session_id adapter_name action logs in
    elim (Bool-cases (ltb limit (length found) && ltb 0 limit)) [
      | inl e ↦ rw e (
        drop-IsEnd (length found - limit) found,
        λ pos. rw (length-drop (length found - limit) found) (ground arith),
        λ zero_limit. absurd (ground arith),
      )
      | inr e ↦ rw e (([], refl), λ pos. ground arith, λ zero_limit. refl)
    ]
