-- ===== src/Tokens/Values.antt =====
-- `GetTokenByValue` and the lists of pkg/clients/user_adapter_token_store.go, and what expiry does.
use suse_ai_up.Prelude.{
  ◌<◌, ◌≤◌, Option, ap, true, none, insert, delete, ltb, lookup-insert, lookup-delete, ◌∙◌, arith,
  String, ℕ, ◌==◌, false, List, [], ◌∷◌, Map, lookup, values, ◌≡◌, refl, inl, inr, some, Bool-cases,
  In, IsMap, eq_iff, lookup_of-In-values,
}
use suse_ai_up.Tokens.{
  TokenError, UserAdapterToken, already_exists, expired, is_expired, first_value,
  get_token_by_value, make_key, create_token, get_token, delete_token,
}

-- What `GetTokenByValue` may hand out: a token with the value that has not expired.
abbrev pub Usable : ℕ → String → UserAdapterToken → Type 0
Usable now value t = (t.token ≡ value) × (is_expired now t ≡ false)

first_value_sound :
    (now : ℕ) (value : String) (ts : List UserAdapterToken) (t : UserAdapterToken)
    → first_value now value ts ≡ inl t
    → In t ts × Usable now value t
unfolding first_value
first_value_sound now value [] t h = cc
first_value_sound now value (x ∷ xs) t h = elim (Bool-cases (x.token == value)) [
  | inl e ↦ elim (Bool-cases (is_expired now x)) [
    | inl old ↦ absurd (cc (rw (first_value, e, old) at h))
    | inr old ↦
        let same : x ≡ t = cc (rw (first_value, e, old) at h) in
        (inl same, rw (← same) ((eq_iff x.token value).0 e, old))
  ]
  | inr e ↦ let (i, u) = first_value_sound now value xs t (rw (first_value, e) at h) in (inr i, u)
]

-- A token that `GetTokenByValue` returns is stored, has the value asked for, and has not expired.
pub get_token_by_value_sound :
    (now : ℕ) (value : String) (s : Map UserAdapterToken) (t : UserAdapterToken)
    → IsMap s
    → get_token_by_value now value s ≡ inl t
    → ((key : String) × (lookup key s ≡ some t)) × Usable now value t
unfolding get_token_by_value
get_token_by_value_sound now value s t m h =
    let (i, u) = first_value_sound now value (values s) t h in (lookup_of-In-values t s m i, u)

-- From the moment after its end, the token of a pair is neither usable nor replaceable: `GetToken`
-- reports that it has expired, and `CreateToken` with another token for the pair changes nothing
-- and reports that one exists. Only after `DeleteToken` does the same `CreateToken` succeed, and
-- `GetToken` then answers the new token when that has not ended.
pub create_token-expired :
    (now ends until : ℕ) (old t : UserAdapterToken) (s : Map UserAdapterToken)
    → lookup (make_key t.user_id t.adapter_id) s ≡ some old
    → old.expires_at ≡ some ends
    → ends < now
    → t.expires_at ≡ some until
    → now ≤ until
    → (get_token now t.user_id t.adapter_id s ≡ inr (expired t.user_id t.adapter_id))
      × (create_token now t s ≡ (s, some (already_exists t.user_id t.adapter_id)))
      × ((create_token now t (delete_token t.user_id t.adapter_id s).0).1 ≡ none)
      × (get_token now t.user_id t.adapter_id
            (create_token now t (delete_token t.user_id t.adapter_id s).0).0
          ≡ inl (record t { created_at = now }))
unfolding get_token create_token delete_token is_expired
create_token-expired now ends until old t s stored over late limit fresh =
    let key = make_key t.user_id t.adapter_id in
    let made = record t { created_at = now } in
    let gone : lookup key (delete key s) ≡ none =
      lookup-delete key key s ∙ rw ((eq_iff key key).1 refl) refl in
    let kept : lookup key (insert key made (delete key s)) ≡ some made =
      lookup-insert key key made (delete key s) ∙ rw ((eq_iff key key).1 refl) refl in
    let is_over : ltb ends now ≡ true = ground arith in
    let is_fresh : ltb until now ≡ false = ground arith in
    let removed : delete_token t.user_id t.adapter_id s ≡ (delete key s, none) =
      rw (delete_token, stored) refl in
    let put : create_token now t (delete key s) ≡ (insert key made (delete key s), none) =
      rw (create_token, gone) refl in
    let answered : get_token now t.user_id t.adapter_id (insert key made (delete key s))
        ≡ inl made =
      rw (get_token, kept, is_expired, limit, is_fresh) refl in
    let replaced : create_token now t (delete_token t.user_id t.adapter_id s).0
        ≡ (insert key made (delete key s), none) =
      ap (λ (after : Map UserAdapterToken × Option TokenError). create_token now t after.0) removed
      ∙ put in
    (
      rw (get_token, stored, is_expired, over, is_over) refl,
      rw (create_token, stored) refl,
      ap (λ (after : Map UserAdapterToken × Option TokenError). after.1) replaced,
      ap
            (λ (after : Map UserAdapterToken × Option TokenError).
              get_token now t.user_id t.adapter_id after.0)
            replaced
          ∙ answered,
    )
