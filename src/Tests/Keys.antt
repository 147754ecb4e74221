-- ===== src/Tests/Keys.antt =====
-- A JWT library that signs one set of claims with one key, and that it keeps the promises of the
-- library which pkg/auth uses.
use suse_ai_up.Prelude.{
  ◌*◌, String, ℕ, ◌==◌, ◌&&◌, Bool, true, false, List, [], ◌∷◌, Option, none, some, ◌≡◌, ◌≢◌, refl,
  ap, ap₂, sym, subst, if◌then◌else◌, ltb, nat_eq, nat_eq_iff, arith, eq_iff, Bool-cases,
  Option-cases, trim_space, trim_left, trim_right, ne_of_beq, inl, inr,
}
use suse_ai_up.Auth.Jwt.{Claims, Method, rsa, Jwt, JwtLaws, Live}

abbrev same_option : {A : Type 0} → (A → A → Bool) → Option A → Option A → Bool
same_option eq none none = true
same_option eq (some s) (some t) = eq s t
same_option eq none (some t) = false
same_option eq (some s) none = false

same_option_path :
    {A : Type 0} (eq : A → A → Bool) (sound : (s t : A) → eq s t ≡ true → s ≡ t) (s t : Option A)
    → same_option eq s t ≡ true
    → s ≡ t
same_option_path eq sound none none h = refl
same_option_path eq sound (some s) (some t) h = ap some (sound s t h)
same_option_path eq sound none (some t) h = cc
same_option_path eq sound (some s) none h = cc

abbrev same_list : List String → List String → Bool
same_list [] [] = true
same_list (s ∷ ss) (t ∷ ts) = s == t && same_list ss ts
same_list [] (t ∷ ts) = false
same_list (s ∷ ss) [] = false

same_list_path : (s t : List String) → same_list s t ≡ true → s ≡ t
same_list_path [] [] h = refl
same_list_path (s ∷ ss) (t ∷ ts) h =
    ap₂ (λ x xs. x ∷ xs) ((eq_iff s t).0 (ground arith)) (same_list_path ss ts (ground arith))
same_list_path [] (t ∷ ts) h = cc
same_list_path (s ∷ ss) [] h = cc

abbrev same_text : Option String → Option String → Bool
same_text = same_option (λ s t. s == t)

same_text_path : (s t : Option String) → same_text s t ≡ true → s ≡ t
same_text_path = same_option_path (λ s t. s == t) (λ s t h. (eq_iff s t).0 h)

abbrev same_time : Option ℕ → Option ℕ → Bool
same_time = same_option nat_eq

same_time_path : (s t : Option ℕ) → same_time s t ≡ true → s ≡ t
same_time_path = same_option_path nat_eq (λ s t h. (nat_eq_iff s t).0 h)

abbrev same_claims : Claims → Claims → Bool
same_claims c d =
    same_text c.jti d.jti
    && same_text c.sub d.sub
    && same_text c.aud d.aud
    && same_text c.iss d.iss
    && same_text c.scope d.scope
    && same_text c.token_use d.token_use
    && same_text c.email d.email
    && same_text c.name d.name
    && same_text c.provider d.provider
    && same_list c.groups d.groups
    && same_time c.iat d.iat
    && same_time c.exp d.exp

both : (a b : Bool) → (a && b) ≡ true → (a ≡ true) × (b ≡ true)
both true b h = (refl, h)
both false b h = cc

same_claims_path : (c d : Claims) → same_claims c d ≡ true → c ≡ d
same_claims_path c d h =
    let (r_exp, h_exp) = both _ _ h in
    let p_exp : c.exp ≡ d.exp = same_time_path c.exp d.exp h_exp in
    let (r_iat, h_iat) = both _ _ r_exp in
    let p_iat : c.iat ≡ d.iat = same_time_path c.iat d.iat h_iat in
    let (r_groups, h_groups) = both _ _ r_iat in
    let p_groups : c.groups ≡ d.groups = same_list_path c.groups d.groups h_groups in
    let (r_provider, h_provider) = both _ _ r_groups in
    let p_provider : c.provider ≡ d.provider = same_text_path c.provider d.provider h_provider in
    let (r_name, h_name) = both _ _ r_provider in
    let p_name : c.name ≡ d.name = same_text_path c.name d.name h_name in
    let (r_email, h_email) = both _ _ r_name in
    let p_email : c.email ≡ d.email = same_text_path c.email d.email h_email in
    let (r_token_use, h_token_use) = both _ _ r_email in
    let p_token_use : c.token_use ≡ d.token_use =
      same_text_path c.token_use d.token_use h_token_use in
    let (r_scope, h_scope) = both _ _ r_token_use in
    let p_scope : c.scope ≡ d.scope = same_text_path c.scope d.scope h_scope in
    let (r_iss, h_iss) = both _ _ r_scope in
    let p_iss : c.iss ≡ d.iss = same_text_path c.iss d.iss h_iss in
    let (r_aud, h_aud) = both _ _ r_iss in
    let p_aud : c.aud ≡ d.aud = same_text_path c.aud d.aud h_aud in
    let (r_sub, h_sub) = both _ _ r_aud in
    let p_sub : c.sub ≡ d.sub = same_text_path c.sub d.sub h_sub in
    let p_jti : c.jti ≡ d.jti = same_text_path c.jti d.jti r_sub in cc

abbrev is_live : ℕ → Claims → Bool
is_live now c = elim c.exp [ none ↦ true | some e ↦ ltb now (e * 1000000000) ]

is_live-Live : (now : ℕ) (c : Claims) → is_live now c ≡ true → Live now c
is_live-Live now c h = elim (Option-cases c.exp) [
  | inl n ↦ rw n tt
  | inr (e, n) ↦ rw n (ground (arith, rw n at h))
]

Live-is_live : (now : ℕ) (c : Claims) → Live now c → is_live now c ≡ true
Live-is_live now c h = elim (Option-cases c.exp) [
  | inl n ↦ rw n refl
  | inr (e, n) ↦ rw n (ground (arith, rw n at h))
]

-- The key signs these claims and no others.
abbrev pub one_jwt : Claims → Jwt
one_jwt fixed = record {
  PrivateKey = String;
  PublicKey = String;
  public_key = λ k. k;
  sign = λ c key. if same_claims c fixed && (key == "key") then some "jwt" else none;
  parse = λ now keyfunc token.
      (if token == "jwt"
        then elim (keyfunc rsa) [
          | none ↦ none
          | some k ↦ if (k == "key") && is_live now fixed then some fixed else none
        ]
        else none);
}

jwt_trimmed : trim_space "jwt" ≡ "jwt"
unfolding trim_space trim_left trim_right
jwt_trimmed = refl

jwt_full : (t : String) → t ≡ "jwt" → t ≢ ""
jwt_full t e = ne_of_beq t "" (rw e refl)

module _ (fixed : Claims) where
  parsed :
      (now : ℕ) (keyfunc : Method → Option String) (token : String) (c : Claims)
      → (one_jwt fixed).parse now keyfunc token ≡ some c
      → ((m : Method) × (k : String) × (keyfunc m ≡ some k) × ((k ≡ "key") × (fixed ≡ c)))
        × Live now c
  parsed now keyfunc token c h = elim (Bool-cases (token == "jwt")) [
    | inr t ↦ absurd (cc (rw t at h))
    | inl t ↦ elim (Option-cases (keyfunc rsa)) [
      | inl n ↦ absurd (cc (rw (t, n) at h))
      | inr (k, n) ↦ elim (Bool-cases ((k == "key") && is_live now fixed)) [
        | inr b ↦ absurd (cc (rw (t, n, b) at h))
        | inl b ↦
            let same : fixed ≡ c = cc (rw (t, n, b) at h) in
            let (own, live) = both _ _ b in
            (
              (rsa, k, n, ((eq_iff k "key").0 own, same)),
              subst (Live now) same (is_live-Live now fixed live),
            )
      ]
    ]
  ]

  signed :
      (c : Claims) (key token : String)
      → (one_jwt fixed).sign c key ≡ some token
      → (c ≡ fixed) × (key ≡ "key") × (token ≡ "jwt")
  signed c key token h = elim (Bool-cases (same_claims c fixed && (key == "key"))) [
    | inr b ↦ absurd (cc (rw b at h))
    | inl b ↦
        let (same, own) = both _ _ b in
        (same_claims_path c fixed same, (eq_iff key "key").0 own, sym (cc (rw b at h)))
  ]

  parse_signed :
      (now : ℕ) (keyfunc : Method → Option String) (c : Claims) (key token : String)
      → (one_jwt fixed).sign c key ≡ some token
      → keyfunc rsa ≡ some key
      → Live now c
      → (one_jwt fixed).parse now keyfunc token ≡ some c
  parse_signed now keyfunc c key token h k live =
      let (same, own, text) = signed c key token h in
      let alive : is_live now fixed ≡ true = Live-is_live now fixed (subst (Live now) same live) in
      rw (text, k, own, alive) (ap some (sym same))

  pub one_jwt-JwtLaws : JwtLaws (one_jwt fixed)
  one_jwt-JwtLaws = record {
    IsSigned = λ m k c token. (k ≡ "key") × (fixed ≡ c);
    parse_sound = parsed;
    parse_sign = parse_signed;
    sign_text = λ c key token h.
        let (_, _, text) = signed c key token h in (rw text jwt_trimmed, jwt_full token text);
  }
