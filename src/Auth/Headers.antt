-- ===== src/Auth/Headers.antt =====
-- Which Authorization headers carry a token (`ExtractTokenFromHeader` of pkg/auth/token_manager.go).
use Prim.Native.String.{◌++◌, ◌∷◌}
use suse_ai_up.Prelude.{
  inl, inr, String, ◌==◌, true, false, some, ◌≡◌, ◌≢◌, ◌↔◌, ap, sym, ◌∙◌, Bool-cases, Option-cases,
  String-cases, Lacks, lower_is, trim_space, cut_at, cut_at_sound, cut_at_complete, beq_of_ne,
  ne_of_beq,
}
use suse_ai_up.Auth.{extract_token_from_header}

-- A scheme that reads "bearer" in lower case, one space, and a rest whose trimmed text is the
-- token.
pub record IsBearer (auth_header token : String) : Type 0 where
  pub scheme : String
  pub rest : String
  pub cut : auth_header ≡ scheme ++ ◌∷◌ " " rest
  pub plain : Lacks " " scheme
  pub bearer : lower_is scheme "bearer" ≡ true
  pub trimmed : trim_space rest ≡ token
  pub full : token ≢ ""

header_sound : (h t : String) → extract_token_from_header h ≡ inl t → IsBearer h t
unfolding extract_token_from_header
header_sound h t e = elim (Bool-cases (h == "")) [
  | inl z ↦ absurd (cc (rw (extract_token_from_header, z) at e))
  | inr z ↦ elim (Option-cases (cut_at " " h)) [
    | inl n ↦ absurd (cc (rw (extract_token_from_header, z, n) at e))
    | inr ((scheme, rest), n) ↦ elim (Bool-cases (lower_is scheme "bearer")) [
      | inr b ↦ absurd (cc (rw (extract_token_from_header, z, n, b) at e))
      | inl b ↦ elim (Bool-cases (trim_space rest == "")) [
        | inl k ↦ absurd (cc (rw (extract_token_from_header, z, n, b, k) at e))
        | inr k ↦
            let same : trim_space rest ≡ t = cc (rw (extract_token_from_header, z, n, b, k) at e) in
            let (cut, plain) = cut_at_sound " " h scheme rest n in
            record {
              scheme = scheme;
              rest = rest;
              cut = cut;
              plain = plain;
              bearer = b;
              trimmed = same;
              full = λ p. ne_of_beq (trim_space rest) "" k (same ∙ p);
            }
      ]
    ]
  ]
]

header_complete : (h t : String) → IsBearer h t → extract_token_from_header h ≡ inl t
unfolding extract_token_from_header cut_at
header_complete h t b =
    let parts : cut_at " " h ≡ some (b.scheme, b.rest) =
      rw b.cut (cut_at_complete " " b.scheme b.rest b.plain) in
    let some_rest : (trim_space b.rest == "") ≡ false =
      beq_of_ne (trim_space b.rest) "" (λ p. b.full (sym b.trimmed ∙ p)) in
    elim (String-cases h "") [
      | inl z ↦ absurd (cc (rw z at parts))
      | inr (ne, z) ↦
          rw (extract_token_from_header, z, parts, b.bearer, some_rest) (ap inl b.trimmed)
    ]

pub header_nonempty : (h t : String) → extract_token_from_header h ≡ inl t → (h == "") ≡ false
unfolding extract_token_from_header
header_nonempty h t e = elim (Bool-cases (h == "")) [
  | inl z ↦ absurd (cc (rw (extract_token_from_header, z) at e))
  | inr z ↦ z
]

-- `ExtractTokenFromHeader` returns a token exactly when the header is a scheme that reads "bearer"
-- in lower case, a space, and a rest that is the token up to white space at its ends, and the
-- token is not empty.
pub extract_token_from_header-IsBearer :
    (h t : String) → (extract_token_from_header h ≡ inl t) ↔ IsBearer h t
extract_token_from_header-IsBearer h t = (header_sound h t, header_complete h t)
