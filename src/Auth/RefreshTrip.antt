-- ===== src/Auth/RefreshTrip.antt =====
-- What `ValidateRefreshToken` answers on a token of `GenerateRefreshToken`
-- (pkg/auth/token_manager.go).
use Prim.Native.String.{◌++◌, ◌∷◌}
use text.Mathlib.TextLemmas.{nil-append, cons-append}
use suse_ai_up.Prelude.{
  inl, inr, String, ℕ, ◌+◌, ◌≤◌, List, [], ◌∷◌, ◌≡◌, refl, ap, ◌∙◌, if◌then◌else◌, ltb, length,
  split_on, split_on-append, split_on_one, length-split_on-append, length-split_on-pos, Lacks,
  arith,
}
use suse_ai_up.Auth.Refresh.{
  Texts, TextsLaws, bad_structure, refresh_expired, refresh_data, generate_refresh_token,
  validate_parts, validate_refresh_token,
}

colon-append : (s : String) → (":" ++ s) ≡ String.◌∷◌ ":" s
colon-append s = cons-append ":" "" s ∙ ap (String.◌∷◌ ":") (nil-append s)

four_parts :
    (now : ℕ) {B : Type 0} (texts : Texts B) (ps : List String)
    → 4 ≤ length ps
    → validate_parts texts now ps ≡ inr bad_structure
unfolding validate_parts
four_parts now texts [] h = absurd (omega arith)
four_parts now texts (a ∷ []) h = absurd (omega arith)
four_parts now texts (a ∷ b ∷ []) h = absurd (omega arith)
four_parts now texts (a ∷ b ∷ c ∷ []) h = absurd (omega arith)
four_parts now texts (a ∷ b ∷ c ∷ d ∷ rest) h = refl

module _ {B : Type 0} (texts : Texts B) (laws : TextsLaws texts) where
  data_colons :
      (now : ℕ) (random : B) (name : String)
      → refresh_data texts now random name
        ≡ name ++ String.◌∷◌ ":" (texts.print now ++ String.◌∷◌ ":" (texts.encode random))
  unfolding refresh_data
  data_colons now random name = rw (refresh_data, colon-append, colon-append) refl

  -- Decoding gives back the text that was encoded.
  validate_parts_of_data :
      (now later : ℕ) (random : B) (name : String)
      → validate_refresh_token texts later (generate_refresh_token texts now random name)
        ≡ validate_parts texts later (
            split_on ":"
              (name ++ String.◌∷◌ ":" (texts.print now ++ String.◌∷◌ ":" (texts.encode random))))
  unfolding validate_refresh_token generate_refresh_token
  validate_parts_of_data now later random name =
      rw
        (
          validate_refresh_token,
          generate_refresh_token,
          laws.decode_encode,
          laws.text_bytes,
          data_colons now random name,
        )
        refl

  parts_of_rest :
      (now : ℕ) (random : B)
      → split_on ":" (texts.print now ++ String.◌∷◌ ":" (texts.encode random))
        ≡ texts.print now ∷ texts.encode random ∷ []
  parts_of_rest now random =
      split_on-append ":" (texts.print now) (texts.encode random) (laws.print_plain now)
      ∙ ap (λ ps. texts.print now ∷ ps)
          (split_on_one ":" (texts.encode random) (laws.encode_plain random))

  -- For an adapter name without ":", a refresh token of `GenerateRefreshToken` gives the name back
  -- until 30 days after it was made, and is reported as expired afterwards.
  pub validate_refresh_token-generate_refresh_token :
      (now later : ℕ) (random : B) (name : String)
      → Lacks ":" name
      → validate_refresh_token texts later (generate_refresh_token texts now random name)
        ≡ (if ltb (now + 2592000) later then inr refresh_expired else inl name)
  unfolding validate_parts
  validate_refresh_token-generate_refresh_token now later random name plain =
      validate_parts_of_data now later random name
      ∙ rw
          (
            split_on-append ":" name (texts.print now ++ String.◌∷◌ ":" (texts.encode random))
                plain,
            parts_of_rest now random,
            validate_parts,
            laws.scan_print now,
          )
          refl

  -- For an adapter name with a ":", a refresh token of `GenerateRefreshToken` is never valid.
  pub validate_refresh_token_colon :
      (now later : ℕ) (random : B) (a b : String)
      → validate_refresh_token texts later
          (generate_refresh_token texts now random (a ++ String.◌∷◌ ":" b))
        ≡ inr bad_structure
  validate_refresh_token_colon now later random a b =
      let rest = texts.print now ++ String.◌∷◌ ":" (texts.encode random) in
      let many : 4 ≤ length (split_on ":" ((a ++ String.◌∷◌ ":" b) ++ String.◌∷◌ ":" rest)) =
        rw (length-split_on-append ":" (a ++ String.◌∷◌ ":" b) rest, length-split_on-append ":" a b)
          (omega (
            arith,
            length-split_on-pos ":" a,
            length-split_on-pos ":" b,
            ap length (parts_of_rest now random),
          )) in
      validate_parts_of_data now later random (a ++ String.◌∷◌ ":" b)
      ∙ four_parts later texts _ many
