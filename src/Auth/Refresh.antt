-- ===== src/Auth/Refresh.antt =====
-- The refresh tokens of `TokenManager` (pkg/auth/token_manager.go): the base64 text of
-- `adapter:timestamp:random`. `base64.URLEncoding` and the decimal numbers of package fmt are
-- parameters.
use Prim.Native.String.{◌++◌}
use suse_ai_up.Prelude.{
  ◌⊎◌, inl, inr, String, ℕ, ◌+◌, List, [], ◌∷◌, Option, none, some, ◌≡◌, if◌then◌else◌, ltb,
  split_on, Lacks,
}

pub record Texts (B : Type 0) : Type 0 where
  pub encode : B → String
  pub decode : String → Option B
  -- the conversions between `string` and `[]byte`
  pub to_bytes : String → B
  pub to_text : B → String
  -- `fmt.Sprintf("%d", n)` and `fmt.Sscanf(s, "%d", &n)`
  pub print : ℕ → String
  pub scan : String → Option ℕ

pub record TextsLaws {B : Type 0} (texts : Texts B) : Type 0 where
  pub decode_encode : (b : B) → texts.decode (texts.encode b) ≡ some b
  pub encode_plain : (b : B) → Lacks ":" (texts.encode b)
  pub text_bytes : (s : String) → texts.to_text (texts.to_bytes s) ≡ s
  pub scan_print : (n : ℕ) → texts.scan (texts.print n) ≡ some n
  pub print_plain : (n : ℕ) → Lacks ":" (texts.print n)

pub data RefreshError : Type 0 where
  bad_format bad_structure bad_timestamp refresh_expired : RefreshError

module _ {B : Type 0} (texts : Texts B) where
  -- The text before the last encoding.
  unfoldable pub refresh_data : (now : ℕ) → B → (adapter_name : String) → String
  refresh_data now random adapter_name =
      adapter_name ++ (":" ++ (texts.print now ++ (":" ++ texts.encode random)))

  -- `random` is what `rand.Read` answers.
  unfoldable pub generate_refresh_token : (now : ℕ) → B → (adapter_name : String) → String
  generate_refresh_token now random adapter_name =
      texts.encode (texts.to_bytes (refresh_data now random adapter_name))

  -- The part after the split.
  unfoldable pub validate_parts : (now : ℕ) → List String → String ⊎ RefreshError
  validate_parts now (adapter_name ∷ timestamp ∷ random ∷ []) = elim (texts.scan timestamp) [
    | none ↦ inr bad_timestamp
    | some t ↦ if ltb (t + 2592000) now then inr refresh_expired else inl adapter_name
  ]
  validate_parts now [] = inr bad_structure
  validate_parts now (a ∷ []) = inr bad_structure
  validate_parts now (a ∷ b ∷ []) = inr bad_structure
  validate_parts now (a ∷ b ∷ c ∷ d ∷ rest) = inr bad_structure

  unfoldable pub validate_refresh_token : (now : ℕ) → String → String ⊎ RefreshError
  validate_refresh_token now refresh_token = elim (texts.decode refresh_token) [
    | none ↦ inr bad_format
    | some content ↦ validate_parts now (split_on ":" (texts.to_text content))
  ]
