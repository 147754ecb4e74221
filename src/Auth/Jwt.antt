-- ===== src/Auth/Jwt.antt =====
-- What the code of pkg/auth uses of the package golang-jwt/jwt/v5 and of crypto/rsa, and what it
-- relies on.
use suse_ai_up.Prelude.{String, ℕ, List, Option, none, some, ◌≡◌, ◌≢◌, ◌*◌, ◌<◌, trim_space}

-- The claims the code writes or reads; none for a claim that is missing or has another JSON type.
pub record Claims : Type 0 where
  pub jti : Option String
  pub sub : Option String
  pub aud : Option String
  pub iss : Option String
  pub scope : Option String
  pub token_use : Option String
  pub email : Option String
  pub name : Option String
  pub provider : Option String
  pub groups : List String
  pub iat : Option ℕ
  pub exp : Option ℕ

-- `token.Method`: one of the RSA methods, or another one.
pub data Method : Type 0 where
  rsa other : Method

pub record Jwt : Type 1 where
  pub PrivateKey : Type 0
  pub PublicKey : Type 0
  pub public_key : PrivateKey → PublicKey
  -- `jwt.NewWithClaims(jwt.SigningMethodRS256, claims).SignedString(key)`
  pub sign : Claims → PrivateKey → Option String
  -- `jwt.Parse(tokenString, keyfunc)` at a time (Auth.Times): the claims of a valid token
  pub parse : ℕ → (Method → Option PublicKey) → String → Option Claims

-- The claims have not expired: the time is before the second of `exp`.
abbrev pub Live : ℕ → Claims → Type 0
Live now c = elim c.exp [ none ↦ Unit | some e ↦ now < e * 1000000000 ]

pub record JwtLaws (jwt : Jwt) : Type 1 where
  -- the token carries the claims, signed by the method with the private key that belongs to
  -- the public one
  pub IsSigned : Method → jwt.PublicKey → Claims → String → Type 0
  pub parse_sound :
      (now : ℕ) (keyfunc : Method → Option jwt.PublicKey) (token : String) (c : Claims)
      → jwt.parse now keyfunc token ≡ some c
      → ((m : Method) × (k : jwt.PublicKey) × (keyfunc m ≡ some k) × IsSigned m k c token)
        × Live now c
  pub parse_sign :
      (now : ℕ) (keyfunc : Method → Option jwt.PublicKey) (c : Claims) (key : jwt.PrivateKey)
      (token : String)
      → jwt.sign c key ≡ some token
      → keyfunc rsa ≡ some (jwt.public_key key)
      → Live now c
      → jwt.parse now keyfunc token ≡ some c
  -- a signed text is base64 and dots
  pub sign_text :
      (c : Claims) (key : jwt.PrivateKey) (token : String)
      → jwt.sign c key ≡ some token
      → (trim_space token ≡ token) × (token ≢ "")
