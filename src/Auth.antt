-- ===== src/Auth.antt =====
-- Authentication (pkg/auth): the token of an Authorization header, the signed tokens of
-- token_manager.go, the users of user_middleware.go, and the decisions of the middleware. The JWT
-- library is a parameter. A time is one of Auth.Times, and a number of seconds in Auth.Refresh.
pub mod Expiry
pub mod Gate
pub mod Headers
pub mod Jwt
pub mod Login
pub mod Manager
pub mod Middleware
pub mod Passing
pub mod Refresh
pub mod RefreshTrip
pub mod Times
pub mod Users
use suse_ai_up.Prelude.{
  ◌⊎◌, inl, inr, String, ◌==◌, Option, none, some, if◌then◌else◌, lower_is, trim_space, cut_at,
}

pub data HeaderError : Type 0 where
  missing_header invalid_format empty_token : HeaderError
  unsupported_scheme : String → HeaderError

unfoldable pub extract_token_from_header : String → String ⊎ HeaderError
extract_token_from_header auth_header =
    if auth_header == "" then inr missing_header else elim (cut_at " " auth_header) [
      | none ↦ inr invalid_format
      | some (scheme, rest) ↦
          if lower_is scheme "bearer"
          then if trim_space rest == "" then inr empty_token else inl (trim_space rest)
          else inr (unsupported_scheme scheme)
    ]
