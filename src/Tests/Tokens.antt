-- ===== src/Tests/Tokens.antt =====
-- The tokens of users for adapters (pkg/clients/user_adapter_token_store.go), the encryption of
-- files (pkg/clients/crypto.go) and the session manager (pkg/mcp/session_manager.go).
use suse_ai_up.Prelude.{ℕ, List, [], ◌∷◌, none, some, ◌≡◌, refl, lookup, insert, All}
use suse_ai_up.Tokens.{
  UserAdapterToken, already_exists, expired, make_key, is_expired, create_token, get_token,
}
use suse_ai_up.Tokens.Pairs.{Request, create, get, done, failed, replies, promised, nothing, serve}
use suse_ai_up.Tokens.Refines.{PlainRequest, replies-refine}
use suse_ai_up.Files.Crypto.{Cipher, encrypt, decrypt}
use suse_ai_up.Files.Sealed.{CipherLaws, decrypt-encrypt}

abbrev ann_maps : UserAdapterToken
ann_maps = record {
  user_id = "ann";
  adapter_id = "maps";
  token = "t1";
  created_at = 0;
  expires_at = some 10;
  last_used_at = none;
}

abbrev requests : List (ℕ × Request)
requests = (1, create ann_maps) ∷ (20, get "ann" "maps") ∷ (21, create ann_maps) ∷ []

plain_requests : All (λ r. PlainRequest r.1) requests
plain_requests = (
  ((refl, (refl, (refl, tt))), (refl, (refl, (refl, (refl, tt))))),
  (
    ((refl, (refl, (refl, tt))), (refl, (refl, (refl, (refl, tt))))),
    (((refl, (refl, (refl, tt))), (refl, (refl, (refl, (refl, tt))))), tt),
  ),
)

replies-refine_example : replies requests [] ≡ promised requests nothing
replies-refine_example = replies-refine requests plain_requests

-- The token has expired, and its place is taken.
run :
    replies requests []
    ≡ done ∷ failed (expired "ann" "maps") ∷ failed (already_exists "ann" "maps") ∷ []
unfolding replies serve create_token get_token is_expired make_key lookup insert
run = refl

-- A cipher that changes nothing and writes a nonce of one byte before the text.
abbrev toy : Cipher
toy = record {
  nonce_size = 1;
  seal = λ key salt plain. plain;
  open_sealed = λ key salt text. some text;
  encode = λ bs. bs;
  decode = λ bs. some bs;
}

toy-CipherLaws : CipherLaws toy
toy-CipherLaws = record { open_seal = λ key salt plain h. refl; decode_encode = λ bs. refl }

sealed : encrypt toy (some (7 ∷ [])) (some (9 ∷ [])) (1 ∷ 2 ∷ []) ≡ some (9 ∷ 1 ∷ 2 ∷ [])
unfolding encrypt
sealed = refl

decrypt-encrypt_example : decrypt toy (some (7 ∷ [])) (9 ∷ 1 ∷ 2 ∷ []) ≡ some (1 ∷ 2 ∷ [])
decrypt-encrypt_example =
    decrypt-encrypt toy toy-CipherLaws (some (7 ∷ [])) (9 ∷ []) (1 ∷ 2 ∷ []) (9 ∷ 1 ∷ 2 ∷ []) refl
      sealed
