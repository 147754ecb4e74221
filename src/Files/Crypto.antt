-- ===== src/Files/Crypto.antt =====
-- `StorageCrypto` of pkg/clients/crypto.go. AES-GCM, base64 and the random nonce are parameters; a
-- byte is a number.
use suse_ai_up.Prelude.{
  ℕ, zero, suc, ◌-◌, List, [], ◌∷◌, ◌++◌, Option, none, some, ltb, length, if◌then◌else◌,
}

abbrev pub Bytes : Type 0
Bytes = List ℕ

-- What the code uses of crypto/aes, crypto/cipher and encoding/base64.
pub record Cipher : Type 0 where
  -- `gcm.NonceSize()`
  pub nonce_size : ℕ
  -- `gcm.Seal(nil, salt, plain, nil)` and `gcm.Open(nil, salt, sealed, nil)`
  pub seal : (key salt plain : Bytes) → Bytes
  pub open_sealed : (key salt sealed : Bytes) → Option Bytes
  pub encode : Bytes → Bytes
  pub decode : Bytes → Option Bytes

-- A `*StorageCrypto`, none for nil.
abbrev pub StorageCrypto : Type 0
StorageCrypto = Option Bytes

pub data CryptoError : Type 0 where
  key_too_short : CryptoError

-- `key[:n]` and `key[n:]`
abbrev pub take : ℕ → Bytes → Bytes
take zero bs = []
take (suc n) [] = []
take (suc n) (b ∷ bs) = b ∷ take n bs

abbrev pub drop : ℕ → Bytes → Bytes
drop zero bs = bs
drop (suc n) [] = []
drop (suc n) (b ∷ bs) = drop n bs

abbrev pub zeros : ℕ → Bytes
zeros zero = []
zeros (suc n) = 0 ∷ zeros n

-- 32 bytes: cut off, or filled with zeros.
unfoldable pub pad_key : Bytes → Bytes
pad_key key = if ltb 32 (length key) then take 32 key else key ++ zeros (32 - length key)

-- The key's text as bytes; the first none is the error.
unfoldable pub new_storage_crypto : Bytes → Option StorageCrypto
new_storage_crypto [] = some none
new_storage_crypto (b ∷ bs) =
    if ltb (length (b ∷ bs)) 16 then none else some (some (pad_key (b ∷ bs)))

module _ (cipher : Cipher) where
  -- `salt`, the nonce, is what `io.ReadFull` reads, none for an error. A key of `NewStorageCrypto` has 32
  -- bytes, which `aes.NewCipher` and `cipher.NewGCM` accept.
  unfoldable pub encrypt : StorageCrypto → (salt : Option Bytes) → Bytes → Option Bytes
  encrypt none salt plain = some plain
  encrypt (some []) salt plain = some plain
  encrypt (some (k ∷ ks)) none plain = none
  encrypt (some (k ∷ ks)) (some salt) plain =
      some (cipher.encode (salt ++ cipher.seal (k ∷ ks) salt plain))

  -- The part after the base64.
  unfoldable pub open_text : (key text : Bytes) → Option Bytes
  open_text key text =
      if ltb (length text) cipher.nonce_size
      then none
      else cipher.open_sealed key (take cipher.nonce_size text) (drop cipher.nonce_size text)

  unfoldable pub decrypt : StorageCrypto → Bytes → Option Bytes
  decrypt none sealed = some sealed
  decrypt (some []) sealed = some sealed
  decrypt (some (k ∷ ks)) sealed = elim (cipher.decode sealed) [
    | none ↦ some sealed
    | some text ↦ open_text (k ∷ ks) text
  ]
