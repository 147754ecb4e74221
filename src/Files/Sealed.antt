-- ===== src/Files/Sealed.antt =====
-- The keys and the round trip of `StorageCrypto` (pkg/clients/crypto.go).
use suse_ai_up.Prelude.{
  ℕ, zero, suc, ◌-◌, ◌≤◌, [], ◌∷◌, ◌++◌, none, some, ltb, length, length-append, ◌≡◌, refl, ap, sym,
  subst, ◌∙◌, false, Bool-cases, inl, inr, arith,
}
use suse_ai_up.Files.Crypto.{
  Bytes, Cipher, StorageCrypto, take, drop, zeros, pad_key, new_storage_crypto, encrypt, open_text,
  decrypt,
}

-- What Go documents of AES-GCM and base64.
pub record CipherLaws (cipher : Cipher) : Type 0 where
  pub open_seal :
      (key salt plain : Bytes)
      → length salt ≡ cipher.nonce_size
      → cipher.open_sealed key salt (cipher.seal key salt plain) ≡ some plain
  pub decode_encode : (bs : Bytes) → cipher.decode (cipher.encode bs) ≡ some bs

length-take : (n : ℕ) (bs : Bytes) → n ≤ length bs → length (take n bs) ≡ n
length-take zero bs h = refl
length-take (suc n) [] h = absurd (omega arith)
length-take (suc n) (b ∷ bs) h = ap suc (length-take n bs (omega arith))

length-zeros : (n : ℕ) → length (zeros n) ≡ n
length-zeros zero = refl
length-zeros (suc n) = ap suc (length-zeros n)

take-append : (front bs : Bytes) → take (length front) (front ++ bs) ≡ front
take-append [] bs = refl
take-append (a ∷ front) bs = ap (λ l. a ∷ l) (take-append front bs)

drop-append : (front bs : Bytes) → drop (length front) (front ++ bs) ≡ bs
drop-append [] bs = refl
drop-append (a ∷ front) bs = drop-append front bs

length-pad_key : (key : Bytes) → length (pad_key key) ≡ 32
unfolding pad_key
length-pad_key key = elim (Bool-cases (ltb 32 (length key))) [
  | inl e ↦ rw e (length-take 32 key (ground arith))
  | inr e ↦ rw e (
      length-append key (zeros (32 - length key))
      ∙ rw (length-zeros (32 - length key)) (ground arith))
]

-- A `StorageCrypto` with a key has a key of 32 bytes.
pub length-new_storage_crypto :
    (text key : Bytes) → new_storage_crypto text ≡ some (some key) → length key ≡ 32
unfolding new_storage_crypto
length-new_storage_crypto [] key h = cc
length-new_storage_crypto (b ∷ bs) key h = elim (Bool-cases (ltb (length (b ∷ bs)) 16)) [
  | inl e ↦ absurd (cc (rw e at h))
  | inr e ↦
      let same : pad_key (b ∷ bs) ≡ key = cc (rw e at h) in
      ap length (sym same) ∙ length-pad_key (b ∷ bs)
]

module _ (cipher : Cipher) (laws : CipherLaws cipher) where
  open_text-seal :
      (key salt plain : Bytes)
      → length salt ≡ cipher.nonce_size
      → open_text cipher key (salt ++ cipher.seal key salt plain) ≡ some plain
  unfolding open_text
  open_text-seal key salt plain h =
      let text = salt ++ cipher.seal key salt plain in
      let long : ltb (length text) cipher.nonce_size ≡ false =
        rw (length-append salt (cipher.seal key salt plain)) (ground arith) in
      let first : take cipher.nonce_size text ≡ salt =
        subst (λ n. take n text ≡ salt) h (take-append salt (cipher.seal key salt plain)) in
      let second : drop cipher.nonce_size text ≡ cipher.seal key salt plain =
        subst (λ n. drop n text ≡ cipher.seal key salt plain) h
          (drop-append salt (cipher.seal key salt plain)) in
      rw (open_text, long, first, second) (laws.open_seal key salt plain h)

  -- What `Encrypt` wrote, with whatever nonce of the cipher's size, `Decrypt` with the same key
  -- gives back.
  pub decrypt-encrypt :
      (sc : StorageCrypto) (salt plain sealed : Bytes)
      → length salt ≡ cipher.nonce_size
      → encrypt cipher sc (some salt) plain ≡ some sealed
      → decrypt cipher sc sealed ≡ some plain
  unfolding encrypt decrypt
  decrypt-encrypt none salt plain sealed n h = cc
  decrypt-encrypt (some []) salt plain sealed n h = cc
  decrypt-encrypt (some (k ∷ ks)) salt plain sealed n h =
      let same : cipher.encode (salt ++ cipher.seal (k ∷ ks) salt plain) ≡ sealed = cc in
      rw (← same, decrypt, laws.decode_encode) (open_text-seal (k ∷ ks) salt plain n)
