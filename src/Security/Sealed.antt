-- ===== src/Security/Sealed.antt =====
-- What is sealed comes back, and a password is verified by the hash that was kept of it.
use ashan_frp.Base.{
  ℕ, ltb, nat_beq, nat_beq_iff, ◌≡◌, ◌↔◌, refl, sym, ◌∙◌, String, true, false, Bool-cases, inl, inr,
  Option, none, some, List, [], ◌∷◌, ◌++◌, length, length-append, arith, some_inj,
}
use ashan_frp.Security.{
  same_bytes, hash_password, verify_decoded, verify_parts, verify_password, derive_encryption_key,
  is_key, nonce_size, split_bytes, encrypt_with, encrypt, unseal_parts, decrypt_bytes, decrypt,
}
use ashan_frp.Security.Hex.{
  AreBytes, hex_encode, hex_decode, hex_decode-hex_encode, lacks-hex_encode, split_colon-lacks,
  split_colon-append,
}

same_bytes_iff : (as1 bs : List ℕ) → (same_bytes as1 bs ≡ true) ↔ (as1 ≡ bs)
unfolding same_bytes
same_bytes_iff [] [] = (λ e. refl, λ e. refl)
same_bytes_iff [] (b ∷ bs) = (λ e. cc, λ e. cc)
same_bytes_iff (a ∷ as1) [] = (λ e. cc, λ e. cc)
same_bytes_iff (a ∷ as1) (b ∷ bs) = ground (arith, same_bytes_iff as1 bs, nat_beq_iff a b)

module _ (id_key : String → List ℕ → List ℕ)
    (bytes : (password : String) (salt : List ℕ) → AreBytes (id_key password salt)) where
  -- A password is verified by what `HashPassword` has made of another exactly where the two have the
  -- same key under the salt that was drawn, as each password has with itself. The assumptions are
  -- that the salt and the keys are bytes.
  pub verify_password-hash_password :
      (salt : List ℕ) (kept given hash : String)
      → AreBytes salt
      → hash_password id_key (some salt) kept ≡ some hash
      → (verify_password id_key given hash ≡ true) ↔ (id_key given salt ≡ id_key kept salt)
  unfolding hash_password verify_password verify_parts verify_decoded
  verify_password-hash_password salt kept given hash h e =
      rw
        (
          sym (some_inj e),
          split_colon-append (hex_encode salt) (hex_encode (id_key kept salt))
              (lacks-hex_encode salt h),
          split_colon-lacks (hex_encode (id_key kept salt))
              (lacks-hex_encode (id_key kept salt) (bytes kept salt)),
          hex_decode-hex_encode salt h,
          hex_decode-hex_encode (id_key kept salt) (bytes kept salt),
        )
        (same_bytes_iff (id_key given salt) (id_key kept salt))

-- A key of a passphrase always fits the cipher.
is_key-derive_encryption_key :
    (sha256 : List ℕ → List ℕ) (passphrase : List ℕ)
    → ((bs : List ℕ) → length (sha256 bs) ≡ 32)
    → is_key (derive_encryption_key sha256 passphrase) ≡ true
unfolding is_key derive_encryption_key
is_key-derive_encryption_key sha256 passphrase size =
    elim (Bool-cases (nat_beq (length passphrase) 32)) [
      | inl own ↦ rw own (ground (arith, own))
      | inr other ↦ rw other (rw (size passphrase) refl)
    ]

split_bytes-append :
    (front rest : List ℕ) → split_bytes (length front) (front ++ rest) ≡ (front, rest)
unfolding split_bytes
split_bytes-append [] rest = refl
split_bytes-append (b ∷ bs) rest = rw (split_bytes-append bs rest) refl

AreBytes-append : (xs ys : List ℕ) → AreBytes xs → AreBytes ys → AreBytes (xs ++ ys)
AreBytes-append [] ys h k = k
AreBytes-append (x ∷ xs) ys (small, h) k = (small, AreBytes-append xs ys h k)

module _ (sha256 : List ℕ → List ℕ) (seal : List ℕ → List ℕ → List ℕ → List ℕ)
    (unseal : List ℕ → List ℕ → List ℕ → Option (List ℕ)) where
  decrypt_bytes-append :
      (key nonce sealed : List ℕ)
      → is_key key ≡ true
      → length nonce ≡ nonce_size
      → decrypt_bytes seal unseal key (some (nonce ++ sealed)) ≡ unseal key nonce sealed
  unfolding decrypt_bytes unseal_parts
  decrypt_bytes-append key nonce sealed fits size =
      let long : ltb (length (nonce ++ sealed)) nonce_size ≡ false =
        ground (arith, length-append nonce sealed, size) in
      rw (fits, long, sym size, split_bytes-append nonce sealed) refl

  -- A text of bytes that is sealed under the key of a passphrase, of whatever length, with a nonce of twelve bytes,
  -- is given back under that key, and nothing that `Encrypt` is given under it is refused. The
  -- assumptions are that SHA-256 has 32 bytes, that the cipher opens what it has sealed, and that it
  -- seals bytes as bytes.
  pub decrypt-encrypt :
      (passphrase nonce plaintext : List ℕ)
      → ((bs : List ℕ) → length (sha256 bs) ≡ 32)
      → ((key nonce bs : List ℕ) → AreBytes bs → unseal key nonce (seal key nonce bs) ≡ some bs)
      → ((key nonce bs : List ℕ) → AreBytes bs → AreBytes (seal key nonce bs))
      → AreBytes plaintext
      → AreBytes nonce
      → length nonce ≡ nonce_size
      → let key = derive_encryption_key sha256 passphrase in
        (sealed : String) × (encrypt seal unseal (some nonce) plaintext key ≡ some sealed)
        × (decrypt seal unseal sealed key ≡ some plaintext)
  unfolding encrypt encrypt_with decrypt
  decrypt-encrypt passphrase nonce plaintext size opened bytes plain small twelve =
      let key = derive_encryption_key sha256 passphrase in
      let fits = is_key-derive_encryption_key sha256 passphrase size in
      let sealed = seal key nonce plaintext in
      (
        hex_encode (nonce ++ sealed),
        rw fits refl,
        rw
            (hex_decode-hex_encode (nonce ++ sealed)
              (AreBytes-append nonce sealed small (bytes key nonce plaintext plain)))
            (decrypt_bytes-append key nonce sealed fits twelve ∙ opened key nonce plaintext plain),
      )

  -- Nothing is opened of an empty text, as a credential without a secret holds it.
  pub decrypt-empty : (key : List ℕ) → decrypt seal unseal "" key ≡ none
  unfolding decrypt hex_decode decrypt_bytes
  decrypt-empty key = elim (Bool-cases (is_key key)) [
    | inl fits ↦ rw fits refl
    | inr off ↦ rw off refl
  ]
