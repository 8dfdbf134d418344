-- ===== src/Security.antt =====
-- frp-backend/internal/security/security.go, with bytes as lists of numbers: how a password is kept
-- and verified, the hash of a token, and how a secret is sealed. Argon2, SHA-256, the cipher and the
-- random bytes are parameters.
pub mod Hex
pub mod Sealed
use ashan_frp.Base.{
  ℕ, zero, suc, ltb, nat_beq, String, ◌<>◌, Bool, true, false, ◌&&◌, ◌||◌, Option, none, some, List,
  [], ◌∷◌, length, ◌++◌,
}
use ashan_frp.Base.{if◌then◌else◌}
use ashan_frp.Security.Hex.{hex_encode, hex_decode, split_colon}

-- `subtle.ConstantTimeCompare`, as a test.
unfoldable pub same_bytes : List ℕ → List ℕ → Bool
same_bytes [] [] = true
same_bytes [] (b ∷ bs) = false
same_bytes (a ∷ as1) [] = false
same_bytes (a ∷ as1) (b ∷ bs) = nat_beq a b && same_bytes as1 bs

-- `argon2.IDKey` with the parameters of the source.
module _ (id_key : String → List ℕ → List ℕ) where
  -- `HashPassword`; none are random bytes that cannot be had.
  unfoldable pub hash_password : Option (List ℕ) → String → Option String
  unfolding hex_encode
  hash_password none password = none
  hash_password (some salt) password =
      some (hex_encode salt <> (":" <> hex_encode (id_key password salt)))

  verify_decoded : String → Option (List ℕ) → Option (List ℕ) → Bool
  unfolding same_bytes
  verify_decoded password none expected = false
  verify_decoded password (some salt) none = false
  verify_decoded password (some salt) (some expected) = same_bytes (id_key password salt) expected

  verify_parts : String → List String → Bool
  unfolding verify_decoded
  verify_parts password (salt ∷ hash ∷ []) =
      verify_decoded password (hex_decode salt) (hex_decode hash)
  verify_parts password _ = false

  unfoldable pub verify_password : String → String → Bool
  unfolding verify_parts
  verify_password password encoded = verify_parts password (split_colon encoded)

module _ (sha256 : List ℕ → List ℕ) where
  unfoldable pub hash_token : List ℕ → String
  hash_token token = "tok_" <> hex_encode (sha256 token)

  unfoldable pub derive_encryption_key : List ℕ → List ℕ
  derive_encryption_key passphrase =
      if nat_beq (length passphrase) 32 then passphrase else sha256 passphrase

-- `aes.NewCipher` takes a key of one of these lengths.
unfoldable pub is_key : List ℕ → Bool
is_key key = nat_beq (length key) 16 || nat_beq (length key) 24 || nat_beq (length key) 32

abbrev pub nonce_size : ℕ
nonce_size = 12

-- The first bytes and the rest.
unfoldable pub split_bytes : ℕ → List ℕ → List ℕ × List ℕ
split_bytes zero bs = ([], bs)
split_bytes (suc n) [] = ([], [])
split_bytes (suc n) (b ∷ bs) = let (front, rest) = split_bytes n bs in (b ∷ front, rest)

-- Seal and open of AES in GCM mode: the key, the nonce and the bytes.
module _ (seal : List ℕ → List ℕ → List ℕ → List ℕ)
    (unseal : List ℕ → List ℕ → List ℕ → Option (List ℕ)) where
  encrypt_with : List ℕ → List ℕ → Option (List ℕ) → Option String
  encrypt_with key plaintext none = none
  encrypt_with key plaintext (some nonce) = some (hex_encode (nonce ++ seal key nonce plaintext))

  -- `Encrypt`, with its random nonce, none where it cannot be had.
  unfoldable pub encrypt : Option (List ℕ) → List ℕ → List ℕ → Option String
  unfolding encrypt_with is_key
  encrypt nonce plaintext key = if is_key key then encrypt_with key plaintext nonce else none

  unseal_parts : List ℕ → List ℕ × List ℕ → Option (List ℕ)
  unseal_parts key (nonce, ciphertext) = unseal key nonce ciphertext

  decrypt_bytes : List ℕ → Option (List ℕ) → Option (List ℕ)
  unfolding is_key unseal_parts split_bytes
  decrypt_bytes key none = none
  decrypt_bytes key (some sealed) =
      if is_key key
      then if ltb (length sealed) nonce_size
        then none
        else unseal_parts key (split_bytes nonce_size sealed)
      else none

  unfoldable pub decrypt : String → List ℕ → Option (List ℕ)
  unfolding decrypt_bytes
  decrypt encoded key = decrypt_bytes key (hex_decode encoded)
