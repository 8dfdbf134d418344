-- ===== src/Examples/Security.antt =====
-- Passwords and secrets at concrete bytes.
use ashan_frp.Base.{
  ℕ, zero, suc, ◌≡◌, ◌↔◌, refl, String, true, Option, some, List, [], ◌∷◌, length, arith,
}
use ashan_frp.Security.{hash_password, verify_password, derive_encryption_key, encrypt, decrypt}
use ashan_frp.Security.Hex.{AreBytes, hex_encode}
use ashan_frp.Security.Sealed.{verify_password-hash_password, decrypt-encrypt}

-- A key that is the salt, and one byte for each password.
abbrev keyed : String → List ℕ → List ℕ
keyed _ _ = 7 ∷ 255 ∷ []

keyed-AreBytes : (password : String) (drawn : List ℕ) → AreBytes (keyed password drawn)
keyed-AreBytes password drawn = omega arith

abbrev salt : List ℕ
salt = 1 ∷ 171 ∷ []

kept : hash_password keyed (some salt) "secret" ≡ some "01ab:07ff"
unfolding hash_password hex_encode
kept = refl

verify_password-hash_password_example :
    (verify_password keyed "secret" "01ab:07ff" ≡ true)
    ↔ (keyed "secret" salt ≡ keyed "secret" salt)
verify_password-hash_password_example =
    verify_password-hash_password keyed keyed-AreBytes salt "secret" "secret" "01ab:07ff"
      (omega arith) kept

repeat : ℕ → List ℕ
repeat zero = []
repeat (suc n) = 9 ∷ repeat n

length-repeat : (n : ℕ) → length (repeat n) ≡ n
unfolding repeat
length-repeat zero = refl
length-repeat (suc n) = omega (arith, length-repeat n)

-- A passphrase of three bytes.
abbrev keyed_pass : List ℕ
keyed_pass = 97 ∷ 98 ∷ 99 ∷ []

abbrev hash : List ℕ → List ℕ
hash bs = repeat 32

-- A cipher that hides nothing.
abbrev open_seal : List ℕ → List ℕ → List ℕ → List ℕ
open_seal _ _ bs = bs

abbrev nonce : List ℕ
nonce = 1 ∷ 2 ∷ 3 ∷ 4 ∷ 5 ∷ 6 ∷ 7 ∷ 8 ∷ 9 ∷ 10 ∷ 11 ∷ 12 ∷ []

abbrev opened : List ℕ → List ℕ → List ℕ → Option (List ℕ)
opened _ _ bs = some bs

decrypt-encrypt_example :
    (text : String) × (encrypt open_seal opened
        (some nonce)
        salt
        (derive_encryption_key hash keyed_pass)
      ≡ some text)
    × (decrypt open_seal opened text (derive_encryption_key hash keyed_pass) ≡ some salt)
decrypt-encrypt_example =
    decrypt-encrypt hash open_seal opened keyed_pass nonce salt (λ bs. length-repeat 32)
      (λ _ _ bs h. refl) (λ _ _ bs h. h) (omega arith) (omega arith) refl
