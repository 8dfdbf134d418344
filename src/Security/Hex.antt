-- ===== src/Security/Hex.antt =====
-- Go's `encoding/hex` over lists of bytes, and `strings.Split` at a colon.
use Prim.Native.Char.{Char, code}
use Prim.Native.String.{String, [], ◌∷◌, ◌++◌, char_at}
use Prim.Native.String.append
use mathlib.Core.List.{List}
use ashan_frp.Base.{
  ℕ, zero, suc, ◌+◌, ◌*◌, ◌-◌, ◌/◌, ◌%◌, ◌<◌, leb, nat_beq, ◌≡◌, refl, ap, true, false, ◌&&◌,
  Option, none, some, All, arith, Bool-cases, inl, inr,
}
use ashan_frp.Base.{if◌then◌else◌}
use ashan_frp.Base.Text.{lacks}

abbrev pub hex_digit : ℕ → Char
hex_digit n = char_at "0123456789abcdef" n

unfoldable pub hex_encode : List ℕ → String
hex_encode List.[] = []
hex_encode (List.◌∷◌ b bs) = hex_digit (b / 16) ∷ hex_digit (b % 16) ∷ hex_encode bs

-- The value of a digit, in either case.
unfoldable pub hex_value : Char → Option ℕ
hex_value c =
    let n = code c in
    if leb b'0' n && leb n b'9'
    then some (n - 48)
    else if leb b'a' n && leb n b'f'
    then some (n - 87)
    else if leb b'A' n && leb n b'F'
    then some (n - 55)
    else none

hex_pair : Option ℕ → Option ℕ → Option (List ℕ) → Option (List ℕ)
hex_pair none low rest = none
hex_pair (some high) none rest = none
hex_pair (some high) (some low) none = none
hex_pair (some high) (some low) (some bs) = some (List.◌∷◌ (high * 16 + low) bs)

-- `hex.DecodeString`.
unfoldable pub hex_decode : String → Option (List ℕ)
unfolding hex_pair hex_value
hex_decode [] = some List.[]
hex_decode (c ∷ []) = none
hex_decode (c ∷ d ∷ s) = hex_pair (hex_value c) (hex_value d) (hex_decode s)

push_char : Char → List String → List String
push_char c List.[] = List.◌∷◌ (c ∷ []) List.[]
push_char c (List.◌∷◌ p ps) = List.◌∷◌ (c ∷ p) ps

-- `strings.Split(s, ":")`.
unfoldable pub split_colon : String → List String
unfolding push_char
split_colon [] = List.◌∷◌ [] List.[]
split_colon (c ∷ s) =
    let rest = split_colon s in if nat_beq (code c) b':' then List.◌∷◌ [] rest else push_char c rest

abbrev pub AreBytes : List ℕ → Type 0
AreBytes bs = All (λ b. b < 256) bs

hex_value-hex_digit : (n : ℕ) → n < 16 → hex_value (hex_digit n) ≡ some n
unfolding hex_value
hex_value-hex_digit zero h = refl
hex_value-hex_digit (suc zero) h = refl
hex_value-hex_digit (suc (suc zero)) h = refl
hex_value-hex_digit (suc (suc (suc zero))) h = refl
hex_value-hex_digit (suc (suc (suc (suc zero)))) h = refl
hex_value-hex_digit (suc (suc (suc (suc (suc zero))))) h = refl
hex_value-hex_digit (suc (suc (suc (suc (suc (suc zero)))))) h = refl
hex_value-hex_digit (suc (suc (suc (suc (suc (suc (suc zero))))))) h = refl
hex_value-hex_digit (suc (suc (suc (suc (suc (suc (suc (suc zero)))))))) h = refl
hex_value-hex_digit (suc (suc (suc (suc (suc (suc (suc (suc (suc zero))))))))) h = refl
hex_value-hex_digit (suc (suc (suc (suc (suc (suc (suc (suc (suc (suc zero)))))))))) h = refl
hex_value-hex_digit (suc (suc (suc (suc (suc (suc (suc (suc (suc (suc (suc zero))))))))))) h = refl
hex_value-hex_digit (suc (suc (suc (suc (suc (suc (suc (suc (suc (suc (suc (suc zero)))))))))))) h =
    refl
hex_value-hex_digit
      (suc (suc (suc (suc (suc (suc (suc (suc (suc (suc (suc (suc (suc zero))))))))))))) h =
    refl
hex_value-hex_digit
      (suc (suc (suc (suc (suc (suc (suc (suc (suc (suc (suc (suc (suc (suc zero)))))))))))))) h =
    refl
hex_value-hex_digit
      (suc (suc (suc (suc (suc (suc (suc (suc (suc (suc (suc (suc (suc (suc (suc zero)))))))))))))))
      h =
    refl
hex_value-hex_digit
      (suc
        (suc (suc (suc (suc (suc (suc (suc (suc (suc (suc (suc (suc (suc (suc (suc n))))))))))))))))
      h =
    absurd (omega arith)

pub hex_decode-hex_encode : (bs : List ℕ) → AreBytes bs → hex_decode (hex_encode bs) ≡ some bs
unfolding hex_decode hex_encode hex_pair
hex_decode-hex_encode List.[] h = refl
hex_decode-hex_encode (List.◌∷◌ b bs) (small, rest) =
    rw
      (
        hex_value-hex_digit (b / 16) (omega arith),
        hex_value-hex_digit (b % 16) (omega arith),
        hex_decode-hex_encode bs rest,
      )
      (ap (λ n. some (List.◌∷◌ n bs)) (omega arith))

hex_digit-colon : (n : ℕ) → n < 16 → nat_beq (code (hex_digit n)) b':' ≡ false
hex_digit-colon zero h = refl
hex_digit-colon (suc zero) h = refl
hex_digit-colon (suc (suc zero)) h = refl
hex_digit-colon (suc (suc (suc zero))) h = refl
hex_digit-colon (suc (suc (suc (suc zero)))) h = refl
hex_digit-colon (suc (suc (suc (suc (suc zero))))) h = refl
hex_digit-colon (suc (suc (suc (suc (suc (suc zero)))))) h = refl
hex_digit-colon (suc (suc (suc (suc (suc (suc (suc zero))))))) h = refl
hex_digit-colon (suc (suc (suc (suc (suc (suc (suc (suc zero)))))))) h = refl
hex_digit-colon (suc (suc (suc (suc (suc (suc (suc (suc (suc zero))))))))) h = refl
hex_digit-colon (suc (suc (suc (suc (suc (suc (suc (suc (suc (suc zero)))))))))) h = refl
hex_digit-colon (suc (suc (suc (suc (suc (suc (suc (suc (suc (suc (suc zero))))))))))) h = refl
hex_digit-colon (suc (suc (suc (suc (suc (suc (suc (suc (suc (suc (suc (suc zero)))))))))))) h =
    refl
hex_digit-colon (suc (suc (suc (suc (suc (suc (suc (suc (suc (suc (suc (suc (suc zero)))))))))))))
      h =
    refl
hex_digit-colon
      (suc (suc (suc (suc (suc (suc (suc (suc (suc (suc (suc (suc (suc (suc zero)))))))))))))) h =
    refl
hex_digit-colon
      (suc (suc (suc (suc (suc (suc (suc (suc (suc (suc (suc (suc (suc (suc (suc zero)))))))))))))))
      h =
    refl
hex_digit-colon
      (suc
        (suc (suc (suc (suc (suc (suc (suc (suc (suc (suc (suc (suc (suc (suc (suc n))))))))))))))))
      h =
    absurd (omega arith)

pub lacks-hex_encode : (bs : List ℕ) → AreBytes bs → lacks b':' (hex_encode bs) ≡ true
unfolding hex_encode
lacks-hex_encode List.[] h = refl
lacks-hex_encode (List.◌∷◌ b bs) (small, rest) =
    rw
      (
        hex_digit-colon (b / 16) (omega arith),
        hex_digit-colon (b % 16) (omega arith),
        lacks-hex_encode bs rest,
      )
      refl

pub split_colon-lacks : (s : String) → lacks b':' s ≡ true → split_colon s ≡ List.◌∷◌ s List.[]
unfolding split_colon push_char
split_colon-lacks [] h = refl
split_colon-lacks (c ∷ s) h = elim (Bool-cases (nat_beq (code c) b':')) [
  | inl colon ↦ absurd (cc (rw colon at h))
  | inr other ↦ rw (other, split_colon-lacks s (rw other at h)) refl
]

pub split_colon-append :
    (s t : String)
    → lacks b':' s ≡ true
    → split_colon (s ++ (":" ++ t)) ≡ List.◌∷◌ s (split_colon t)
unfolding split_colon push_char
split_colon-append [] t h =
    rw (append.nil (":" ++ t), append.cons (char_at ":" 0) "" t, append.nil t) refl
split_colon-append (c ∷ s) t h = elim (Bool-cases (nat_beq (code c) b':')) [
  | inl colon ↦ absurd (cc (rw colon at h))
  | inr other ↦ rw (append.cons c s (":" ++ t), other, split_colon-append s t (rw other at h)) refl
]
