-- ===== src/Base/Atoi.antt =====
-- Go's `strconv.Atoi`, without its error: a text that is no numeral gives 0, and a number out of range
-- the nearest one of 64 bits.
use Prim.Native.Nat.{ℕ, zero, suc, ◌+◌, ◌-◌, ◌*◌}
use Prim.Native.Char.{code}
use Prim.Native.String.{String, [], ◌∷◌}
use mathlib.Core.Bool.{Bool, true, false, ◌&&◌}
use ashan_frp.Base.Tests.{leb, nat_beq, if◌then◌else◌}
use ashan_frp.Base.Int.{ℤ, pos, negsuc}

-- `ParseUint` stops at the first character that is no digit, or that takes it out of range.
pub data Digits : Type 0 where
  syntax : Digits
  range : Digits
  value : ℕ → Digits

digits_from : ℕ → String → Digits
digits_from n [] = value n
digits_from n (c ∷ s) =
    let m = n * 10 + (code c - b'0') in
    let rest = digits_from m s in
    if leb b'0' (code c) && leb (code c) b'9'
    then if leb 0x10000000000000000 m then range else rest
    else syntax

digits : String → Digits
unfolding digits_from
digits [] = syntax
digits (c ∷ s) = digits_from 0 (c ∷ s)

negated : ℕ → ℤ
negated zero = pos 0
negated (suc n) = negsuc n

-- The number of the digits, with its sign, in 64 bits.
signed : Bool → Digits → ℤ
unfolding negated
signed minus syntax = pos 0
signed minus range = if minus then negsuc 0x7fffffffffffffff else pos 0x7fffffffffffffff
signed minus (value n) =
    if minus
    then if leb 0x8000000000000000 n then negsuc 0x7fffffffffffffff else negated n
    else if leb 0x8000000000000000 n
    then pos 0x7fffffffffffffff
    else pos n

unfoldable pub atoi : String → ℤ
unfolding digits signed
atoi [] = pos 0
atoi (c ∷ s) =
    if nat_beq (code c) b'-'
    then signed true (digits s)
    else if nat_beq (code c) b'+'
    then signed false (digits s)
    else signed false (digits (c ∷ s))
