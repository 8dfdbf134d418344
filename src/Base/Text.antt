-- ===== src/Base/Text.antt =====
-- Go's `strings` over the native texts. `to_lower` maps the ASCII capitals and the two other
-- letters whose lower case is in ASCII (İ and the Kelvin sign); any other letter stays, which no
-- search for an ASCII text can see.
use Prim.Native.Nat.{ℕ, zero, suc, ◌≤◌, ◌+◌, ◌-◌, ◌/◌, ◌%◌}
use Prim.Native.Char.{Char, code}
use Prim.Native.String.{String, [], ◌∷◌, ◌++◌, char_at}
use mathlib.Core.Bool.{Bool, true, false, not, ◌&&◌, ◌||◌}
use mathlib.Core.Option.{Option, none, some}
use text.Mathlib.Text.{starts_with}
use Prim.Native.String.{len}
use ashan_frp.Base.Tests.{leb, ltb, nat_beq, if◌then◌else◌, Bool-cases}
use mathlib.Core.Logic.{inl, inr}
use native.Mathlib.Omega.{arith}
use ashan_frp.Base.Int.{ℤ, pos, negsuc}

abbrev pub lower_char : Char → Char
lower_char c =
    if leb b'A' (code c) && leb (code c) b'Z'
    then char_at "abcdefghijklmnopqrstuvwxyz" (code c - b'A')
    else if nat_beq (code c) 0x212a
    then char_at "k" 0
    else if nat_beq (code c) 0x130
    then char_at "i" 0
    else c

-- `strings.ToLower`.
unfoldable pub to_lower : String → String
to_lower [] = []
to_lower (c ∷ s) = lower_char c ∷ to_lower s

-- `strings.ReplaceAll` of one ASCII character by another.
unfoldable pub replace_char : ℕ → Char → String → String
replace_char old new [] = []
replace_char old new (c ∷ s) = (if nat_beq (code c) old then new else c) ∷ replace_char old new s

-- `unicode.IsSpace`.
abbrev pub is_space : Char → Bool
is_space c =
    let n = code c in
    (leb 9 n && leb n 13)
    || nat_beq n 32
    || nat_beq n 0x85
    || nat_beq n 0xa0
    || nat_beq n 0x1680
    || (leb 0x2000 n && leb n 0x200a)
    || nat_beq n 0x2028
    || nat_beq n 0x2029
    || nat_beq n 0x202f
    || nat_beq n 0x205f
    || nat_beq n 0x3000

unfoldable pub trim_left : String → String
trim_left [] = []
trim_left (c ∷ s) = let rest = trim_left s in if is_space c then rest else c ∷ s

unfoldable pub trim_right_step : Char → String → String
trim_right_step c [] = if is_space c then [] else c ∷ []
trim_right_step c (d ∷ s) = c ∷ d ∷ s

unfoldable pub trim_right : String → String
unfolding trim_right_step
trim_right [] = []
trim_right (c ∷ s) = trim_right_step c (trim_right s)

-- `strings.TrimSpace`.
unfoldable pub trim_space : String → String
unfolding trim_left trim_right
trim_space s = trim_right (trim_left s)

-- `strings.Contains`.
unfoldable pub contains : String → String → Bool
contains [] t = starts_with [] t
contains (c ∷ s) t = starts_with (c ∷ s) t || contains s t

-- The text after a prefix that it starts with.
unfoldable pub after : String → String → Option String
after [] s = some s
after (c ∷ p) [] = none
after (c ∷ p) (d ∷ s) = let rest = after p s in if nat_beq (code c) (code d) then rest else none

-- No character of the text has this code.
abbrev pub lacks : ℕ → String → Bool
lacks n [] = true
lacks n (c ∷ s) = not (nat_beq (code c) n) && lacks n s

-- A decimal numeral, with fuel for the digits.
show_from : ℕ → ℕ → String
show_from zero n = ""
show_from (suc f) n =
    let front = show_from f (n / 10) in
    let digit = char_at "0123456789" (n % 10) ∷ [] in if ltb n 10 then digit else front ++ digit

-- `%d` of a number that is not negative.
unfoldable pub show_nat : ℕ → String
unfolding show_from
show_nat n = show_from (suc n) n

-- `%d`.
unfoldable pub show_int : ℤ → String
unfolding show_nat
show_int (pos n) = show_nat n
show_int (negsuc n) = "-" ++ show_nat (suc n)

-- `%v` of a `bool`.
abbrev pub show_bool : Bool → String
show_bool true = "true"
show_bool false = "false"

hex_byte : ℕ → String
hex_byte n = char_at "0123456789abcdef" (n / 16) ∷ char_at "0123456789abcdef" (n % 16) ∷ []

-- One character under `%q`.
quote_char : Char → String
unfolding hex_byte
quote_char c =
    let n = code c in
    if nat_beq n b'"'
    then "\\\""
    else if nat_beq n b'\\'
    then "\\\\"
    else if nat_beq n 7
    then "\\a"
    else if nat_beq n 8
    then "\\b"
    else if nat_beq n 9
    then "\\t"
    else if nat_beq n 10
    then "\\n"
    else if nat_beq n 11
    then "\\v"
    else if nat_beq n 12
    then "\\f"
    else if nat_beq n 13
    then "\\r"
    else if ltb n 32 || nat_beq n 127
    then "\\x" ++ hex_byte n
    else c ∷ []

quote_chars : String → String
quote_chars [] = []
quote_chars (c ∷ s) = quote_char c ++ quote_chars s

-- `%q`, for texts whose characters above ASCII are printable.
unfoldable pub quote : String → String
unfolding quote_chars quote_char
quote s = "\"" ++ (quote_chars s ++ "\"")

abbrev pub upper_char : Char → Char
upper_char c =
    if leb b'a' (code c) && leb (code c) b'z'
    then char_at "ABCDEFGHIJKLMNOPQRSTUVWXYZ" (code c - b'a')
    else if nat_beq (code c) 0x131
    then char_at "I" 0
    else if nat_beq (code c) 0x17f
    then char_at "S" 0
    else c

-- `strings.ToUpper`: as `to_lower`, the two other letters whose upper case is in ASCII (ı and ſ).
unfoldable pub to_upper : String → String
to_upper [] = []
to_upper (c ∷ s) = upper_char c ∷ to_upper s

-- The length in bytes of one character in UTF-8.
abbrev pub char_bytes : Char → ℕ
char_bytes c =
    let n = code c in
    if ltb n 0x80 then 1 else if ltb n 0x800 then 2 else if ltb n 0x10000 then 3 else 4

-- `len`.
unfoldable pub bytes : String → ℕ
bytes [] = 0
bytes (c ∷ s) = char_bytes c + bytes s

-- `strings.ReplaceAll`, for an old text that is not empty; `skip` characters are still part of it.
unfoldable pub replace_from : ℕ → String → String → String → String
replace_from skip old new [] = []
replace_from zero old new (c ∷ s) =
    let here = new ++ replace_from (len old - 1) old new s in
    let there = c ∷ replace_from 0 old new s in if starts_with (c ∷ s) old then here else there
replace_from (suc n) old new (c ∷ s) = replace_from n old new s

unfoldable pub replace_all : String → String → String → String
unfolding replace_from
replace_all old new s = replace_from 0 old new s

-- The text without its first bytes; a character that is cut goes as a whole.
unfoldable pub drop_bytes : ℕ → String → String
drop_bytes n [] = []
drop_bytes n (c ∷ s) =
    let rest = drop_bytes (n - char_bytes c) s in if nat_beq n 0 then c ∷ s else rest

-- The first bytes of the text; a character that is cut is left out.
unfoldable pub take_bytes : ℕ → String → String
take_bytes n [] = []
take_bytes n (c ∷ s) =
    let rest = take_bytes (n - char_bytes c) s in if leb (char_bytes c) n then c ∷ rest else []

pub bytes-take_bytes : (n : ℕ) (s : String) → bytes (take_bytes n s) ≤ n
unfolding take_bytes bytes
bytes-take_bytes n [] = omega arith
bytes-take_bytes n (c ∷ s) = elim (Bool-cases (leb (char_bytes c) n)) [
  | inl fits ↦
      rw fits (let rest = bytes-take_bytes (n - char_bytes c) s in ground (arith, rest, fits))
  | inr cut ↦ rw cut (omega arith)
]
