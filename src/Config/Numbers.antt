-- ===== src/Config/Numbers.antt =====
-- Go's `strconv.Atoi` and the verb `%d`, for the `int` of 64 bits that the services use.
pub mod RoundTrip
use Prim.Native.Char.{Char, code}
use obarena.Prelude.{
  ℕ, zero, suc, ◌+◌, ◌-◌, ◌*◌, ◌/◌, ◌%◌, ◌^◌, ◌<◌, String, Bool, ◌&&◌, leb, ltb, ◌==◌,
  if◌then◌else◌, ℤ, pos, negsuc, Option, none, some,
}

-- An `int`.
abbrev pub IsInt : ℤ → Type 0
IsInt (pos n) = n < 2 ^ 63
IsInt (negsuc n) = n < 2 ^ 63

abbrev pub is_digit : ℕ → Bool
is_digit c = leb b'0' c && leb c b'9'

-- The number that the digits of a text spell after `n`.
unfoldable pub scan : String → ℕ → Option ℕ
scan String.[] n = some n
scan (String.◌∷◌ c s) n =
    let rest = scan s (n * 10 + (code c - b'0')) in if is_digit (code c) then rest else none

unfoldable pub scan_some : String → Option ℕ
unfolding scan
scan_some String.[] = none
scan_some (String.◌∷◌ c s) = scan (String.◌∷◌ c s) 0

abbrev pub minus : ℕ → ℤ
minus zero = pos 0
minus (suc n) = negsuc n

unfoldable pub positive_int : Option ℕ → Option ℤ
positive_int none = none
positive_int (some n) = if ltb n (2 ^ 63) then some (pos n) else none

unfoldable pub negative_int : Option ℕ → Option ℤ
negative_int none = none
negative_int (some n) = if leb n (2 ^ 63) then some (minus n) else none

-- `none` is an error: no digits, another character, or a number out of range.
unfoldable pub atoi : String → Option ℤ
unfolding scan_some positive_int negative_int
atoi String.[] = none
atoi (String.◌∷◌ c s) =
    if code c == b'-'
    then negative_int (scan_some s)
    else if code c == b'+'
    then positive_int (scan_some s)
    else positive_int (scan_some (String.◌∷◌ c s))

unfoldable pub digit : ℕ → Char
digit n =
    if n == 0
    then "0"
    else if n == 1
    then "1"
    else if n == 2
    then "2"
    else if n == 3
    then "3"
    else if n == 4
    then "4"
    else if n == 5
    then "5"
    else if n == 6
    then "6"
    else if n == 7
    then "7"
    else if n == 8
    then "8"
    else "9"

-- The digits of `n` before a text; `n` rounds are enough.
unfoldable pub digits : ℕ → ℕ → String → String
unfolding digit
digits zero n out = out
digits (suc fuel) n out =
    let rest = digits fuel (n / 10) (String.◌∷◌ (digit (n % 10)) out) in
    if n == 0 then out else rest

unfoldable pub format_nat : ℕ → String
unfolding digits
format_nat n = if n == 0 then "0" else digits n n ""

-- `%d`
unfoldable pub format_int : ℤ → String
unfolding format_nat
format_int (pos n) = format_nat n
format_int (negsuc n) = String.◌∷◌ "-" (format_nat (n + 1))
