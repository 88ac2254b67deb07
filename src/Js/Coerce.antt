-- ===== src/Js/Coerce.antt =====
-- What JavaScript arithmetic reads a value as: `Number(v)`.
use Prim.Native.Char.{code}
use agentdir_open_agents.Base.{
  Option, ℕ, ◌+◌, ◌-◌, ◌*◌, ◌/◌, ◌%◌, ◌^◌, String, Bool, true, false, ◌&&◌, ◌||◌, none, some, eqb,
  ltb, leb, if◌then◌else◌,
}
use agentdir_open_agents.Base.Int.{pos, ◌-ℤ◌}
use agentdir_open_agents.Js.Number.{Number, nan, int}
use agentdir_open_agents.Js.Show.{show_items}
use agentdir_open_agents.Js.Text.Parts.{trim}
use agentdir_open_agents.Js.Value.{null, bool, num, str, arr, obj, Value}

-- The value of a digit; 99 for a character that is no digit of any base here.
abbrev digit_value : ℕ → ℕ
digit_value n =
    if leb b'0' n && leb n b'9'
    then n - b'0'
    else if leb b'A' n && leb n b'F'
    then n - 55
    else if leb b'a' n && leb n b'f'
    then n - 87
    else 99

unfoldable pub digits_value : ℕ → ℕ → String → Option ℕ
digits_value base acc String.[] = some acc
digits_value base acc (String.◌∷◌ c s) =
    let d = digit_value (code c) in
    let rest = digits_value base (acc * base + d) s in if ltb d base then rest else none

-- A row of digits has one at least.
abbrev digits : ℕ → String → Option ℕ
digits base String.[] = none
digits base s = digits_value base 0 s

abbrev integer_of : Option ℕ → Number
integer_of none = nan
integer_of (some n) = int (pos n)

-- `n / 10 ^ places`, where that is an integer.
abbrev scaled : ℕ → ℕ → Number
scaled n places = let d = 10 ^ places in if eqb (n % d) 0 then int (pos (n / d)) else nan

abbrev scaled_up : ℕ → ℕ → Option ℕ → Number
scaled_up n places none = nan
scaled_up n places (some e) = scaled (n * 10 ^ e) places

abbrev scaled_down : ℕ → ℕ → Option ℕ → Number
scaled_down n places none = nan
scaled_down n places (some e) = scaled n (places + e)

-- What follows the `e` of a numeral.
abbrev with_exponent : ℕ → ℕ → String → Number
with_exponent n places String.[] = nan
with_exponent n places (String.◌∷◌ c s) =
    if eqb (code c) b'-'
    then scaled_down n places (digits 10 s)
    else if eqb (code c) b'+'
    then scaled_up n places (digits 10 s)
    else scaled_up n places (digits 10 (String.◌∷◌ c s))

abbrev is_exponent : ℕ → Bool
is_exponent n = eqb n b'e' || eqb n b'E'

-- What follows the point of a numeral; `any` tells whether there was a digit.
unfoldable pub after_point : ℕ → ℕ → Bool → String → Number
after_point n places any String.[] = if any then scaled n places else nan
after_point n places any (String.◌∷◌ c s) =
    let d = digit_value (code c) in
    let rest = after_point (n * 10 + d) (places + 1) true s in
    if ltb d 10 then rest else if any && is_exponent (code c) then with_exponent n places s else nan

-- A decimal numeral without a sign.
unfoldable pub decimal : ℕ → Bool → String → Number
unfolding after_point
decimal n any String.[] = if any then int (pos n) else nan
decimal n any (String.◌∷◌ c s) =
    let d = digit_value (code c) in
    let rest = decimal (n * 10 + d) true s in
    if ltb d 10
    then rest
    else if eqb (code c) b'.'
    then after_point n 0 any s
    else if any && is_exponent (code c)
    then with_exponent n 0 s
    else nan

abbrev minus_of : Number → Number
minus_of nan = nan
minus_of (int x) = int (pos 0 -ℤ x)

-- The base that the character after a leading 0 names; 0 for none.
abbrev base_of : ℕ → ℕ
base_of n =
    if eqb n b'x' || eqb n b'X'
    then 16
    else if eqb n b'o' || eqb n b'O'
    then 8
    else if eqb n b'b' || eqb n b'B'
    then 2
    else 0

abbrev after_zero : String → Number
after_zero String.[] = int (pos 0)
after_zero (String.◌∷◌ c s) =
    let base = base_of (code c) in
    if eqb base 0 then decimal 0 true (String.◌∷◌ c s) else integer_of (digits base s)

abbrev trimmed_number : String → Number
trimmed_number String.[] = int (pos 0)
trimmed_number (String.◌∷◌ c s) =
    let n = code c in
    if eqb n b'0'
    then after_zero s
    else if eqb n b'-'
    then minus_of (decimal 0 false s)
    else if eqb n b'+'
    then decimal 0 false s
    else decimal 0 false (String.◌∷◌ c s)

-- `Number(s)` of a text: white space around it is left out, the empty text is 0, and a text that
-- spells no number is NaN. Fractions and infinities are not modelled: a text that spells one is NaN
-- here.
unfoldable pub number_of : String → Number
unfolding digits_value decimal trim ◌-ℤ◌
number_of s = trimmed_number (trim s)

-- `Number(v)`: an array is read through its text, and an object, whose text is "[object Object]", is
-- NaN.
abbrev pub to_number : Value → Number
to_number none = nan
to_number (some null) = int (pos 0)
to_number (some (bool true)) = int (pos 1)
to_number (some (bool false)) = int (pos 0)
to_number (some (num n)) = int n
to_number (some (str s)) = number_of s
to_number (some (arr xs)) = number_of (show_items xs)
to_number (some (obj _)) = nan
