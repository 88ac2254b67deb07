-- ===== src/Js/Number.antt =====
-- JavaScript numbers: integers, and NaN beside them, which arithmetic on a value that is no number
-- gives and which makes every comparison false. Fractions and infinities are not modelled.
use Prim.Native.String.{char_at, ◌++◌}
use agentdir_open_agents.Base.{ℕ, zero, suc, ◌/◌, ◌%◌, String, Bool, false, ltb, if◌then◌else◌}
use agentdir_open_agents.Base.Int.{ℤ, pos, negsuc, ◌-ℤ◌, ◌*ℤ◌, ltb_ℤ, abs}

pub data Number : Type 0 where
  nan : Number
  int : ℤ → Number

-- The decimal digits of a number; a number has no more digits than its value plus one.
digits_from : ℕ → ℕ → String → String
digits_from zero n acc = acc
digits_from (suc f) n acc =
    let here = String.◌∷◌ (char_at "0123456789" (n % 10)) acc in
    let more = digits_from f (n / 10) here in if ltb n 10 then here else more

-- `String(n)`, and `JSON.stringify(n)`, of an integer.
unfoldable pub number_text : ℤ → String
unfolding digits_from
number_text (pos n) = digits_from (suc n) n ""
number_text (negsuc n) = "-" ++ digits_from (suc (suc n)) (suc n) ""

-- `now - x`
abbrev pub minus : ℤ → Number → Number
minus now nan = nan
minus now (int x) = int (now -ℤ x)

-- `x * k`
abbrev pub times : Number → ℕ → Number
times nan k = nan
times (int x) k = int (x *ℤ pos k)

-- `x > m`
abbrev pub is_above : Number → ℤ → Bool
is_above nan m = false
is_above (int x) m = ltb_ℤ m x

-- `x < m`
abbrev pub is_below : Number → ℤ → Bool
is_below nan m = false
is_below (int x) m = ltb_ℤ x m

-- `Math.abs(x) > m`
abbrev pub is_abs_above : Number → ℕ → Bool
is_abs_above nan m = false
is_abs_above (int x) m = ltb m (abs x)

unfoldable pub show_number : Number → String
unfolding number_text
show_number nan = "NaN"
show_number (int x) = number_text x
