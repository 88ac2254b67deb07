-- ===== src/Js/Text.antt =====
-- JavaScript strings. Equality is that of `String`. Lower-casing is given for ASCII letters and
-- leaves every other character alone: the sources apply it to hexadecimal keys and addresses.
pub mod Order
pub mod Parts
pub mod Glue
use Prim.Native.Char.{Char, code}
use Prim.Native.String.{char_at}
use agentdir_open_agents.Base.{
  ℕ, zero, suc, ◌+◌, ◌-◌, String, Bool, true, false, ◌&&◌, ◌||◌, leb, eqb, ltb, if◌then◌else◌, ◌==◌,
  not,
}

-- `s.toLowerCase()`
lower_char : Char → Char
lower_char c =
    if leb b'A' (code c) && leb (code c) b'Z'
    then char_at "abcdefghijklmnopqrstuvwxyz" (code c - b'A')
    else c

-- `s.toLowerCase()` of a text whose letters are ASCII, as those of keys and addresses are. Other letters
-- stay as they are, where JavaScript folds them too.
unfoldable pub to_lower : String → String
unfolding lower_char
to_lower String.[] = ""
to_lower (String.◌∷◌ c s) = String.◌∷◌ (lower_char c) (to_lower s)

-- `const stripHex = (h) => h.startsWith("0x") ? h.slice(2) : h`
unfoldable pub strip_hex : String → String
strip_hex String.[] = ""
strip_hex (String.◌∷◌ c String.[]) = String.◌∷◌ c ""
strip_hex (String.◌∷◌ c (String.◌∷◌ d s)) =
    if eqb (code c) b'0' && eqb (code d) b'x' then s else String.◌∷◌ c (String.◌∷◌ d s)

-- `"0x" + s`
abbrev pub with_0x : String → String
with_0x s = String.◌∷◌ "0" (String.◌∷◌ "x" s)

-- `s.slice(2)`
unfoldable pub without_two : String → String
without_two String.[] = ""
without_two (String.◌∷◌ c String.[]) = ""
without_two (String.◌∷◌ c (String.◌∷◌ d s)) = s

-- `s.length`, in UTF-16 code units.
unfoldable pub units : String → ℕ
units String.[] = 0
units (String.◌∷◌ c s) = units s + (if leb 0x10000 (code c) then 2 else 1)

-- A string is falsy when it is empty.
abbrev pub is_filled : String → Bool
is_filled String.[] = false
is_filled (String.◌∷◌ c s) = true

is_hex : Char → Bool
is_hex c =
    (leb b'0' (code c) && leb (code c) b'9')
    || (leb b'a' (code c) && leb (code c) b'f')
    || (leb b'A' (code c) && leb (code c) b'F')

-- The text is `n` hexadecimal digits and nothing else: /^[0-9a-fA-F]{n}$/.
unfoldable pub is_hex_of : ℕ → String → Bool
unfolding is_hex
is_hex_of zero String.[] = true
is_hex_of zero (String.◌∷◌ c s) = false
is_hex_of (suc n) String.[] = false
is_hex_of (suc n) (String.◌∷◌ c s) = is_hex c && is_hex_of n s

-- The order of `Array.prototype.sort` on strings, by UTF-16 code units: the characters from U+E000
-- to U+FFFF come after those beyond them, whose units are surrogates.
is_late : Char → Bool
is_late c = leb 0xE000 (code c) && ltb (code c) 0x10000

unfoldable pub char_lt : Char → Char → Bool
unfolding is_late
char_lt c d =
    if is_late c then is_late d && ltb (code c) (code d) else is_late d || ltb (code c) (code d)

-- `a <= b`
unfoldable pub text_le : String → String → Bool
text_le String.[] t = true
text_le (String.◌∷◌ c s) String.[] = false
text_le (String.◌∷◌ c s) (String.◌∷◌ d t) = char_lt c d || (eqb (code c) (code d) && text_le s t)
