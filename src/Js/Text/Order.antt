-- ===== src/Js/Text/Order.antt =====
-- The order on strings is total, antisymmetric and transitive.
use Prim.Native.Char.{Char, code}
use text.Mathlib.TextEquality.{Char-path}
use agentdir_open_agents.Base.{String, ◌≡◌, refl, true, false, arith, eqb, eqb_iff}
use agentdir_open_agents.Js.Text.{char_lt, text_le}

char_lt_irrefl : (c d : Char) → eqb (code c) (code d) ≡ true → char_lt c d ≡ false
unfolding char_lt
char_lt_irrefl c d e = ground arith

char_lt_total :
    (c d : Char) → char_lt c d ≡ false → eqb (code c) (code d) ≡ false → char_lt d c ≡ true
unfolding char_lt
char_lt_total c d h e = ground arith

char_lt_asymm : (c d : Char) → char_lt c d ≡ true → char_lt d c ≡ false
unfolding char_lt
char_lt_asymm c d h = ground arith

char_lt_trans : (c d e : Char) → char_lt c d ≡ true → char_lt d e ≡ true → char_lt c e ≡ true
unfolding char_lt
char_lt_trans c d e h k = ground arith

same_char : (c d : Char) → eqb (code c) (code d) ≡ true → c ≡ d
same_char c d h = Char-path c d ((eqb_iff _ _).0 h)

pub text_le_total : (s t : String) → text_le s t ≡ false → text_le t s ≡ true
unfolding text_le
text_le_total String.[] t h = ground arith
text_le_total (String.◌∷◌ c s) String.[] h = refl
text_le_total (String.◌∷◌ c s) (String.◌∷◌ d t) h =
    ground (arith, char_lt_total c d, text_le_total s t)

pub text_le_antisymm : (s t : String) → text_le s t ≡ true → text_le t s ≡ true → s ≡ t
unfolding text_le
text_le_antisymm String.[] String.[] h k = refl
text_le_antisymm String.[] (String.◌∷◌ d t) h k = ground arith
text_le_antisymm (String.◌∷◌ c s) String.[] h k = ground arith
text_le_antisymm (String.◌∷◌ c s) (String.◌∷◌ d t) h k =
    ground (arith, char_lt_asymm c d, char_lt_irrefl d c, same_char c d, text_le_antisymm s t)

pub text_le_trans : (s t u : String) → text_le s t ≡ true → text_le t u ≡ true → text_le s u ≡ true
unfolding text_le
text_le_trans String.[] t u h k = refl
text_le_trans (String.◌∷◌ c s) String.[] u h k = ground arith
text_le_trans (String.◌∷◌ c s) (String.◌∷◌ d t) String.[] h k = ground arith
text_le_trans (String.◌∷◌ c s) (String.◌∷◌ d t) (String.◌∷◌ e u) h k =
    ground (arith, char_lt_trans c d e, text_le_trans s t u, same_char c d, same_char d e)
