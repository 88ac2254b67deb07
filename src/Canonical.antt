-- ===== src/Canonical.antt =====
-- packages/sdk/src/agent-card.ts: `canonicalJson`, the text over which every signature is made.
pub mod Reorder
use Prim.Native.Char.{Char, code}
use Prim.Native.String.{char_at, ◌++◌}
use agentdir_open_agents.Base.{
  ℕ, zero, suc, ◌/◌, ◌%◌, String, true, false, List, [], ◌∷◌, ltb, eqb, if◌then◌else◌,
}
use agentdir_open_agents.Js.Number.{number_text}
use agentdir_open_agents.Js.Text.{text_le}
use agentdir_open_agents.Base.Int.{ℤ, pos, negsuc}
use agentdir_open_agents.Js.Value.{
  Json, null, bool, num, str, arr, obj, Items, nil, cons, Fields, end, field,
}

hex_digit : ℕ → Char
hex_digit n = char_at "0123456789abcdef" n

-- The escapes of `JSON.stringify`.
escape : Char → String
unfolding hex_digit
escape c =
    if eqb (code c) b'"'
    then "\\\""
    else if eqb (code c) 92
    then "\\\\"
    else if eqb (code c) 8
    then "\\b"
    else if eqb (code c) 9
    then "\\t"
    else if eqb (code c) 10
    then "\\n"
    else if eqb (code c) 12
    then "\\f"
    else if eqb (code c) 13
    then "\\r"
    else if ltb (code c) 32
    then "\\u00" ++ String.◌∷◌ (hex_digit (code c / 16)) (String.◌∷◌ (hex_digit (code c % 16)) "")
    else String.◌∷◌ c ""

escape_all : String → String
unfolding escape
escape_all String.[] = ""
escape_all (String.◌∷◌ c s) = escape c ++ escape_all s

-- `JSON.stringify` of a string.
unfoldable pub quote : String → String
unfolding escape_all
quote s = "\"" ++ (escape_all s ++ "\"")

-- Insertion by key; the keys of an object are distinct.
insert_entry : String × String → List (String × String) → List (String × String)
insert_entry e [] = e ∷ []
insert_entry e (x ∷ xs) = if text_le e.0 x.0 then e ∷ x ∷ xs else x ∷ insert_entry e xs

sort_entries : List (String × String) → List (String × String)
unfolding insert_entry
sort_entries [] = []
sort_entries (e ∷ es) = insert_entry e (sort_entries es)

-- `texts.join(",")`
join : List String → String
join [] = ""
join (t ∷ []) = t
join (t ∷ u ∷ ts) = t ++ ("," ++ join (u ∷ ts))

texts : List (String × String) → List String
texts [] = []
texts (e ∷ es) = e.1 ∷ texts es

unfoldable mutual
  unfolding quote number_text sort_entries join texts

  pub canonical_json : Json → String
  canonical_json null = "null"
  canonical_json (bool true) = "true"
  canonical_json (bool false) = "false"
  canonical_json (num n) = number_text n
  canonical_json (str s) = quote s
  canonical_json (arr xs) = "[" ++ (join (item_texts xs) ++ "]")
  canonical_json (obj fs) = "{" ++ (join (texts (sort_entries (entries fs))) ++ "}")

  pub item_texts : Items → List String
  item_texts nil = []
  item_texts (cons x xs) = canonical_json x ∷ item_texts xs

  -- Each key with the text `"key":value`.
  pub entries : Fields → List (String × String)
  entries end = []
  entries (field k v fs) = (k, quote k ++ (":" ++ canonical_json v)) ∷ entries fs
