-- ===== src/Js/Show.antt =====
-- `${x}`: the text of a value in a template. NaN and `undefined` have texts of their own.
use Prim.Native.String.{◌++◌}
use agentdir_open_agents.Base.{String, true, false, none, some}
use agentdir_open_agents.Js.Number.{number_text}
use agentdir_open_agents.Js.Value.{Json, null, bool, num, str, arr, obj, Items, nil, cons, Value}

abbrev blank_null : Json → String → String
blank_null null t = ""
blank_null _ t = t

unfoldable mutual
  unfolding number_text

  -- `${x}`
  pub show_json : Json → String
  show_json null = "null"
  show_json (bool true) = "true"
  show_json (bool false) = "false"
  show_json (num n) = number_text n
  show_json (str s) = s
  show_json (arr xs) = show_items xs
  show_json (obj _) = "[object Object]"

  -- `xs.join(",")`, where null is the empty text.
  pub show_items : Items → String
  show_items nil = ""
  show_items (cons x nil) = blank_null x (show_json x)
  show_items (cons x (cons y ys)) = blank_null x (show_json x) ++ ("," ++ show_items (cons y ys))

unfoldable pub show_value : Value → String
unfolding show_json
show_value none = "undefined"
show_value (some v) = show_json v
