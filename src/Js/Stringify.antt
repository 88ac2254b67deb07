-- ===== src/Js/Stringify.antt =====
-- `JSON.stringify`, which keeps the order of the fields.
use Prim.Native.String.{◌++◌}
use agentdir_open_agents.Base.{String, true, false}
use agentdir_open_agents.Js.Number.{number_text}
use agentdir_open_agents.Js.Value.{
  Json, null, bool, num, str, arr, obj, Items, nil, cons, Fields, end, field,
}
use agentdir_open_agents.Canonical.{quote}

unfoldable mutual
  unfolding quote number_text

  pub json_text : Json → String
  json_text null = "null"
  json_text (bool true) = "true"
  json_text (bool false) = "false"
  json_text (num n) = number_text n
  json_text (str s) = quote s
  json_text (arr xs) = "[" ++ (items_text xs ++ "]")
  json_text (obj fs) = "{" ++ (fields_text fs ++ "}")

  pub items_text : Items → String
  items_text nil = ""
  items_text (cons x nil) = json_text x
  items_text (cons x (cons y ys)) = json_text x ++ ("," ++ items_text (cons y ys))

  pub fields_text : Fields → String
  fields_text end = ""
  fields_text (field k v end) = quote k ++ (":" ++ json_text v)
  fields_text (field k v (field j w fs)) =
      quote k ++ (":" ++ (json_text v ++ ("," ++ fields_text (field j w fs))))
