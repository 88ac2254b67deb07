-- ===== src/Sdk/Cards.antt =====
-- packages/sdk/src/agent-card.ts: how an agent's card is built, checked and read. `parse` stands for
-- JSON.parse, where `none` is its exception, and `stringify` for JSON.stringify, which only a message
-- uses. The type of a field that the sources give as optional is `Value`.
pub mod Valid
pub mod Built
use Prim.Native.Char.{Char, code}
use Prim.Native.String.{◌++◌}
use agentdir_open_agents.Base.{
  ℕ, String, Bool, true, false, ◌&&◌, ◌||◌, not, Option, none, some, List, [], ◌∷◌, ◌==◌, eqb,
  if◌then◌else◌,
}
use agentdir_open_agents.Js.Text.{is_hex_of}
use agentdir_open_agents.Js.Value.{
  Json, null, bool, num, str, arr, obj, Items, nil, cons, Fields, end, field, Value, prop, prop?,
  truthy, or_default, is_text, is_text_eq, is_object, object,
}
use agentdir_open_agents.Js.Show.{show_value}
use agentdir_open_agents.Js.Result.{Result, ok, throw, ◌>>=◌, read, reject_if, type_error}

pub record CardInput : Type 0 where
  pub name : String
  pub description : String
  pub axl_pubkey : String
  pub skills : Items
  pub version : Value
  pub capabilities : Value
  pub default_input_modes : Value
  pub default_output_modes : Value
  pub erc7857 : Value
  pub rep_head : Value

-- `{ ...x, k: v }` overwrites in place, and otherwise appends.
unfoldable pub set_field : String → Json → Fields → Fields
set_field k v end = field k v end
set_field k v (field j w fs) =
    let rest = set_field k v fs in if j == k then field j v fs else field j w rest

abbrev pub spread_with : String → Json → Json → Json
spread_with k v (obj fs) = obj (set_field k v fs)
spread_with k v _ = obj (field k v end)

abbrev pub with_tags : Json → Json
with_tags s = spread_with "tags" (or_default (prop "tags" s) (arr nil)) s

abbrev pub map_items : (Json → Json) → Items → Items
map_items f nil = nil
map_items f (cons x xs) = cons (f x) (map_items f xs)

abbrev text_plain : Json
text_plain = arr (cons (str "text/plain") nil)

-- A property that is added only under a condition.
abbrev pub only_truthy : Value → Value
only_truthy v = if truthy v then v else none

abbrev pub identity_of : CardInput → Json
identity_of i =
    object (("axlPubkey", some (str i.axl_pubkey)) ∷ ("erc7857", only_truthy i.erc7857) ∷ [])

unfoldable pub build_agent_card : CardInput → Json
build_agent_card i = object (
    ("protocolVersion", some (str "0.2.5"))
    ∷ ("name", some (str i.name))
    ∷ ("description", some (str i.description))
    ∷ ("url", some (str ("axl://" ++ i.axl_pubkey)))
    ∷ ("version", some (or_default i.version (str "0.1.0")))
    ∷ ("capabilities", some (or_default i.capabilities (obj end)))
    ∷ ("defaultInputModes", some (or_default i.default_input_modes text_plain))
    ∷ ("defaultOutputModes", some (or_default i.default_output_modes text_plain))
    ∷ ("skills", some (arr (map_items with_tags i.skills)))
    ∷ ("identity", some (identity_of i))
    ∷ ("repHead", only_truthy i.rep_head)
    ∷ [])

abbrev pub has_dot : String → Bool
has_dot String.[] = false
has_dot (String.◌∷◌ c s) = eqb (code c) b'.' || has_dot s

abbrev pub has_item : String → Items → Bool
has_item t nil = false
has_item t (cons x xs) = is_text_eq t (some x) || has_item t xs

-- `x.includes(".")` of a text or of an array.
abbrev pub includes_dot : Value → Result Bool
includes_dot (some (str s)) = ok (has_dot s)
includes_dot (some (arr xs)) = ok (has_item "." xs)
includes_dot _ = throw type_error

-- `x && x.includes(".")`
abbrev pub is_dotted : Value → Result Bool
is_dotted v = if truthy v then includes_dot v else ok false

abbrev pub is_array : Value → Bool
is_array (some (arr _)) = true
is_array _ = false

-- A non-empty value whose text is 64 hexadecimal digits.
abbrev pub is_key : Value → Bool
is_key v = truthy v && is_hex_of 64 (show_value v)

-- The first reason that is not null.
abbrev pub or_next : Result (Option String) → Result (Option String) → Result (Option String)
or_next (ok none) next = next
or_next (ok (some e)) next = ok (some e)
or_next (throw e) next = throw e

module _ (stringify : Json → String) where
  unfoldable pub check_skill : Json → Result (Option String)
  check_skill s = read "id" (some s) >>= λ id.
      reject_if (not (truthy id && truthy (prop "name" s)))
        ("skill missing id/name: " ++ stringify s)
        (reject_if (not (is_array (prop "tags" s)))
          ("skill " ++ (show_value id ++ " missing tags array"))
          (reject_if (not (is_object (prop "inputSchema" s)))
            ("skill " ++ (show_value id ++ " missing inputSchema")) (ok none)))

  unfoldable pub check_skills : Items → Result (Option String)
  unfolding check_skill
  check_skills nil = ok none
  check_skills (cons s ss) = or_next (check_skill s) (check_skills ss)

  abbrev pub check_skill_list : Value → Result (Option String)
  check_skill_list (some (arr ss)) = check_skills ss
  check_skill_list _ = ok (some "skills must be an array")

  unfoldable pub validate_agent_card : Json → Result (Option String)
  unfolding check_skills
  validate_agent_card c = reject_if (not (is_object (some c))) "card is not an object" (
      reject_if (not (is_text_eq "0.2.5" (prop "protocolVersion" c)))
        "protocolVersion must be 0.2.5"
        (is_dotted (prop "name" c) >>= λ dotted.
          reject_if (not dotted) "name must be a dotted ENS name" (
            reject_if (not (truthy (prop "version" c) && is_text (prop "version" c)))
              "version must be a string"
              (reject_if (not (is_object (prop "capabilities" c))) "capabilities must be an object"
                (reject_if (not (is_array (prop "defaultInputModes" c)))
                  "defaultInputModes must be an array"
                  (reject_if (not (is_array (prop "defaultOutputModes" c)))
                    "defaultOutputModes must be an array"
                    (reject_if (not (is_key (prop? "axlPubkey" (prop "identity" c))))
                      "identity.axlPubkey must be 64-hex ed25519 pubkey"
                      (check_skill_list (prop "skills" c)))))))))

  abbrev pub unless_invalid : Json → Option String → Result Json
  unless_invalid c none = ok c
  unless_invalid c (some e) = throw ("invalid AgentCard: " ++ e)

  abbrev pub parsed_card : Option Json → Result Json
  parsed_card none = throw "SyntaxError"
  parsed_card (some c) = validate_agent_card c >>= unless_invalid c

  unfoldable pub parse_agent_card : (String → Option Json) → String → Result Json
  unfolding validate_agent_card
  parse_agent_card parse json = parsed_card (parse json)
