-- ===== src/Sdk/Cards/Built.antt =====
-- A card that `buildAgentCard` of packages/sdk/src/agent-card.ts makes passes `validateAgentCard`.
use agentdir_open_agents.Base.{
  String, true, ◌&&◌, ◌≡◌, refl, none, some, arith, ◌==◌, eq_iff, if◌then◌else◌,
}
use agentdir_open_agents.Js.Text.{is_hex_of}
use agentdir_open_agents.Js.Value.{
  Json, null, str, arr, obj, Items, nil, cons, Fields, end, field, find_field, prop, truthy,
  is_text, is_object, or_default, fields_of,
}
use agentdir_open_agents.Js.Result.{ok}
use agentdir_open_agents.Js.Show.{show_json, show_value}
use agentdir_open_agents.Sdk.Cards.{
  CardInput, set_field, with_tags, spread_with, map_items, text_plain, build_agent_card, has_dot,
  is_dotted, is_array, is_key, validate_agent_card,
}
use agentdir_open_agents.Sdk.Cards.Valid.{IsSkill, AllSkills, IsCard, validate_agent_card_iff}

-- A skill as a builder gives it: its tags may be left out.
pub record IsOffer (s : Json) : Type 0 where
  pub named : (truthy (prop "id" s) && truthy (prop "name" s)) ≡ true
  pub tagged : is_array (some (or_default (prop "tags" s) (arr nil))) ≡ true
  pub typed : is_object (prop "inputSchema" s) ≡ true

abbrev pub AllOffers : Items → Type 0
AllOffers nil = Unit
AllOffers (cons s ss) = IsOffer s × AllOffers ss

-- What a builder has to give.
pub record IsPublishable (i : CardInput) : Type 0 where
  pub name : has_dot i.name ≡ true
  pub key : is_hex_of 64 i.axl_pubkey ≡ true
  pub version : let v = some (or_default i.version (str "0.1.0")) in (truthy v && is_text v) ≡ true
  pub capabilities : is_object (some (or_default i.capabilities (obj end))) ≡ true
  pub input_modes : is_array (some (or_default i.default_input_modes text_plain)) ≡ true
  pub output_modes : is_array (some (or_default i.default_output_modes text_plain)) ≡ true
  pub skills : AllOffers i.skills

pub find_field-set_field :
    (k j : String) (v : Json) (fs : Fields)
    → find_field j (set_field k v fs) ≡ (if k == j then some v else find_field j fs)
unfolding find_field set_field
find_field-set_field k j v end = refl
find_field-set_field k j v (field i w fs) =
    ground (arith, eq_iff k j, eq_iff i k, eq_iff i j, find_field-set_field k j v fs)

prop-spread_with :
    (k j : String) (v s : Json) → prop j (spread_with k v s) ≡ (if k == j then some v else prop j s)
unfolding prop find_field
prop-spread_with k j v (obj fs) = find_field-set_field k j v fs
prop-spread_with k j v null = refl
prop-spread_with k j v _ = refl

with_tags-IsSkill : (s : Json) → IsOffer s → IsSkill (with_tags s)
with_tags-IsSkill s i =
    let tags = or_default (prop "tags" s) (arr nil) in
    record {
      named =
          rw (prop-spread_with "tags" "id" tags s, prop-spread_with "tags" "name" tags s) i.named;
      tagged = rw (prop-spread_with "tags" "tags" tags s) i.tagged;
      typed = rw (prop-spread_with "tags" "inputSchema" tags s) i.typed;
    }

map_items-AllSkills : (ss : Items) → AllOffers ss → AllSkills (map_items with_tags ss)
map_items-AllSkills nil all = tt
map_items-AllSkills (cons s ss) all = (with_tags-IsSkill s all.0, map_items-AllSkills ss all.1)

dotted_lem : (t : String) → has_dot t ≡ true → is_dotted (some (str t)) ≡ ok true
dotted_lem String.[] h = cc
dotted_lem (String.◌∷◌ c t) h = rw h refl

key_lem : (t : String) → is_hex_of 64 t ≡ true → is_key (some (str t)) ≡ true
unfolding is_hex_of show_value show_json
key_lem String.[] h = cc
key_lem (String.◌∷◌ c t) h = h

build_agent_card-IsCard : (i : CardInput) → IsPublishable i → IsCard (build_agent_card i)
unfolding build_agent_card fields_of prop find_field
build_agent_card-IsCard i p = record {
  version_of_protocol = refl;
  name = dotted_lem i.name p.name;
  version = p.version;
  capabilities = p.capabilities;
  input_modes = p.input_modes;
  output_modes = p.output_modes;
  key = key_lem i.axl_pubkey p.key;
  skills = (_, refl, map_items-AllSkills i.skills p.skills);
}

-- A card that is built passes, where the name is dotted, the key has 64 hexadecimal digits, the version
-- is left out or a text that is not empty, the capabilities and the modes are left out or an object
-- and arrays, and each skill has an id, a name and an input schema, its tags left out or an array.
pub validate-build_agent_card :
    (stringify : Json → String) (i : CardInput)
    → IsPublishable i
    → validate_agent_card stringify (build_agent_card i) ≡ ok none
validate-build_agent_card stringify i p =
    (validate_agent_card_iff stringify (build_agent_card i)).1 (build_agent_card-IsCard i p)
