-- ===== src/Examples/Directory.antt =====
-- A name with a card, and a directory of it.
use agentdir_open_agents.Base.{
  ◌≡◌, refl, String, Option, none, some, List, [], ◌∷◌, ◌==◌, if◌then◌else◌,
}
use agentdir_open_agents.Js.Text.{is_hex_of, to_lower}
use agentdir_open_agents.Js.Value.{
  Json, str, obj, nil, cons, end, field, prop, find_field, fields_of,
}
use agentdir_open_agents.Js.Result.{ok, read}
use agentdir_open_agents.Js.Show.{show_value, show_json}
use agentdir_open_agents.Sdk.Cards.{
  CardInput, build_agent_card, check_skill, check_skills, set_field, validate_agent_card,
  parse_agent_card,
}
use agentdir_open_agents.Sdk.Cards.Built.{IsPublishable, validate-build_agent_card}
use agentdir_open_agents.Sdk.Ens.{
  EnsClient, get_address, get_text, get_agent_card, reverse_fault, verify_identity,
}
use agentdir_open_agents.Sdk.Ens.Identity.{IsIdentity, verify_identity-IsIdentity}
use agentdir_open_agents.Sdk.Directory.{
  DirectoryQuery, DirectoryEntry, lookback_of, min_score_of, limit_of, query,
}
use agentdir_open_agents.Sdk.Directory.Found.{AreEntriesOf}
use agentdir_open_agents.Sdk.Directory.Answer.{IsRanking, query-IsRanking}
use agentdir_open_agents.Examples.Toys.{toy_crypto, toy_storage}

abbrev pub key : String
key = "00112233445566778899aabbccddeeff00112233445566778899aabbccddeeff"

abbrev skill : Json
skill =
    obj (field "id" (str "echo") (field "name" (str "echo") (field "inputSchema" (obj end) end)))

abbrev pub offer : CardInput
offer = record {
  name = "bob.agentdir.eth";
  description = "an echo";
  axl_pubkey = key;
  skills = cons skill nil;
  version = none;
  capabilities = none;
  default_input_modes = none;
  default_output_modes = none;
  erc7857 = none;
  rep_head = none;
}

offer-IsPublishable : IsPublishable offer
unfolding is_hex_of prop find_field
offer-IsPublishable = record {
  name = refl;
  key = refl;
  version = refl;
  capabilities = refl;
  input_modes = refl;
  output_modes = refl;
  skills = (record { named = refl; tagged = refl; typed = refl }, tt);
}

abbrev pub stringify : Json → String
stringify v = "{}"

validate-build_agent_card_example : validate_agent_card stringify (build_agent_card offer) ≡ ok none
validate-build_agent_card_example = validate-build_agent_card stringify offer offer-IsPublishable

abbrev text_record : String → Option String
text_record k =
    if k == "network.axl.pubkey"
    then some key
    else if k == "org.a2a.agent-card"
    then some "{"
    else none

abbrev pub client : EnsClient
client = record {
  normalize = λ name. ok name;
  ens_address = λ name coin. ok none;
  ens_name = λ address. ok none;
  ens_text = λ name k. ok (text_record k);
  coin_type = λ chain. chain;
}

abbrev parse : String → Option Json
parse text = some (build_agent_card offer)

verified : verify_identity client stringify parse "bob.agentdir.eth" key ≡ ok none
unfolding verify_identity get_address get_text get_agent_card reverse_fault parse_agent_card
    validate_agent_card check_skills check_skill build_agent_card fields_of prop find_field
    set_field read show_value show_json is_hex_of to_lower
verified = refl

verify_identity-IsIdentity_example : IsIdentity client stringify parse "bob.agentdir.eth" key
verify_identity-IsIdentity_example =
    verify_identity-IsIdentity client stringify parse "bob.agentdir.eth" key verified

abbrev asked : DirectoryQuery
asked = record { skill = "echo"; min_score = none; limit = some 3; lookback = none }

query-IsRanking_example :
    (found : List DirectoryEntry) × (es : List DirectoryEntry) × (query toy_crypto toy_storage
        client stringify parse
        ("bob.agentdir.eth" ∷ [])
        []
        asked
      ≡ ok es)
    × AreEntriesOf toy_crypto toy_storage client stringify parse [] "echo"
        (lookback_of asked)
        ("bob.agentdir.eth" ∷ [])
        found
    × IsRanking (min_score_of asked) (limit_of asked) found es
query-IsRanking_example =
    query-IsRanking toy_crypto toy_storage client stringify parse [] ("bob.agentdir.eth" ∷ []) asked
