-- ===== src/Examples/Skills.antt =====
-- Runs of the skills and of routers.
use agentdir_open_agents.Base.{
  ℕ, ◌≤◌, ◌≡◌, refl, String, Option, none, some, List, [], ◌∷◌, arith, length,
}
use agentdir_open_agents.Base.Int.{pos}
use agentdir_open_agents.Js.Map.{Map}
use agentdir_open_agents.Js.Value.{Json, str, Value, object}
use agentdir_open_agents.Js.Result.{Result, ok, throw}
use agentdir_open_agents.Agent.Caller.{CallSkillArgs}
use agentdir_open_agents.Agent.Skills.{
  Compute, PromptSkillInput, summarize, sentiment, make_prompt_skill, get, list,
}
use agentdir_open_agents.Agent.Skills.Streams.{Streams, skills-StreamsAs}
use agentdir_open_agents.Agent.Skills.Labels.{GivesLabels, sentiment-Labels}
use agentdir_open_agents.Agent.Skills.Registry.{add_all, last_with, AreApart, add_all-get}
use agentdir_open_agents.Agent.Skills.Route.{RouteSkillInput, RoutingEntry}
use agentdir_open_agents.Agent.Skills.Route.Network.{Peer, Calls, network_call, routes}
use agentdir_open_agents.Agent.Skills.Route.Ends.{routes-calls_bounded}

-- A model that answers every text alike, and streams its answer in two pieces with an empty one.
abbrev pub model : Compute
model = record {
  chat = λ ms opts. ok " Positive.";
  stream = λ ms opts. record {
    deltas = some (str " Pos") ∷ some (str "") ∷ none ∷ some (str "itive.") ∷ [];
    thrown = none;
  };
}

abbrev joke : PromptSkillInput
joke = record {
  id = "joke";
  name = "joke";
  description = "tells a joke";
  tags = [];
  system_prompt = "Tell a joke.";
  max_tokens = 80;
  input_max_length = none;
  pricing = none;
}

abbrev asked : Value
asked = some (object (("text", some (str "cats")) ∷ []))

skills-StreamsAs_example :
    Streams "summary" model asked summarize × Streams "text" model asked (make_prompt_skill joke)
skills-StreamsAs_example = skills-StreamsAs model joke asked (λ ms opts. (refl, refl))

sentiment-Labels_example : GivesLabels model asked sentiment
sentiment-Labels_example = sentiment-Labels model asked

add_all-get_example :
    (get "joke" (add_all (summarize ∷ sentiment ∷ make_prompt_skill joke ∷ []) [])
      ≡ last_with "joke" (summarize ∷ sentiment ∷ make_prompt_skill joke ∷ []))
    × AreApart (list (add_all (summarize ∷ sentiment ∷ make_prompt_skill joke ∷ []) []))
add_all-get_example = add_all-get (summarize ∷ sentiment ∷ make_prompt_skill joke ∷ []) "joke"

-- Two routers that send every "loop" to each other.
abbrev towards : String → List (String × RoutingEntry)
towards pubkey = ("loop", record { dest_pubkey = pubkey; skill = "route"; ens = none }) ∷ []

abbrev first : Peer
first = record { pubkey = "aa"; inft = none; table = towards "bb" }

abbrev second : Peer
second = record { pubkey = "bb"; inft = none; table = towards "aa" }

abbrev peers : Map Peer
peers = ("aa", first) ∷ ("bb", second) ∷ []

abbrev no_leaf : CallSkillArgs → Result Json
no_leaf args = throw "call timeout"

abbrev no_refusal : CallSkillArgs → Option String
no_refusal args = none

abbrev clock : Calls → ℕ
clock = length

abbrev looping : RouteSkillInput
looping = record {
  tag = "loop";
  payload = some (object (("tag", some (str "loop")) ∷ []));
  hop_budget = some (pos 2);
}

abbrev looped : ℕ → Result Value × Calls
looped fuel =
    routes peers clock no_refusal no_leaf (network_call peers clock no_refusal no_leaf fuel) first
      looping []

routes-calls_bounded_example : (length (looped 9).1 ≤ 2) × (looped 9 ≡ looped 2)
routes-calls_bounded_example =
    routes-calls_bounded peers clock no_refusal no_leaf 2 9 first looping refl (omega arith)
