-- ===== src/Agent/Skills/Route/Network.antt =====
-- Agents that route to each other, in any graph: each has the `route` skill of
-- packages/agent/src/skills.ts and a table of its own. The state is the calls that were made. The
-- runtime's other tests of a request are `refuses`, and every other skill is `leaf`.
use Prim.Native.String.{◌++◌ as append}
use agentdir_open_agents.Base.{
  ℕ, zero, suc, String, true, Option, none, some, List, [], ◌∷◌, ◌==◌, if◌then◌else◌,
}
use agentdir_open_agents.Base.Int.{ℤ}
use agentdir_open_agents.Js.Map
use agentdir_open_agents.Js.Map.{Map}
use agentdir_open_agents.Js.Value.{Json, bool, num, str, Value, prop?, object}
use agentdir_open_agents.Js.Result.{Result, ok, throw}
use agentdir_open_agents.Agent.Act.{Act, raise}
use agentdir_open_agents.Agent.Caller.{CallSkillArgs}
use agentdir_open_agents.Agent.Runtime.Admit.{validate_input}
use agentdir_open_agents.Agent.Skills.Route.{
  RouteSkillInput, RoutingTable, Swarm, route_def, route_handler,
}

pub record Peer : Type 0 where
  pub pubkey : String
  pub inft : Value
  pub table : RoutingTable

abbrev pub Calls : Type 0
Calls = List CallSkillArgs

-- `input as RouteSkillInput`, where the value has that type.
abbrev pub typed_budget : Value → Option (Option ℤ)
typed_budget none = some none
typed_budget (some (num n)) = some (some n)
typed_budget (some _) = none

abbrev pub typed_with : String → Value → Option (Option ℤ) → Option RouteSkillInput
typed_with tag payload none = none
typed_with tag payload (some b) = some (record { tag = tag; payload = payload; hop_budget = b })

abbrev pub typed_tag : Value → Value → Option RouteSkillInput
typed_tag (some (str tag)) v =
    typed_with tag (prop? "payload" v) (typed_budget (prop? "hopBudget" v))
typed_tag (some _) v = none
typed_tag none v = none

abbrev pub as_input : Value → Option RouteSkillInput
as_input v = typed_tag (prop? "tag" v) v

-- What `callSkill` gives for the reply of the runtime.
abbrev pub replied : Result Value → Result Json
replied (ok v) = ok (object (("ok", some (bool true)) ∷ ("output", v) ∷ []))
replied (throw e) = throw (append "remote: " e)

module _ (peers : Map Peer) (clock : Calls → ℕ) (refuses : CallSkillArgs → Option String)
    (leaf : CallSkillArgs → Result Json) where
  module _ (call : CallSkillArgs → Act Calls Json) where
    abbrev pub swarm_of : Peer → Swarm Calls
    swarm_of peer = record {
      call = call;
      now = λ s. (ok (clock s), s);
      caller_pubkey = peer.pubkey;
      caller_inft = peer.inft;
      routing_table = peer.table;
    }

    abbrev pub routes : Peer → RouteSkillInput → Act Calls Value
    routes peer i = route_handler (some (swarm_of peer)) i

    abbrev pub handled : Peer → CallSkillArgs → Option RouteSkillInput → Act Calls Json
    handled peer args none s = (leaf args, s)
    handled peer args (some i) s = (replied (routes peer i s).0, (routes peer i s).1)

    abbrev pub validated : Peer → CallSkillArgs → Option String → Act Calls Json
    validated peer args none = handled peer args (as_input args.input)
    validated peer args (some why) = raise (append "remote: invalid input: " why)

    abbrev pub at_peer : CallSkillArgs → Option Peer → Act Calls Json
    at_peer args none s = (leaf args, s)
    at_peer args (some peer) s =
        validated peer args (validate_input route_def.input_schema args.input) s

    abbrev pub admitted : CallSkillArgs → Option String → Act Calls Json
    admitted args none s =
        if args.skill == "route"
        then at_peer args (Map.get args.dest_pubkey peers) s
        else (leaf args, s)
    admitted args (some e) s = (throw e, s)

  unfoldable pub network_call : ℕ → CallSkillArgs → Act Calls Json
  unfolding route_handler
  network_call zero args s = (throw "out of fuel", s)
  network_call (suc fuel) args s = admitted (network_call fuel) args (refuses args) (args ∷ s)
