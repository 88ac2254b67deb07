-- ===== src/Agent/Skills/Route.antt =====
-- The `route` skill of packages/agent/src/skills.ts, with the types of packages/sdk/src/swarm.ts. The
-- clock and `callSkill` are actions on a state. A routing table has its own keys only.
pub mod Network
pub mod Ends
use Prim.Native.String.{◌++◌ as append}
use agentdir_open_agents.Base.{
  ℕ, suc, String, Bool, true, false, Option, none, some, List, [], ◌∷◌, ◌==◌, if◌then◌else◌, leb,
}
use agentdir_open_agents.Base.Int.{ℤ, pos, negsuc, ◌-ℤ◌}
use agentdir_open_agents.Js.Map
use agentdir_open_agents.Js.Map.{Map}
use agentdir_open_agents.Js.Text.{is_filled}
use agentdir_open_agents.Js.Number.{number_text}
use agentdir_open_agents.Js.Stringify.{json_text}
use agentdir_open_agents.Js.Value.{
  Json, bool, num, str, arr, obj, Items, nil, cons, Fields, end, field, Value, prop, prop?, object,
}
use agentdir_open_agents.Js.Result.{Result, ok, throw}
use agentdir_open_agents.Sdk.Cards.{set_field}
use agentdir_open_agents.Agent.Act.{Act, pure, raise, ◌>>=◌}
use agentdir_open_agents.Agent.Caller.{CallSkillArgs}
use agentdir_open_agents.Agent.Runtime.{InputSchema}
use agentdir_open_agents.Agent.Skills.{Skill}

pub record RouteHop : Type 0 where
  pub from : String
  pub to : String
  pub skill : String
  pub is_ok : Bool
  pub latency_ms : ℤ
  pub responder_ens : Option String

pub record RoutingEntry : Type 0 where
  pub dest_pubkey : String
  pub skill : String
  pub ens : Option String

abbrev pub RoutingTable : Type 0
RoutingTable = Map RoutingEntry

pub record RouteSkillInput : Type 0 where
  pub tag : String
  pub payload : Value
  pub hop_budget : Option ℤ

-- `ctx.swarm`; `axl` is in `call`, which is `callSkill`.
pub record Swarm (S : Type 0) : Type 0 where
  pub call : CallSkillArgs → Act S Json
  pub now : Act S ℕ
  pub caller_pubkey : String
  pub caller_inft : Value
  pub routing_table : RoutingTable

unfoldable pub route_def : Skill
route_def = record {
  id = "route";
  name = "route";
  description = "forward a request to a downstream agent based on tag";
  tags = "meta" ∷ "routing" ∷ [];
  input_schema = record {
    required = "tag" ∷ [];
    properties = some (
        ("tag", record { is_string = true; max_length = some 64 })
        ∷ ("payload", record { is_string = false; max_length = none })
        ∷ ("hopBudget", record { is_string = false; max_length = none })
        ∷ []);
  };
  output_schema = object (
      ("type", some (str "object"))
      ∷ (
        "properties",
        some (
            object (
              ("output", some (obj end))
              ∷ ("trace", some (object (("type", some (str "array")) ∷ [])))
              ∷ [])),
      )
      ∷ []);
  pricing = none;
}

-- The text `ens` is shown where it is not empty.
abbrev shown_ens : Option String → Value
shown_ens none = none
shown_ens (some ens) = if is_filled ens then some (str ens) else none

unfoldable pub hop_json : RouteHop → Json
hop_json h = object (
    ("from", some (str h.from))
    ∷ ("to", some (str h.to))
    ∷ ("skill", some (str h.skill))
    ∷ ("ok", some (bool h.is_ok))
    ∷ ("latencyMs", some (num h.latency_ms))
    ∷ ("responderEns", shown_ens h.responder_ens)
    ∷ [])

-- The default of the destructuring.
abbrev pub budget_of : Option ℤ → ℤ
budget_of none = pos 3
budget_of (some b) = b

-- `hopBudget <= 0`
abbrev pub is_spent : ℤ → Bool
is_spent (pos n) = leb n 0
is_spent (negsuc n) = true

index_items : ℕ → Items → Fields
unfolding number_text
index_items i nil = end
index_items i (cons x xs) = field (number_text (pos i)) x (index_items (suc i) xs)

index_chars : ℕ → String → Fields
unfolding number_text
index_chars i String.[] = end
index_chars i (String.◌∷◌ c s) =
    field (number_text (pos i)) (str (String.◌∷◌ c "")) (index_chars (suc i) s)

-- `{ ...payload }`; the characters of a text are within U+FFFF.
unfoldable pub spread : Value → Fields
unfolding index_items index_chars
spread (some (obj fs)) = fs
spread (some (arr xs)) = index_items 0 xs
spread (some (str s)) = index_chars 0 s
spread _ = end

-- `{ ...payload, hopBudget: hopBudget - 1 }` to another router, and the payload as it is to others.
abbrev pub forwarded_input : String → Value → ℤ → Value
forwarded_input skill payload budget =
    if skill == "route"
    then some (obj (set_field "hopBudget" (num (budget -ℤ pos 1)) (spread payload)))
    else payload

-- `Array.isArray(downstream.trace)` of an object.
abbrev pub nested_trace : Value → Option Items
nested_trace downstream = elim (prop? "trace" downstream) [ some (arr hops) ↦ some hops | _ ↦ none ]

abbrev pub route_output : Json → Value → Option Items → Value
route_output hop downstream none =
    some (object (("output", downstream) ∷ ("trace", some (arr (cons hop nil))) ∷ []))
route_output hop downstream (some hops) =
    some
      (object (("output", prop? "output" downstream) ∷ ("trace", some (arr (cons hop hops))) ∷ []))

module _ {S : Type 0} where
  -- `try` and `catch` around one call.
  abbrev pub attempt : {B : Type 0} → Act S Json → (Result Json → Act S B) → Act S B
  attempt m k s = k (m s).0 (m s).1

  module _ (w : Swarm S) where
    abbrev pub hop_of : RoutingEntry → Bool → ℕ → ℕ → RouteHop
    hop_of route passed t0 t1 = record {
      from = w.caller_pubkey;
      to = route.dest_pubkey;
      skill = route.skill;
      is_ok = passed;
      latency_ms = pos t1 -ℤ pos t0;
      responder_ens = route.ens;
    }

    abbrev pub failed_hop : String → RouteHop → String
    failed_hop e hop =
        append "route hop failed: "
          (append e (append " (trace: " (append (json_text (arr (cons (hop_json hop) nil))) ")")))

    -- What follows `callSkill`.
    abbrev pub routed : RoutingEntry → ℕ → Result Json → Act S Value
    routed route t0 (throw e) = do t1 ← w.now; raise (failed_hop e (hop_of route false t0 t1))
    routed route t0 (ok res) = do
      t1 ← w.now
      pure (
          route_output (hop_json (hop_of route true t0 t1)) (prop "output" res)
            (nested_trace (prop "output" res)))

    abbrev pub hop_args : RoutingEntry → Value → ℤ → CallSkillArgs
    hop_args route payload budget = record {
      dest_pubkey = route.dest_pubkey;
      caller_pubkey = w.caller_pubkey;
      skill = route.skill;
      input = forwarded_input route.skill payload budget;
      caller_inft = w.caller_inft;
      payment = none;
      expected_responder_pubkey = none;
      timeout_ms = none;
      max_response_age_ms = none;
    }

    abbrev pub forward : String → Value → ℤ → Option RoutingEntry → Act S Value
    forward tag payload budget none = raise (append "no route for tag '" (append tag "'"))
    forward tag payload budget (some route) = do
      t0 ← w.now
      attempt (w.call (hop_args route payload budget)) (routed route t0)

  unfoldable pub route_handler : Option (Swarm S) → RouteSkillInput → Act S Value
  unfolding spread hop_json
  route_handler none i = raise "agent has no swarm config — cannot route"
  route_handler (some w) i =
      if is_spent (budget_of i.hop_budget)
      then raise "hop budget exhausted"
      else forward w i.tag i.payload (budget_of i.hop_budget) (Map.get i.tag w.routing_table)
