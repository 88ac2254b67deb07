-- ===== src/Examples/Calls.antt =====
-- A call of the server that succeeds, and one that fails.
use agentdir_open_agents.Base.{
  ℕ, ◌+◌, ◌≡◌, refl, String, Bool, true, false, Option, none, some, List, [], ◌∷◌, ◌++◌, ◌==◌,
  if◌then◌else◌,
}
use agentdir_open_agents.Base.Int.{pos, ◌-ℤ◌}
use agentdir_open_agents.Signed.{sign_digest, verify_digest, digest_of}
use agentdir_open_agents.Canonical.{canonical_json}
use agentdir_open_agents.Js.Map
use agentdir_open_agents.Js.Text.{
  text_le, char_lt, strip_hex, without_two, to_lower, units, is_hex_of,
}
use agentdir_open_agents.Js.Text.Parts.{includes}
use agentdir_open_agents.Js.Number.{number_text}
use agentdir_open_agents.Js.Show.{show_value, show_json}
use agentdir_open_agents.Js.Value.{Json, str, fields_of, find_field, prop}
use agentdir_open_agents.Js.Result.{Result, ok, throw, read}
use agentdir_open_agents.Sdk.Cards.{
  build_agent_card, check_skill, check_skills, set_field, validate_agent_card, parse_agent_card,
}
use agentdir_open_agents.Sdk.Ens.{
  get_address, get_text, get_agent_card, get_record_bundle, records, reverse_fault, verify_identity,
}
use agentdir_open_agents.Agent.Protocol.{
  output, is_skill_request, is_skill_response, response_domain, response_json,
}
use agentdir_open_agents.Agent.Runtime.{AgentOpts}
use agentdir_open_agents.Agent.Runtime.Handle.{response, sign_response}
use agentdir_open_agents.Agent.Caller.{CallSkillArgs, Poll}
use agentdir_open_agents.Agent.Caller.Check.{check_response}
use agentdir_open_agents.Agent.Caller.Loop.{SendJson, call_loop, call_skill}
use agentdir_open_agents.Agent.Caller.Sound.{Any, Came}
use agentdir_open_agents.Web.Callee.{CalleeRuntime, World}
use agentdir_open_agents.Web.Trace.{CallResult, StreamEventOut, finished, Opts, Readings}
use agentdir_open_agents.Web.Calls.{
  run_call, call_agent_skill, call_agent_skill_stream, plain, args_for,
}
use agentdir_open_agents.Web.Calls.Events.{traces_of, NoFinal, call_agent_skill_stream-traces}
use agentdir_open_agents.Web.Calls.Served.{IsServed, call_over, call_agent_skill-IsServed}
use agentdir_open_agents.Examples.Toys.{toy_crypto, toy_storage}
use agentdir_open_agents.Examples.Agent
use agentdir_open_agents.Examples.Agent.{times, asked, open_link}
use agentdir_open_agents.Examples.Directory.{key, offer, client, stringify}
use agentdir_open_agents.Examples.Skills.{model}

abbrev callee : CalleeRuntime
callee = record {
  handle = "bob";
  ens = "bob.agentdir.eth";
  agent = 0;
  identity = record {
    handle = "bob";
    ens_name = "bob.agentdir.eth";
    axl_private_key_hex = key;
    axl_pubkey_hex = key;
    inft_contract = none;
    inft_token_id = none;
  };
  skills = [];
  compute = model;
  tee = false;
}

abbrev boot : String → Bool → World → Result CalleeRuntime × World
boot ens tee w = (ok callee, w)

abbrev no_runtimes : World
no_runtimes = record { runtimes = []; buses = []; running = []; started = 0 }

abbrev bob : AgentOpts
bob = record Agent.opts {
  identity = record {
    ens_name = "bob.agentdir.eth";
    axl_private_key_hex = key;
    axl_pubkey_hex = key;
    inft_token_id = none;
  };
}

abbrev reply : Json
reply = response toy_crypto toy_storage bob open_link times 90004 asked (output (some (str "hi")))

abbrev parse : String → Option Json
parse text = if text == "r" then some reply else some (build_agent_card offer)

abbrev open_wire : SendJson
open_wire to v = none

abbrev polls : List Poll
polls = record { now = 90010; checked = 90010; received = ok (some ("BB", "r")) } ∷ []

abbrev opts : Opts
opts = record { ens = "bob.agentdir.eth"; skill = "echo"; input = none; tee = false }

abbrev readings : Readings
readings = record {
  ms = pos;
  total_ms = pos 9;
  caller_pubkey = "AA";
  latency_ms = pos 4;
  last_tee_attestation = none;
  rep_before = none;
  rep_after = some "r1";
}

abbrev call : CallSkillArgs → Result Json
call = call_over toy_crypto open_wire "1" "n1" 89000 90000 polls parse

succeeded :
    (call_agent_skill readings opts boot client stringify parse call no_runtimes).0.is_ok ≡ true
unfolding call_agent_skill run_call Map.get build_agent_card prop fields_of is_hex_of show_value
    read set_field to_lower call_skill call_loop is_skill_request is_skill_response check_response
    response response_json response_domain sign_response verify_digest digest_of sign_digest
    canonical_json number_text show_json includes char_lt strip_hex text_le without_two find_field
    check_skill check_skills parse_agent_card validate_agent_card get_address get_agent_card
    get_record_bundle get_text records reverse_fault verify_identity units ◌-ℤ◌
succeeded = refl

call_agent_skill-IsServed_example :
    let v = plain readings opts boot client stringify parse call in
    (s : IsServed v readings opts boot client stringify parse no_runtimes
      (call_agent_skill readings opts boot client stringify parse call no_runtimes).0)
    × Any
        (Came toy_crypto (args_for v readings opts s.callee) parse "1" (90000 + 90000) s.answer)
        polls
call_agent_skill-IsServed_example =
    call_agent_skill-IsServed toy_crypto open_wire "1" "n1" 89000 90000 polls parse readings opts
      boot client stringify no_runtimes succeeded

abbrev failing : CallSkillArgs → List (ℕ × String) × Result Json
failing args = ((0, "h") ∷ [], throw "call timeout")

call_agent_skill_stream-traces_example :
    (es : List StreamEventOut) × (result : CallResult) × ((call_agent_skill_stream readings opts
        boot client stringify parse failing no_runtimes).0
      ≡ es ++ finished result ∷ [])
    × (traces_of es ≡ result.trace)
    × NoFinal es
call_agent_skill_stream-traces_example =
    call_agent_skill_stream-traces readings opts boot client stringify parse failing no_runtimes
