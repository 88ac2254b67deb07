-- ===== src/Examples/Caller.antt =====
-- A caller of the agent of Examples.Agent.
use Prim.Native.String.{◌++◌ as append}
use agentdir_open_agents.Base.{
  ◌==◌, if◌then◌else◌, ℕ, ◌+◌, ◌≤◌, ◌≡◌, ◌≢◌, refl, String, Option, none, some, List, [], ◌∷◌,
  arith,
}
use agentdir_open_agents.Base.Int.{◌-ℤ◌}
use agentdir_open_agents.Signed.{sign_digest, verify_digest, digest_of}
use agentdir_open_agents.Canonical.{canonical_json}
use agentdir_open_agents.Js.Text.{text_le, char_lt, strip_hex, without_two, to_lower, units}
use agentdir_open_agents.Js.Number.{number_text}
use agentdir_open_agents.Js.Value.{Json, str, Value, fields_of, prop}
use agentdir_open_agents.Js.Result.{ok, throw}
use agentdir_open_agents.Agent.Protocol.{
  Answer, output, error, is_skill_request, is_skill_response, is_skill_chunk, response_domain,
  response_json, chunk_domain, chunk_json,
}
use agentdir_open_agents.Agent.Runtime.Handle.{response, chunk, sign_response}
use agentdir_open_agents.Agent.Caller.{CallSkillArgs, Poll, timeout}
use agentdir_open_agents.Agent.Caller.Check.{check_response, check_chunk}
use agentdir_open_agents.Agent.Caller.Loop.{
  settled, waiting, SendJson, call_loop, stream_loop, call_skill, call_skill_stream,
}
use agentdir_open_agents.Agent.Caller.Sound.{Any, Came, IsRun}
use agentdir_open_agents.Agent.Caller.Calls.{
  call_skill-Came, call_skill_stream-Came, call_skill_stream-IsRun, calls_end,
}
use agentdir_open_agents.Agent.Caller.Trip.{IsFor, check_response-response, check_chunk-chunk}
use agentdir_open_agents.Examples.Toys.{toy_crypto, toy_crypto-IsSound, toy_storage}
use agentdir_open_agents.Examples.Agent.{opts, times, asked, open_link}

abbrev args : CallSkillArgs
args = record {
  dest_pubkey = "B0B";
  caller_pubkey = "AA";
  skill = "echo";
  input = none;
  caller_inft = none;
  payment = none;
  expected_responder_pubkey = none;
  timeout_ms = none;
  max_response_age_ms = none;
}

asked-IsFor : IsFor toy_crypto opts args asked
unfolding strip_hex to_lower
asked-IsFor = record { responder = refl; key = refl; caller = refl; skill = refl }

abbrev answer : Answer → Json
answer = response toy_crypto toy_storage opts open_link times 90004 asked

check_response-response_example :
    ((out : Value)
      → check_response toy_crypto args 90100 (answer (output out)) ≡ ok (answer (output out)))
    × ((e : String)
        → check_response toy_crypto args 90100 (answer (error (some (str e))))
          ≡ throw (append "remote: " e))
unfolding ◌-ℤ◌
check_response-response_example =
    check_response-response toy_crypto toy_storage opts open_link times args asked
      toy_crypto-IsSound asked-IsFor 90100 90004 (omega arith)

check_chunk-chunk_example :
    check_chunk toy_crypto args 90100
      (chunk toy_crypto toy_storage opts open_link times asked 0 "h")
      0
    ≡ ok (chunk toy_crypto toy_storage opts open_link times asked 0 "h")
unfolding ◌-ℤ◌
check_chunk-chunk_example =
    check_chunk-chunk toy_crypto toy_storage opts open_link times args asked toy_crypto-IsSound
      asked-IsFor 90100 0 "h" (omega arith)

abbrev reply : Json
reply = response toy_crypto toy_storage opts open_link times 90004 asked (output (some (str "hi")))

abbrev first_chunk : Json
first_chunk = chunk toy_crypto toy_storage opts open_link times asked 0 "h"

abbrev parse : String → Option Json
parse text = if text == "r" then some reply else if text == "c" then some first_chunk else none

abbrev open_wire : SendJson
open_wire to v = none

abbrev poll : ℕ → String → Poll
poll now text = record { now = now; checked = now; received = ok (some ("BB", text)) }

abbrev polls : List Poll
polls = poll 90010 "?" ∷ poll 90020 "c" ∷ poll 90030 "r" ∷ []

returned :
    (call_skill toy_crypto args parse open_wire "1" "n1" 89000 90000 polls).0 ≡ settled (ok reply)
unfolding call_skill call_loop check_response is_skill_request is_skill_response prop fields_of
    response sign_response response_json response_domain digest_of verify_digest sign_digest
    canonical_json strip_hex without_two to_lower units ◌-ℤ◌ number_text text_le char_lt chunk
    chunk_json
returned = refl

streamed :
    (call_skill_stream toy_crypto args parse open_wire "1" "n1" 89000 90000 polls).0
    ≡ settled (ok reply)
unfolding call_skill_stream stream_loop check_response check_chunk is_skill_request
    is_skill_response is_skill_chunk prop fields_of response chunk sign_response response_json
    response_domain chunk_json chunk_domain digest_of verify_digest sign_digest canonical_json
    strip_hex without_two to_lower units ◌-ℤ◌ number_text text_le char_lt
streamed = refl

call_skill-Came_example :
    Any (Came toy_crypto args parse "1" (90000 + timeout 30000 args) reply) polls
call_skill-Came_example =
    call_skill-Came toy_crypto args parse open_wire "1" "n1" 89000 90000 polls reply returned

call_skill_stream-Came_example :
    Any (Came toy_crypto args parse "1" (90000 + timeout 90000 args) reply) polls
call_skill_stream-Came_example =
    call_skill_stream-Came toy_crypto args parse open_wire "1" "n1" 89000 90000 polls reply streamed

call_skill_stream-IsRun_example :
    IsRun toy_crypto args parse "1"
      (90000 + timeout 90000 args)
      0
      polls
      (call_skill_stream toy_crypto args parse open_wire "1" "n1" 89000 90000 polls).1.chunks
call_skill_stream-IsRun_example =
    call_skill_stream-IsRun toy_crypto args parse open_wire "1" "n1" 89000 90000 polls

abbrev late_polls : List Poll
late_polls = poll 90010 "?" ∷ poll 190000 "r" ∷ []

calls_end_example :
    (Any (λ p. 90000 + timeout 30000 args ≤ p.now) late_polls
      → (call_skill toy_crypto args parse open_wire "1" "n1" 89000 90000 late_polls).0 ≢ waiting)
    × (Any (λ p. 90000 + timeout 90000 args ≤ p.now) late_polls
        → (call_skill_stream toy_crypto args parse open_wire "1" "n1" 89000 90000 late_polls).0
          ≢ waiting)
calls_end_example = calls_end toy_crypto args parse open_wire "1" "n1" 89000 90000 late_polls
