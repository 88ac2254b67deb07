-- ===== src/Agent/Caller/Loop.antt =====
-- `callSkill` and `callSkillStream` of packages/agent/src/caller.ts. The callbacks `onForeignMessage`
-- and `onChunk` are the lists of what they were called with; they do not throw here. A run over the
-- polls of a call may end before the call does: its outcome is then `waiting`.
use agentdir_open_agents.Base.{
  ℕ, ◌+◌, String, true, Option, none, some, List, [], ◌∷◌, ◌++◌, ltb, not, if◌then◌else◌,
}
use agentdir_open_agents.Base.Int.{pos}
use agentdir_open_agents.Crypto.{Crypto}
use agentdir_open_agents.Js.Value.{Json, bool, Value, prop, is_text_eq}
use agentdir_open_agents.Js.Result.{Result, ok, throw}
use agentdir_open_agents.Agent.Protocol.{
  SkillRequest, request_json, is_skill_request, is_skill_response, is_skill_chunk,
}
use agentdir_open_agents.Agent.Caller.{CallSkillArgs, timeout, Poll}
use agentdir_open_agents.Agent.Caller.Check.{check_response, check_chunk}

pub data Outcome : Type 0 where
  settled : Result Json → Outcome
  waiting : Outcome

abbrev pub Message : Type 0
Message = String × String

-- One round of the loop.
pub data Round : Type 0 where
  skip : Round
  forward : Message → Round
  deliver : Json → Round
  done : Result Json → Round

abbrev pub taken : Result Json → Round
taken (ok c) = deliver c
taken (throw e) = done (throw e)

-- What a call has passed on: foreign messages and chunks.
pub record Log : Type 0 where
  pub foreign : List Message
  pub chunks : List Json

abbrev pub empty_log : Log
empty_log = record { foreign = []; chunks = [] }

module _ (C : Crypto) (args : CallSkillArgs) (parse : String → Option Json) (id : String)
    (deadline : ℕ) where
  abbrev pub on_response : ℕ → Message → Json → Round
  on_response now m v =
      if is_skill_request v
      then forward m
      else if not (is_skill_response v)
      then forward m
      else if not (is_text_eq id (prop "id" v))
      then skip
      else done (check_response C args now v)

  abbrev pub on_chunk : ℕ → ℕ → Json → Round
  on_chunk next_seq now v =
      if not (is_text_eq id (prop "id" v)) then skip else taken (check_chunk C args now v next_seq)

  abbrev pub on_stream : ℕ → ℕ → Message → Json → Round
  on_stream next_seq now m v =
      if is_skill_chunk v then on_chunk next_seq now v else on_response now m v

  abbrev pub on_parsed : (Json → Round) → Message → Option Json → Round
  on_parsed on_value m none = forward m
  on_parsed on_value m (some v) = on_value v

  abbrev pub on_received : (Message → Json → Round) → Result (Option (String × String)) → Round
  on_received on_value (throw e) = done (throw e)
  on_received on_value (ok none) = skip
  on_received on_value (ok (some (from, body))) =
      on_parsed (on_value (from, body)) (from, body) (parse body)

  -- `while (Date.now() < deadline)`
  abbrev pub round : (ℕ → Message → Json → Round) → Poll → Round
  round on_value p =
      if ltb p.now deadline
      then on_received (on_value p.checked) p.received
      else done (throw "call timeout")

  unfoldable pub call_loop : List Poll → Log → Outcome × Log
  call_loop [] log = (waiting, log)
  call_loop (p ∷ ps) log = elim (round on_response p) [
    | skip ↦ call_loop ps log
    | forward m ↦ call_loop ps (record log { foreign = log.foreign ++ m ∷ [] })
    | deliver c ↦ call_loop ps log
    | done outcome ↦ (settled outcome, log)
  ]

  unfoldable pub stream_loop : ℕ → List Poll → Log → Outcome × Log
  stream_loop next_seq [] log = (waiting, log)
  stream_loop next_seq (p ∷ ps) log = elim (round (on_stream next_seq) p) [
    | skip ↦ stream_loop next_seq ps log
    | forward m ↦ stream_loop next_seq ps (record log { foreign = log.foreign ++ m ∷ [] })
    | deliver c ↦ stream_loop (next_seq + 1) ps (record log { chunks = log.chunks ++ c ∷ [] })
    | done outcome ↦ (settled outcome, log)
  ]

-- The request of a call: a fresh id, a fresh nonce and the time.
abbrev pub request_for : CallSkillArgs → String → String → ℕ → Value → SkillRequest
request_for args id nonce now stream = record {
  id = id;
  nonce = nonce;
  ts = pos now;
  skill = args.skill;
  input = args.input;
  payment = args.payment;
  caller_inft = args.caller_inft;
  caller_pubkey = args.caller_pubkey;
  stream = stream;
}

-- What `sendJson` does with the request: an error that it throws, or nothing.
abbrev pub SendJson : Type 0
SendJson = String → Json → Option String

abbrev unless_sent : Option String → Outcome × Log → Outcome × Log
unless_sent none call = call
unless_sent (some e) call = (settled (throw e), empty_log)

module _ (C : Crypto) (args : CallSkillArgs) (parse : String → Option Json) (send_json : SendJson)
    (id nonce : String) (sent_at : ℕ) (started : ℕ) where
  unfoldable pub call_skill : List Poll → Outcome × Log
  unfolding call_loop
  call_skill polls =
      unless_sent
        (send_json args.dest_pubkey (request_json (request_for args id nonce sent_at none)))
        (call_loop C args parse id (started + timeout 30000 args) polls empty_log)

  unfoldable pub call_skill_stream : List Poll → Outcome × Log
  unfolding stream_loop
  call_skill_stream polls =
      unless_sent
        (send_json args.dest_pubkey
          (request_json (request_for args id nonce sent_at (some (bool true)))))
        (stream_loop C args parse id (started + timeout 90000 args) 0 polls empty_log)
