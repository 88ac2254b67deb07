-- ===== src/Agent/Runtime/Handle.antt =====
-- The work on a request that is admitted, in packages/agent/src/agent.ts: replies, chunks, the
-- attestation and the statistics, and `handleInbound` as a whole. Of a snapshot that a request
-- starts, the flag of the running rotation is the state.
use agentdir_open_agents.Base.{
  ℕ, ◌+◌, ◌/◌, ◌%◌, String, Bool, true, false, Option, none, some, List, [], ◌∷◌, ◌++◌, eqb, not,
  if◌then◌else◌,
}
use agentdir_open_agents.Base.Int.{pos, ◌-ℤ◌}
use agentdir_open_agents.Crypto.{Crypto}
use agentdir_open_agents.Signed.{digest_of, sign_digest}
use agentdir_open_agents.Js.Map
use agentdir_open_agents.Js.Map.{Map}
use agentdir_open_agents.Js.Value.{Json, num, str, Value, truthy, or_default}
use agentdir_open_agents.Js.Result.{Result, ok, throw}
use agentdir_open_agents.Sdk.Storage.{Storage}
use agentdir_open_agents.Sdk.Rep
use agentdir_open_agents.Sdk.Rep.{RepChain, AppendInput}
use agentdir_open_agents.Agent.Act.{Act, pure, raise, ◌>>=◌, ◌>>◌}
use agentdir_open_agents.Agent.Protocol.{
  is_skill_request, SkillRequest, request_of, Answer, output, error, ResponseSigDomain,
  response_domain, response_json, ChunkSigDomain, chunk_domain, chunk_json,
}
use agentdir_open_agents.Agent.Runtime.{
  AgentOpts, Agent, Times, Stream, RegisteredSkill, SkillStat, or_else,
}
use agentdir_open_agents.Agent.Runtime.Admit.{Verdict, refuse, accept, admit}

-- What `axl.sendJson` does with a message, after those sent before: the error that it throws.
abbrev pub Link : Type 0
Link = List (String × Json) → String → Json → Option String

module _ (C : Crypto) (S : Storage) (opts : AgentOpts) (link : Link) (times : Times) where
  abbrev pub delivered : Option String → String → Json → Act (Agent S) Unit
  delivered none to v s = (ok tt, record s { sent = s.sent ++ (to, v) ∷ [] })
  delivered (some e) to v s = (throw e, s)

  unfoldable pub send_json : String → Json → Act (Agent S) Unit
  send_json to v s = delivered (link s.sent to v) to v s

  unfoldable pub sign_response : ResponseSigDomain → String
  sign_response d =
      sign_digest C opts.identity.axl_private_key_hex (digest_of C (response_domain d))

  abbrev pub domain_of : ℕ → SkillRequest → Answer → ResponseSigDomain
  domain_of ts req answer = record {
    id = some (str req.id);
    answer = answer;
    responder = some (str opts.identity.axl_pubkey_hex);
    caller = some (str req.caller_pubkey);
    skill = some (str req.skill);
    ts = some (num (pos ts));
  }

  -- The response to a request, signed.
  unfoldable pub response : ℕ → SkillRequest → Answer → Json
  unfolding sign_response
  response ts req answer = let d = domain_of ts req answer in response_json d (sign_response d)

  unfoldable pub reply_ok : String → SkillRequest → Value → Act (Agent S) Unit
  reply_ok to req out = send_json to (response times.replied req (output out))

  unfoldable pub reply_err : String → SkillRequest → String → Act (Agent S) Unit
  reply_err to req message = send_json to (response times.replied req (error (some (str message))))

  abbrev pub chunk_domain_of : SkillRequest → ℕ → String → ChunkSigDomain
  chunk_domain_of req seq text = record {
    id = some (str req.id);
    seq = some (num (pos seq));
    text = some (str text);
    responder = some (str opts.identity.axl_pubkey_hex);
    caller = some (str req.caller_pubkey);
    skill = some (str req.skill);
    ts = some (num (pos (times.chunk seq)));
  }

  unfoldable pub chunk : SkillRequest → ℕ → String → Json
  chunk req seq text =
      let d = chunk_domain_of req seq text in
      chunk_json d (sign_digest C opts.identity.axl_private_key_hex (digest_of C (chunk_domain d)))

  unfoldable pub emit_chunk : String → SkillRequest → ℕ → String → Act (Agent S) Unit
  emit_chunk to req seq text = send_json to (chunk req seq text)

  abbrev pub lift : Result Value → Act (Agent S) Value
  lift r s = (r, s)

  -- The loop over the generator.
  unfoldable pub emit_all : String → SkillRequest → ℕ → List String → Act (Agent S) Unit
  emit_all to req seq [] = pure tt
  emit_all to req seq (text ∷ texts) = do
    emit_chunk to req seq text
    emit_all to req (seq + 1) texts

  unfoldable pub stream_all : String → SkillRequest → Stream → Act (Agent S) Value
  stream_all to req gen = do emit_all to req 0 gen.yielded; lift gen.returned

  abbrev pub run_with :
      Bool → Option (Value → Stream) → String → SkillRequest → RegisteredSkill → Act (Agent S) Value
  run_with true (some handler) to req reg = stream_all to req (handler req.input)
  run_with true none to req reg = lift (reg.handler req.input)
  run_with false _ to req reg = lift (reg.handler req.input)

  unfoldable pub run_skill : String → SkillRequest → RegisteredSkill → Act (Agent S) Value
  run_skill to req reg = run_with (truthy req.stream) reg.stream_handler to req reg

  abbrev pub token_id : Option String → String
  token_id none = "0"
  token_id (some id) = id

  abbrev pub attestation : SkillRequest → Bool → AppendInput
  attestation req passed = record {
    caller_inft = or_default req.caller_inft (str "0");
    callee_inft = token_id opts.identity.inft_token_id;
    skill = req.skill;
    ok = passed;
    latency_ms = pos times.measured -ℤ pos times.started;
    tee_attestation = opts.tee_attestation;
  }

  abbrev pub appended : Result (String × Json) × RepChain × S.Store → Act (Agent S) Unit
  appended (ok _, c, store) s = (ok tt, record s { rep = c; store = store })
  appended (throw e, c, store) s = (throw e, record s { rep = c; store = store })

  unfoldable pub attest : SkillRequest → Bool → Act (Agent S) Unit
  attest req passed s =
      let run =
        Rep.append C S times.attested (attestation req passed)
          (sign_digest C opts.identity.axl_private_key_hex) s.rep s.store in
      (if opts.has_rep then appended run else pure tt) s

  abbrev pub stat_of : Option SkillStat → SkillStat
  stat_of none = record { calls = 0; ok = 0; err_last_ts = none }
  stat_of (some stat) = stat

  abbrev pub bumped : Bool → SkillStat → SkillStat
  bumped true stat = record stat { calls = stat.calls + 1; ok = stat.ok + 1 }
  bumped false stat = record stat {
    calls = stat.calls + 1;
    err_last_ts = some (times.failed / 1000);
  }

  unfoldable pub bump_stats : String → Bool → Act (Agent S) Unit
  bump_stats skill passed s = (
    ok tt,
    record s {
      calls_total = s.calls_total + 1;
      ok_total = (if passed then s.ok_total + 1 else s.ok_total);
      skill_stats =
          Map.set skill (bumped passed (stat_of (Map.get skill s.skill_stats))) s.skill_stats;
    },
  )

  abbrev pub start_rotation : Act (Agent S) Unit
  start_rotation s = (ok tt, record s { snapshot_in_flight = true })

  -- The early returns: rotation is off, this call is none of those that rotate, or the previous
  -- rotation is still running.
  abbrev pub rotate : Bool → Bool → Bool → Act (Agent S) Unit
  rotate off due running =
      if off
      then pure tt
      else if not due
      then pure tt
      else if running
      then pure tt
      else start_rotation

  unfoldable pub maybe_snapshot : Act (Agent S) Unit
  maybe_snapshot s =
      let every = or_else opts.snapshot_every 0 in
      rotate (eqb every 0) (eqb (s.calls_total % every) 0) s.snapshot_in_flight s

  -- The `try` block and its handler, and the reply after it.
  abbrev pub answered : String → SkillRequest → Result Value → Act (Agent S) Bool
  answered to req (ok out) = do reply_ok to req out; pure true
  answered to req (throw e) = do reply_err to req e; pure false

  abbrev pub attempt :
      Act (Agent S) Value → (Result Value → Act (Agent S) Bool) → Act (Agent S) Bool
  attempt m k s = k (m s).0 (m s).1

  unfoldable pub serve : String → SkillRequest → RegisteredSkill → Act (Agent S) Unit
  serve from req reg = do
    passed ← attempt (run_skill from req reg) (answered from req)
    attest req passed >> bump_stats req.skill passed >> maybe_snapshot

  abbrev pub proceed : String → SkillRequest → Result Verdict → Act (Agent S) Unit
  proceed from req (ok (refuse why)) = reply_err from req why
  proceed from req (ok (accept reg)) = serve from req reg
  proceed from req (throw e) = raise e

  unfoldable pub handle_skill_request : String → SkillRequest → Act (Agent S) Unit
  handle_skill_request from req s =
      let (verdict, seen) = admit C opts times from req s.seen_nonces in
      proceed from req verdict (record s { seen_nonces = seen })

  abbrev pub inbound : String → Json → Act (Agent S) Unit
  inbound from v = if is_skill_request v then handle_skill_request from (request_of v) else pure tt

  abbrev pub parsed : String → Option Json → Act (Agent S) Unit
  parsed from none = pure tt
  parsed from (some v) = inbound from v

  -- `parse` stands for `JSON.parse`; `none` is its exception.
  unfoldable pub handle_inbound : (String → Option Json) → String → String → Act (Agent S) Unit
  handle_inbound parse from body = parsed from (parse body)

-- A message as the runtime receives it.
pub record Inbound : Type 0 where
  pub times : Times
  pub from : String
  pub body : String

module _ (C : Crypto) (S : Storage) (opts : AgentOpts) (link : Link)
    (parse : String → Option Json) where
  -- The loop of `start` over the messages that come in; an error ends only its own message.
  unfoldable pub receive_all : List Inbound → Agent S → Agent S
  receive_all [] s = s
  receive_all (m ∷ ms) s =
      receive_all ms (handle_inbound C S opts link m.times parse m.from m.body s).1
