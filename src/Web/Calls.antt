-- ===== src/Web/Calls.antt =====
-- `callAgentSkill` and `callAgentSkillStream` of Frontend/lib/call-server.ts. The two differ in the
-- call that they make, in one text, and in one event, which are the fields of `Variant`. Parameters
-- are the client of viem, JSON, the boot of the runtime, and what the process reads while it runs: the
-- time of each event and of the end, the key of the caller, what the call gives, the last attestation,
-- and the head of the reputation before and after the wait for it. The queue between the call and the
-- generator is the list of its chunks.
pub mod Events
pub mod Served
use agentdir_open_agents.Base.{
  ℕ, String, Bool, true, false, ◌&&◌, ◌||◌, not, Option, none, some, List, [], ◌∷◌, ◌++◌, ◌==◌,
  length, if◌then◌else◌,
}
use agentdir_open_agents.Base.Int.{ℤ, pos, ◌-ℤ◌}
use agentdir_open_agents.Js.Map
use agentdir_open_agents.Js.Map.{Map}
use agentdir_open_agents.Js.Text.{to_lower, is_filled}
use agentdir_open_agents.Js.Text.Parts.{includes}
use agentdir_open_agents.Js.Value.{
  Json, null, bool, num, str, arr, Items, nil, cons, Value, prop, object,
}
use agentdir_open_agents.Js.Result.{Result, ok, throw}
use agentdir_open_agents.Sdk.Ens.{EnsClient, get_record_bundle, verify_identity}
use agentdir_open_agents.Sdk.Cards.{parse_agent_card}
use agentdir_open_agents.Agent.Caller.{CallSkillArgs}
use agentdir_open_agents.Web.Callee.{CalleeRuntime, World}
use agentdir_open_agents.Web.Trace.{
  TraceEvent, CallResult, StreamEventOut, Opts, Variant, Readings, Log, is_set, is_hard_fail,
  or_matched, text_value, ids_of, ids_in, chunk_events, detail_of, traced, chunked, finished,
}

module _ (v : Variant) (r : Readings) (opts : Opts) where
  abbrev pub event_of : String → Bool → Value → Log → TraceEvent
  event_of step passed detail log = record {
    step = step;
    is_ok = passed;
    ms = r.ms (length log.trace);
    detail = detail;
  }

  abbrev pub tick : String → Bool → Value → Log → Log
  tick step passed detail log =
      let ev = event_of step passed detail log in
      record { trace = log.trace ++ ev ∷ []; events = log.events ++ traced ev ∷ [] }

  abbrev pub finish : String → Log → CallResult
  finish error log = record {
    is_ok = false;
    ens = opts.ens;
    skill = opts.skill;
    output = none;
    error = some error;
    trace = log.trace;
    response_sig = none;
    responder = none;
    total_ms = r.total_ms;
    rep_head = none;
    tee_attestation = none;
  }

  -- A tick that fails, and the end.
  abbrev pub fail : String → Value → String → Log → World → CallResult × Log × World
  fail step detail error log w =
      let last = tick step false detail log in (finish error last, last, w)

  -- The `catch`.
  abbrev pub caught : String → Log → World → CallResult × Log × World
  caught e log w = fail "error" (some (str e)) e log w

  abbrev pub attestation_json : String × Bool → Value
  attestation_json (provider, verified) =
      detail_of (("provider", some (str provider)) ∷ ("verified", some (bool verified)) ∷ [])

  -- `callee.compute instanceof DirectCompute` is the variant of the runtime.
  abbrev pub tee_ticked : Bool → Option (String × Bool) → Log → Log
  tee_ticked false a log = log
  tee_ticked true none log =
      if v.notes_missing
      then tick "tee-attest" false (some (str "no attestation captured")) log
      else log
  tee_ticked true (some (provider, verified)) log =
      tick "tee-attest" verified (attestation_json (provider, verified)) log

  abbrev pub tee_of : Bool → Option (String × Bool) → Option (String × Bool)
  tee_of false a = none
  tee_of true a = a

  abbrev same_head : Option String → Option String → Bool
  same_head none none = true
  same_head (some a) (some b) = a == b
  same_head _ _ = false

  abbrev pub has_new_head : Bool
  has_new_head = is_set r.rep_after && not (same_head r.rep_after r.rep_before)

  abbrev pub rep_ticked : Log → Log
  rep_ticked log =
      if has_new_head
      then tick "rep-attestation" true
          (detail_of (("rootHash", some (text_value r.rep_after)) ∷ [])) log
      else tick "rep-attestation" false (some (str "still uploading (continues in background)")) log

  abbrev source_text : String
  source_text = if opts.tee then "0G DirectCompute (TEE)" else "0G Compute"

  abbrev pub response_ticked : Json → Log → Log
  response_ticked res log =
      tick "verify-response-sig" true (detail_of (("responder", prop "responder" res) ∷ [])) (
        tick "compute-result" true (detail_of (("source", some (str source_text)) ∷ [])) (
          tick "dispatch + sign" true (detail_of (("latencyMs", some (num r.latency_ms)) ∷ []))
            log))

  abbrev pub served : CalleeRuntime → Result Json → Log → World → CallResult × Log × World
  served callee (throw e) log w = caught e log w
  served callee (ok res) log w =
      let is_tee = opts.tee && callee.tee in
      let last = rep_ticked (tee_ticked is_tee r.last_tee_attestation (response_ticked res log)) in
      (
        record {
          is_ok = true;
          ens = opts.ens;
          skill = opts.skill;
          output = prop "output" res;
          error = none;
          trace = last.trace;
          response_sig = prop "sig" res;
          responder = prop "responder" res;
          total_ms = r.total_ms;
          rep_head = r.rep_after;
          tee_attestation = tee_of is_tee r.last_tee_attestation;
        },
        last,
        w,
      )

  abbrev pub args_for : CalleeRuntime → CallSkillArgs
  args_for callee = record {
    dest_pubkey = callee.identity.axl_pubkey_hex;
    caller_pubkey = r.caller_pubkey;
    skill = opts.skill;
    input = opts.input;
    caller_inft = none;
    payment = none;
    expected_responder_pubkey = some callee.identity.axl_pubkey_hex;
    timeout_ms = some 90000;
    max_response_age_ms = none;
  }

  -- The chunks are yielded while the call runs.
  abbrev pub dispatched : CalleeRuntime → Log → World → CallResult × Log × World
  dispatched callee log w =
      let (chunks, answer) = v.call (args_for callee) in
      served callee answer (record log { events = log.events ++ chunk_events chunks }) w

  abbrev pub is_same_key : CalleeRuntime → String → Bool
  is_same_key callee axl_pub = to_lower callee.identity.axl_pubkey_hex == to_lower axl_pub

  abbrev pub on_callee : String → Log → Result CalleeRuntime × World → CallResult × Log × World
  on_callee axl_pub log (throw e, w) = caught e log w
  on_callee axl_pub log (ok callee, w) =
      if not (is_same_key callee axl_pub)
      then fail "boot-callee" (some (str v.wrong_key)) "Server identity mismatch" log w
      else dispatched callee
          (tick "build-request" true
            (detail_of (
              ("callerPubkey", some (str r.caller_pubkey)) ∷ ("skill", some (str opts.skill)) ∷ []))
            (tick "boot-callee" true
              (detail_of
                (("handle", some (str callee.handle)) ∷ ("tee", some (bool opts.tee)) ∷ []))
              log))
          w

  module _ (boot : String → Bool → World → Result CalleeRuntime × World) where
    abbrev pub on_verified :
        String → Result (Option String) → Log → World → CallResult × Log × World
    on_verified axl_pub (throw e) log w = caught e log w
    on_verified axl_pub (ok fault) log w =
        if is_hard_fail fault
        then fail "verify-identity" (some (or_matched fault)) "Identity verification failed" log w
        else on_callee axl_pub (tick "verify-identity" true (some (or_matched fault)) log)
            (boot opts.ens opts.tee w)

    module _ (client : EnsClient) (stringify : Json → String) (parse : String → Option Json) where
      abbrev pub on_card :
          Map String → String → Result Json → Log → World → CallResult × Log × World
      on_card bundle axl_pub (throw e) log w = caught e log w
      on_card bundle axl_pub (ok card) log w =
          on_verified axl_pub (verify_identity client stringify parse opts.ens axl_pub)
            (tick "resolve-ens" true
              (detail_of (
                ("axlPubkey", some (str axl_pub))
                ∷ ("iNFT", some (text_value (Map.get "org.erc7857.tokenId" bundle)))
                ∷ ("skills", some (arr (ids_in (prop "skills" card))))
                ∷ []))
              log)
            w

      abbrev pub on_records :
          Map String → Option String → Option String → Log → World → CallResult × Log × World
      on_records bundle (some card_json) (some axl_pub) log w =
          if is_filled card_json && is_filled axl_pub
          then on_card bundle axl_pub (parse_agent_card stringify parse card_json) log w
          else fail "resolve-ens" (some (str "missing records")) "Agent not published" log w
      on_records bundle _ _ log w =
          fail "resolve-ens" (some (str "missing records")) "Agent not published" log w

      abbrev pub on_bundle : Result (Map String) → Log → World → CallResult × Log × World
      on_bundle (throw e) log w = caught e log w
      on_bundle (ok bundle) log w =
          on_records bundle (Map.get "org.a2a.agent-card" bundle)
            (Map.get "network.axl.pubkey" bundle) log w

      unfoldable pub run_call : World → CallResult × Log × World
      unfolding get_record_bundle verify_identity parse_agent_card includes
      run_call w =
          on_bundle (get_record_bundle client opts.ens) (record { trace = []; events = [] }) w

module _ (r : Readings) (opts : Opts) (boot : String → Bool → World → Result CalleeRuntime × World)
    (client : EnsClient) (stringify : Json → String) (parse : String → Option Json) where
  -- `call` is `callSkill`.
  abbrev pub plain : (CallSkillArgs → Result Json) → Variant
  plain call = record {
    call = λ args. ([], call args);
    wrong_key = "server identity does not match ENS";
    notes_missing = true;
  }

  -- `call` is `callSkillStream`, with the chunks that it passes on.
  abbrev pub streaming : (CallSkillArgs → List (ℕ × String) × Result Json) → Variant
  streaming call = record {
    call = call;
    wrong_key = "server identity mismatch";
    notes_missing = false;
  }

  unfoldable pub call_agent_skill : (CallSkillArgs → Result Json) → World → CallResult × World
  unfolding run_call
  call_agent_skill call w =
      let (result, log, after) = run_call (plain call) r opts boot client stringify parse w in
      (result, after)

  unfoldable pub call_agent_skill_stream :
      (CallSkillArgs → List (ℕ × String) × Result Json) → World → List StreamEventOut × World
  unfolding run_call
  call_agent_skill_stream call w =
      let (result, log, after) = run_call (streaming call) r opts boot client stringify parse w in
      (log.events ++ finished result ∷ [], after)
