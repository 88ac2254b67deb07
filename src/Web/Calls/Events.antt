-- ===== src/Web/Calls/Events.antt =====
-- The events of `callAgentSkillStream` of Frontend/lib/call-server.ts against the trace of its result.
use agentdir_open_agents.Base.{
  ℕ, String, Bool, true, false, ◌&&◌, Option, none, some, List, [], ◌∷◌, ◌++◌, ◌≡◌, refl, sym, ap,
  ◌∙◌, Bool-cases, inl, inr,
}
use agentdir_open_agents.Js.Map
use agentdir_open_agents.Js.Map.{Map}
use agentdir_open_agents.Js.Text.{is_filled}
use agentdir_open_agents.Js.Value.{Json, str, Value}
use agentdir_open_agents.Js.Result.{Result, ok, throw}
use agentdir_open_agents.Sdk.Ens.{EnsClient, get_record_bundle, verify_identity}
use agentdir_open_agents.Sdk.Cards.{parse_agent_card}
use agentdir_open_agents.Agent.Caller.{CallSkillArgs}
use agentdir_open_agents.Web.Callee.{CalleeRuntime, World}
use agentdir_open_agents.Web.Trace.{
  TraceEvent, CallResult, StreamEventOut, traced, chunked, finished, Opts, Variant, Readings, Log,
  is_hard_fail, chunk_events, or_matched,
}
use agentdir_open_agents.Web.Calls.{
  event_of, has_new_head, tick, fail, tee_ticked, rep_ticked, response_ticked, served, args_for,
  dispatched, is_same_key, on_callee, on_verified, on_card, on_records, on_bundle, run_call,
  streaming, call_agent_skill_stream,
}

abbrev pub traces_of : List StreamEventOut → List TraceEvent
traces_of [] = []
traces_of (traced ev ∷ es) = ev ∷ traces_of es
traces_of (chunked seq text ∷ es) = traces_of es
traces_of (finished result ∷ es) = traces_of es

traces_of-append :
    (es fs : List StreamEventOut) → traces_of (es ++ fs) ≡ traces_of es ++ traces_of fs
traces_of-append [] fs = refl
traces_of-append (traced ev ∷ es) fs = ap (λ t. ev ∷ t) (traces_of-append es fs)
traces_of-append (chunked seq text ∷ es) fs = traces_of-append es fs
traces_of-append (finished result ∷ es) fs = traces_of-append es fs

traces_of-chunks : (cs : List (ℕ × String)) → traces_of (chunk_events cs) ≡ []
traces_of-chunks [] = refl
traces_of-chunks ((seq, text) ∷ cs) = traces_of-chunks cs

append_nil : (ts : List TraceEvent) → ts ++ [] ≡ ts
append_nil [] = refl
append_nil (t ∷ ts) = ap (λ us. t ∷ us) (append_nil ts)

abbrev pub NoFinal : List StreamEventOut → Type 0
NoFinal [] = Unit
NoFinal (finished result ∷ es) = ⊥
NoFinal (traced ev ∷ es) = NoFinal es
NoFinal (chunked seq text ∷ es) = NoFinal es

NoFinal-append : (es fs : List StreamEventOut) → NoFinal es → NoFinal fs → NoFinal (es ++ fs)
NoFinal-append [] fs n m = m
NoFinal-append (traced ev ∷ es) fs n m = NoFinal-append es fs n m
NoFinal-append (chunked seq text ∷ es) fs n m = NoFinal-append es fs n m
NoFinal-append (finished result ∷ es) fs n m = absurd n

NoFinal-chunks : (cs : List (ℕ × String)) → NoFinal (chunk_events cs)
NoFinal-chunks [] = tt
NoFinal-chunks ((seq, text) ∷ cs) = NoFinal-chunks cs

-- The events that are traces are the trace, and none is a final one.
record Faithful (log : Log) : Type 0 where
  same : traces_of log.events ≡ log.trace
  no_final : NoFinal log.events

abbrev Ends : CallResult × Log × World → Type 0
Ends (result, log, w) = Faithful log × (result.trace ≡ log.trace)

module _ (v : Variant) (r : Readings) (opts : Opts) where
  tick-Faithful :
      (step : String) (passed : Bool) (detail : Value) (log : Log)
      → Faithful log
      → Faithful (tick v r opts step passed detail log)
  tick-Faithful step passed detail log f =
      let ev = event_of v r opts step passed detail log in
      record {
        same = traces_of-append log.events (traced ev ∷ []) ∙ ap (λ t. t ++ ev ∷ []) f.same;
        no_final = NoFinal-append log.events (traced ev ∷ []) f.no_final tt;
      }

  fail-Ends :
      (step : String) (detail : Value) (error : String) (log : Log) (w : World)
      → Faithful log
      → Ends (fail v r opts step detail error log w)
  fail-Ends step detail error log w f = (tick-Faithful step false detail log f, refl)

  tee-Faithful :
      (is_tee : Bool) (a : Option (String × Bool)) (log : Log)
      → Faithful log
      → Faithful (tee_ticked v r opts is_tee a log)
  tee-Faithful false a log f = f
  tee-Faithful true none log f = elim (Bool-cases v.notes_missing) [
    | inl noted ↦ rw noted (tick-Faithful "tee-attest" false _ log f)
    | inr silent ↦ rw silent f
  ]
  tee-Faithful true (some (provider, verified)) log f = tick-Faithful "tee-attest" verified _ log f

  rep-Faithful : (log : Log) → Faithful log → Faithful (rep_ticked v r opts log)
  rep-Faithful log f = elim (Bool-cases (has_new_head v r opts)) [
    | inl moved ↦ rw moved (tick-Faithful "rep-attestation" true _ log f)
    | inr same ↦ rw same (tick-Faithful "rep-attestation" false _ log f)
  ]

  response-Faithful :
      (res : Json) (log : Log) → Faithful log → Faithful (response_ticked v r opts res log)
  response-Faithful res log f =
      tick-Faithful "verify-response-sig" true _ _
        (tick-Faithful "compute-result" true _ _ (tick-Faithful "dispatch + sign" true _ log f))

  served-Ends :
      (callee : CalleeRuntime) (answer : Result Json) (log : Log) (w : World)
      → Faithful log
      → Ends (served v r opts callee answer log w)
  served-Ends callee (throw e) log w f = fail-Ends "error" (some (str e)) e log w f
  served-Ends callee (ok res) log w f = (
    rep-Faithful _ (
        tee-Faithful (opts.tee && callee.tee) r.last_tee_attestation _
          (response-Faithful res log f)),
    refl,
  )

  dispatched-Ends :
      (callee : CalleeRuntime) (log : Log) (w : World)
      → Faithful log
      → Ends (dispatched v r opts callee log w)
  dispatched-Ends callee log w f =
      let chunks = (v.call (args_for v r opts callee)).0 in
      served-Ends callee (v.call (args_for v r opts callee)).1 _ w (record {
        same =
            traces_of-append log.events (chunk_events chunks)
            ∙ ap (λ t. traces_of log.events ++ t) (traces_of-chunks chunks)
            ∙ append_nil (traces_of log.events)
            ∙ f.same;
        no_final =
            NoFinal-append log.events (chunk_events chunks) f.no_final (NoFinal-chunks chunks);
      })

  on_callee-Ends :
      (axl_pub : String) (log : Log) (booted : Result CalleeRuntime × World)
      → Faithful log
      → Ends (on_callee v r opts axl_pub log booted)
  on_callee-Ends axl_pub log (throw e, w) f = fail-Ends "error" (some (str e)) e log w f
  on_callee-Ends axl_pub log (ok callee, w) f =
      elim (Bool-cases (is_same_key v r opts callee axl_pub)) [
        | inr other ↦
            rw other
              (fail-Ends "boot-callee" (some (str v.wrong_key)) "Server identity mismatch" log w f)
        | inl same ↦ rw same (
            dispatched-Ends callee _ w
              (tick-Faithful "build-request" true _ _ (tick-Faithful "boot-callee" true _ log f)))
      ]

  module _ (boot : String → Bool → World → Result CalleeRuntime × World) where
    on_verified-Ends :
        (axl_pub : String) (fault : Result (Option String)) (log : Log) (w : World)
        → Faithful log
        → Ends (on_verified v r opts boot axl_pub fault log w)
    on_verified-Ends axl_pub (throw e) log w f = fail-Ends "error" (some (str e)) e log w f
    on_verified-Ends axl_pub (ok fault) log w f = elim (Bool-cases (is_hard_fail fault)) [
      | inl hard ↦ rw hard (
          fail-Ends "verify-identity" (some (or_matched fault)) "Identity verification failed" log w
            f)
      | inr soft ↦ rw soft (
          on_callee-Ends axl_pub _ (boot opts.ens opts.tee w)
            (tick-Faithful "verify-identity" true _ log f))
    ]

    module _ (client : EnsClient) (stringify : Json → String) (parse : String → Option Json) where
      on_card-Ends :
          (bundle : Map String) (axl_pub : String) (card : Result Json) (log : Log) (w : World)
          → Faithful log
          → Ends (on_card v r opts boot client stringify parse bundle axl_pub card log w)
      on_card-Ends bundle axl_pub (throw e) log w f = fail-Ends "error" (some (str e)) e log w f
      on_card-Ends bundle axl_pub (ok card) log w f =
          on_verified-Ends axl_pub (verify_identity client stringify parse opts.ens axl_pub) _ w
            (tick-Faithful "resolve-ens" true _ log f)

      missing-Ends :
          (log : Log) (w : World)
          → Faithful log
          → Ends (
              fail v r opts "resolve-ens"
                (some (str "missing records"))
                "Agent not published"
                log
                w)
      missing-Ends log w f =
          fail-Ends "resolve-ens" (some (str "missing records")) "Agent not published" log w f

      on_records-Ends :
          (bundle : Map String) (card axl_pub : Option String) (log : Log) (w : World)
          → Faithful log
          → Ends (on_records v r opts boot client stringify parse bundle card axl_pub log w)
      on_records-Ends bundle (some card) (some axl_pub) log w f =
          elim (Bool-cases (is_filled card && is_filled axl_pub)) [
            | inl both ↦
                rw both
                  (on_card-Ends bundle axl_pub (parse_agent_card stringify parse card) log w f)
            | inr missing ↦ rw missing (missing-Ends log w f)
          ]
      on_records-Ends bundle none axl_pub log w f = missing-Ends log w f
      on_records-Ends bundle (some card) none log w f = missing-Ends log w f

      on_bundle-Ends :
          (bundle : Result (Map String)) (log : Log) (w : World)
          → Faithful log
          → Ends (on_bundle v r opts boot client stringify parse bundle log w)
      on_bundle-Ends (throw e) log w f = fail-Ends "error" (some (str e)) e log w f
      on_bundle-Ends (ok bundle) log w f =
          on_records-Ends bundle (Map.get "org.a2a.agent-card" bundle)
            (Map.get "network.axl.pubkey" bundle) log w f

-- Whatever happens, `callAgentSkillStream` yields one final event, as its last one, and before it the
-- events of the trace of that result, each of them, in their order, and nothing else but chunks.
pub call_agent_skill_stream-traces :
    (r : Readings) (opts : Opts) (boot : String → Bool → World → Result CalleeRuntime × World)
    (client : EnsClient) (stringify : Json → String) (parse : String → Option Json)
    (call : CallSkillArgs → List (ℕ × String) × Result Json) (w : World)
    → (es : List StreamEventOut) × (result : CallResult) × ((call_agent_skill_stream r opts boot
          client stringify parse call w).0
        ≡ es ++ finished result ∷ [])
      × (traces_of es ≡ result.trace)
      × NoFinal es
unfolding call_agent_skill_stream run_call
call_agent_skill_stream-traces r opts boot client stringify parse call w =
    let v = streaming r opts boot client stringify parse call in
    let out = run_call v r opts boot client stringify parse w in
    let (f, same) =
      on_bundle-Ends v r opts boot client stringify parse (get_record_bundle client opts.ens)
        (record { trace = []; events = [] }) w (record { same = refl; no_final = tt }) in
    (out.1.events, out.0, refl, f.same ∙ sym same, f.no_final)
