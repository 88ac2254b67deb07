-- ===== src/Agent/Runtime/Frame.antt =====
-- What the steps of a request in packages/agent/src/agent.ts leave alone.
use agentdir_open_agents.Base.{ℕ, ◌+◌, String, Bool, true, false, Option, none, some, List, [], ◌∷◌}
use agentdir_open_agents.Crypto.{Crypto}
use agentdir_open_agents.Js.Value.{Json, Value}
use agentdir_open_agents.Js.Result.{Result, ok, throw}
use agentdir_open_agents.Sdk.Storage.{Storage}
use agentdir_open_agents.Sdk.Rep.{RepChain}
use agentdir_open_agents.Agent.Act.{Act, Keeps, Keeps-bind, Keeps-if, Keeps-pure, ◌>>◌}
use agentdir_open_agents.Agent.Protocol.{SkillRequest}
use agentdir_open_agents.Agent.Runtime.{AgentOpts, Agent, Times, Stream, RegisteredSkill}
use agentdir_open_agents.Agent.Runtime.Admit.{Verdict, refuse, accept, admit}
use agentdir_open_agents.Agent.Runtime.Handle.{
  Link, delivered, send_json, reply_ok, reply_err, emit_chunk, emit_all, stream_all, run_with,
  run_skill, attest, appended, bump_stats, maybe_snapshot, answered, serve, proceed, attempt,
  rotate, handle_skill_request,
}

module _ (C : Crypto) (S : Storage) (opts : AgentOpts) (link : Link) (times : Times)
    (P : Agent S → Type 0) where
  -- A predicate that no step after the reply breaks, whatever the step writes.
  pub record IsStableLate : Type 0 where
    pub attests :
        (s : Agent S) (c : RepChain) (store : S.Store)
        → P s
        → P (record s { rep = c; store = store })
    pub bumps :
        (skill : String) (passed : Bool) → Keeps P (bump_stats C S opts link times skill passed)
    pub snapshots : (s : Agent S) → P s → P (record s { snapshot_in_flight = true })

  -- And no step that sends breaks it either.
  pub record IsStable : Type 0 where
    pub sends : (s : Agent S) (sent : List (String × Json)) → P s → P (record s { sent = sent })
    pub late : IsStableLate

  module _ (late : IsStableLate) where
    appended-Keeps :
        (r : Result (String × Json)) (c : RepChain) (store : S.Store)
        → Keeps P (appended C S opts link times (r, c, store))
    appended-Keeps (ok a) c store = record { at = λ s h. late.attests s c store h }
    appended-Keeps (throw e) c store = record { at = λ s h. late.attests s c store h }

    attest-Keeps :
        (req : SkillRequest) (passed : Bool) → Keeps P (attest C S opts link times req passed)
    unfolding attest
    attest-Keeps req passed = record {
      at = λ s h. (Keeps-if P opts.has_rep _ _ (appended-Keeps _ _ _) (Keeps-pure P tt)).at s h;
    }

    rotate-Keeps : (a b c : Bool) → Keeps P (rotate C S opts link times a b c)
    rotate-Keeps true b c = record { at = λ s h. h }
    rotate-Keeps false false c = record { at = λ s h. h }
    rotate-Keeps false true true = record { at = λ s h. h }
    rotate-Keeps false true false = record { at = λ s h. late.snapshots s h }

    maybe_snapshot-Keeps : Keeps P (maybe_snapshot C S opts link times)
    unfolding maybe_snapshot
    maybe_snapshot-Keeps = record { at = λ s h. (rotate-Keeps _ _ _).at s h }

    -- Attestation, statistics and snapshot.
    pub finish-Keeps :
        (req : SkillRequest) (passed : Bool)
        → Keeps P (
            attest C S opts link times req passed
            >> bump_stats C S opts link times req.skill passed
            >> maybe_snapshot C S opts link times)
    finish-Keeps req passed =
        Keeps-bind P _ _
          (Keeps-bind P _ _ (attest-Keeps req passed) λ _. late.bumps req.skill passed)
          λ _. maybe_snapshot-Keeps

  module _ (stable : IsStable) where
    delivered-Keeps :
        (o : Option String) (to : String) (v : Json)
        → Keeps P (delivered C S opts link times o to v)
    delivered-Keeps none to v = record { at = λ s h. stable.sends s _ h }
    delivered-Keeps (some e) to v = record { at = λ s h. h }

    send_json-Keeps : (to : String) (v : Json) → Keeps P (send_json C S opts link times to v)
    unfolding send_json
    send_json-Keeps to v = record { at = λ s h. (delivered-Keeps (link s.sent to v) to v).at s h }

    emit_all-Keeps :
        (to : String) (req : SkillRequest) (seq : ℕ) (texts : List String)
        → Keeps P (emit_all C S opts link times to req seq texts)
    unfolding emit_all emit_chunk
    emit_all-Keeps to req seq [] = record { at = λ s h. h }
    emit_all-Keeps to req seq (text ∷ texts) =
        Keeps-bind P _ _ (send_json-Keeps to _) λ _. emit_all-Keeps to req (seq + 1) texts

    run_with-Keeps :
        (b : Bool) (h : Option (Value → Stream)) (to : String) (req : SkillRequest)
        (reg : RegisteredSkill)
        → Keeps P (run_with C S opts link times b h to req reg)
    unfolding stream_all
    run_with-Keeps true (some h) to req reg =
        Keeps-bind P _ _ (emit_all-Keeps to req 0 _) λ _. record { at = λ s p. p }
    run_with-Keeps true none to req reg = record { at = λ s p. p }
    run_with-Keeps false _ to req reg = record { at = λ s p. p }

    answered-Keeps :
        (to : String) (req : SkillRequest) (r : Result Value)
        → Keeps P (answered C S opts link times to req r)
    unfolding reply_ok reply_err
    answered-Keeps to req (ok out) =
        Keeps-bind P _ _ (send_json-Keeps to _) λ _. record { at = λ s p. p }
    answered-Keeps to req (throw e) =
        Keeps-bind P _ _ (send_json-Keeps to _) λ _. record { at = λ s p. p }

    attempt-Keeps :
        (m : Act (Agent S) Value) (k : Result Value → Act (Agent S) Bool)
        → Keeps P m
        → ((r : Result Value) → Keeps P (k r))
        → Keeps P (attempt C S opts link times m k)
    attempt-Keeps m k km kk = record { at = λ s h. (kk (m s).0).at (m s).1 (km.at s h) }

    serve-Keeps :
        (from : String) (req : SkillRequest) (reg : RegisteredSkill)
        → Keeps P (serve C S opts link times from req reg)
    unfolding serve run_skill
    serve-Keeps from req reg =
        Keeps-bind P _ _
          (attempt-Keeps _ _ (run_with-Keeps _ reg.stream_handler from req reg)
            (answered-Keeps from req))
          λ passed. finish-Keeps stable.late req passed

    proceed-Keeps :
        (from : String) (req : SkillRequest) (v : Result Verdict)
        → Keeps P (proceed C S opts link times from req v)
    unfolding reply_err
    proceed-Keeps from req (ok (refuse why)) = send_json-Keeps from _
    proceed-Keeps from req (ok (accept reg)) = serve-Keeps from req reg
    proceed-Keeps from req (throw e) = record { at = λ s h. h }

  -- Whatever message comes in, and whatever happens to it, `P` holds afterwards, if no step breaks
  -- it and the nonces that the request leaves do not.
  pub handle_skill_request-Keeps :
      (stable : IsStable) (from : String) (req : SkillRequest) (s : Agent S)
      → P (record s { seen_nonces = (admit C opts times from req s.seen_nonces).1 })
      → P (handle_skill_request C S opts link times from req s).1
  unfolding handle_skill_request
  handle_skill_request-Keeps stable from req s h =
      (proceed-Keeps stable from req (admit C opts times from req s.seen_nonces).0).at
        (record s { seen_nonces = (admit C opts times from req s.seen_nonces).1 }) h
