-- ===== src/Agent/Runtime/Replies.antt =====
-- What packages/agent/src/agent.ts sends for a request.
use mathlib.Core.List.{append-nil, append_assoc}
use agentdir_open_agents.Base.{
  ℕ, ◌+◌, ◌≡◌, refl, ◌∙◌, ap, String, Bool, true, false, Option, none, some, List, [], ◌∷◌, ◌++◌,
}
use agentdir_open_agents.Base.Int.{pos}
use agentdir_open_agents.Crypto.{Crypto}
use agentdir_open_agents.Js.Value.{Json, num, str, Value, truthy, prop, fields_of}
use agentdir_open_agents.Js.Result.{Result, ok, throw}
use agentdir_open_agents.Sdk.Storage.{Storage}
use agentdir_open_agents.Agent.Protocol.{
  SkillRequest, Answer, output, error, is_skill_response, is_skill_chunk, response_json, chunk_json,
}
use agentdir_open_agents.Agent.Runtime.{AgentOpts, Agent, Times, Stream, RegisteredSkill}
use agentdir_open_agents.Agent.Runtime.Admit.{Verdict, refuse, accept, admit}
use agentdir_open_agents.Agent.Runtime.Handle.{
  Link, send_json, response, chunk, reply_ok, reply_err, emit_chunk, emit_all, stream_all, run_with,
  run_skill, bump_stats, answered, serve, proceed, handle_skill_request,
}
use agentdir_open_agents.Agent.Runtime.Frame.{IsStableLate, finish-Keeps}

abbrev pub Frames : Type 0
Frames = List (String × Json)

-- The frames that answer a request: chunks numbered from `seq` on, and then one response, all sent
-- to the peer and all under the id of the request.
abbrev pub IsAnswer : String → String → ℕ → Frames → Type 0
IsAnswer to id seq [] = ⊥
IsAnswer to id seq ((t, v) ∷ []) =
    (t ≡ to) × (is_skill_response v ≡ true) × (prop "id" v ≡ some (str id))
IsAnswer to id seq ((t, v) ∷ w ∷ ws) =
    (t ≡ to)
    × (is_skill_chunk v ≡ true)
    × (prop "id" v ≡ some (str id))
    × (prop "seq" v ≡ some (num (pos seq)))
    × IsAnswer to id (seq + 1) (w ∷ ws)

-- Every message is delivered.
abbrev pub IsReliable : Link → Type 0
IsReliable link = (sent : Frames) (to : String) (v : Json) → link sent to v ≡ none

module _ (C : Crypto) (S : Storage) (opts : AgentOpts) (link : Link) (times : Times)
    (reliable : IsReliable link) where
  abbrev after_sent : Agent S → Frames → Agent S
  after_sent s frames = record s { sent = s.sent ++ frames }

  abbrev done_after : Agent S → Frames → Result (Unit {0}) × Agent S
  done_after s sent = (ok tt, record s { sent = sent })

  send_json-sent :
      (to : String) (v : Json) (s : Agent S)
      → send_json C S opts link times to v s ≡ (ok tt, record s { sent = s.sent ++ (to, v) ∷ [] })
  unfolding send_json
  send_json-sent to v s = rw (reliable s.sent to v)

  abbrev chunks : String → SkillRequest → ℕ → List String → Frames
  chunks to req seq [] = []
  chunks to req seq (text ∷ texts) =
      (to, chunk C S opts link times req seq text) ∷ chunks to req (seq + 1) texts

  emit_all-sent :
      (to : String) (req : SkillRequest) (seq : ℕ) (texts : List String) (s : Agent S)
      → emit_all C S opts link times to req seq texts s
        ≡ (ok tt, record s { sent = s.sent ++ chunks to req seq texts })
  unfolding emit_all emit_chunk
  emit_all-sent to req seq [] s = rw append-nil
  emit_all-sent to req seq (text ∷ texts) s =
      let frame : String × Json = (to, chunk C S opts link times req seq text) in
      let s' = after_sent s (frame ∷ []) in
      rw (send_json-sent to (chunk C S opts link times req seq text) s) (
        emit_all-sent to req (seq + 1) texts s'
        ∙ ap (done_after s) (append_assoc s.sent (frame ∷ []) _))

  response-IsAnswer :
      (to : String) (req : SkillRequest) (seq ts : ℕ) (answer : Answer)
      → IsAnswer to req.id seq ((to, response C S opts link times ts req answer) ∷ [])
  unfolding response response_json is_skill_response prop fields_of
  response-IsAnswer to req seq ts answer = (refl, refl, refl)

  chunks-IsAnswer :
      (to : String) (req : SkillRequest) (seq : ℕ) (texts : List String) (answer : Answer)
      → IsAnswer to req.id seq (
          chunks to req seq texts
          ++ (to, response C S opts link times times.replied req answer) ∷ [])
  unfolding chunk chunk_json is_skill_chunk prop fields_of
  chunks-IsAnswer to req seq [] answer = response-IsAnswer to req seq times.replied answer
  chunks-IsAnswer to req seq (text ∷ []) answer =
      (refl, refl, refl, refl, response-IsAnswer to req (seq + 1) times.replied answer)
  chunks-IsAnswer to req seq (text ∷ u ∷ texts) answer =
      (refl, refl, refl, refl, chunks-IsAnswer to req (seq + 1) (u ∷ texts) answer)

  run_with-sent :
      (b : Bool) (h : Option (Value → Stream)) (to : String) (req : SkillRequest)
      (reg : RegisteredSkill) (s : Agent S)
      → (texts : List String) × (r : Result Value) × (run_with C S opts link times b h to req reg s
          ≡ (r, after_sent s (chunks to req 0 texts)))
  unfolding stream_all
  run_with-sent true (some h) to req reg s =
      let gen = h req.input in
      (gen.yielded, gen.returned, rw (emit_all-sent to req 0 gen.yielded s))
  run_with-sent true none to req reg s = ([], reg.handler req.input, rw append-nil)
  run_with-sent false _ to req reg s = ([], reg.handler req.input, rw append-nil)

  answered-sent :
      (to : String) (req : SkillRequest) (r : Result Value) (s : Agent S)
      → (answer : Answer) × (passed : Bool) × (answered C S opts link times to req r s ≡ (
        ok passed,
        after_sent s ((to, response C S opts link times times.replied req answer) ∷ []),
      ))
  unfolding reply_ok reply_err
  answered-sent to req (ok out) s = (
    output out,
    true,
    rw (send_json-sent to (response C S opts link times times.replied req (output out)) s),
  )
  answered-sent to req (throw e) s =
      let answer = error (some (str e)) in
      (
        answer,
        false,
        rw (send_json-sent to (response C S opts link times times.replied req answer) s),
      )

  -- What was sent is left alone after the reply.
  quiet : (frames : Frames) → IsStableLate C S opts link times (λ t. t.sent ≡ frames)
  unfolding bump_stats
  quiet frames = record {
    attests = λ s c store h. h;
    bumps = λ skill passed. record { at = λ s h. h };
    snapshots = λ s h. h;
  }

  serve-sent :
      (from : String) (req : SkillRequest) (reg : RegisteredSkill) (s : Agent S)
      → (frames : Frames) × ((serve C S opts link times from req reg s).1.sent ≡ s.sent ++ frames)
        × IsAnswer from req.id 0 frames
  unfolding serve run_skill
  serve-sent from req reg s =
      let (texts, r, ran) = run_with-sent (truthy req.stream) reg.stream_handler from req reg s in
      let s' = after_sent s (chunks from req 0 texts) in
      let (answer, passed, replied) = answered-sent from req r s' in
      let frames =
        chunks from req 0 texts
        ++ (from, response C S opts link times times.replied req answer) ∷ [] in
      let late : IsStableLate C S opts link times (λ t. t.sent ≡ s.sent ++ frames) =
        quiet (s.sent ++ frames) in
      (
        frames,
        rw (ran, replied)
            ((finish-Keeps C S opts link times _ late req passed).at _
              (append_assoc s.sent (chunks from req 0 texts) _)),
        chunks-IsAnswer from req 0 texts answer,
      )

  refused-sent :
      (from : String) (req : SkillRequest) (why : String) (s : Agent S)
      → (frames : Frames) × ((reply_err C S opts link times from req why s).1.sent
          ≡ s.sent ++ frames)
        × IsAnswer from req.id 0 frames
  unfolding reply_err
  refused-sent from req why s =
      let answer = error (some (str why)) in
      let v = response C S opts link times times.replied req answer in
      (
        (from, v) ∷ [],
        rw (send_json-sent from v s),
        response-IsAnswer from req 0 times.replied answer,
      )

  proceed-sent :
      (from : String) (req : SkillRequest) (verdict : Verdict) (s : Agent S)
      → (frames : Frames) × ((proceed C S opts link times from req (ok verdict) s).1.sent
          ≡ s.sent ++ frames)
        × IsAnswer from req.id 0 frames
  proceed-sent from req (refuse why) s = refused-sent from req why s
  proceed-sent from req (accept reg) s = serve-sent from req reg s

  -- Where every message is delivered, a request on which a verdict is reached, refused or admitted,
  -- and whether its skill returns or throws, is answered to the peer that sent it by chunks numbered
  -- from 0 and exactly one response after them, all under its id, and by nothing else.
  pub handle_skill_request-IsAnswer :
      (from : String) (req : SkillRequest) (s : Agent S) (verdict : Verdict)
      → (admit C opts times from req s.seen_nonces).0 ≡ ok verdict
      → (frames : Frames) × ((handle_skill_request C S opts link times from req s).1.sent
          ≡ s.sent ++ frames)
        × IsAnswer from req.id 0 frames
  unfolding handle_skill_request
  handle_skill_request-IsAnswer from req s verdict h = rw h (
      proceed-sent from req verdict
        (record s { seen_nonces = (admit C opts times from req s.seen_nonces).1 }))
