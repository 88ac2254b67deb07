-- ===== src/Agent/Caller/Chunks.antt =====
-- What the loops of packages/agent/src/caller.ts pass on and when they end.
use mathlib.Core.List.{append-nil, append_assoc}
use mathlib.Core.Path.{subst}
use agentdir_open_agents.Base.{
  ℕ, ◌+◌, ◌≤◌, ◌≡◌, ◌≢◌, refl, ◌∙◌, ap, sym, ltb→lt, String, false, Option, none, some, List, [],
  ◌∷◌, ◌++◌, ltb, Bool-cases, Option-cases, inl, inr, arith,
}
use agentdir_open_agents.Crypto.{Crypto}
use agentdir_open_agents.Js.Value.{Json, prop, is_text_eq, is_text_eq_iff}
use agentdir_open_agents.Js.Result.{Result, ok, throw}
use agentdir_open_agents.Agent.Protocol.{is_skill_request, is_skill_response, is_skill_chunk}
use agentdir_open_agents.Agent.Caller.{CallSkillArgs, Poll}
use agentdir_open_agents.Agent.Caller.Accepted.{check_chunk-IsBound}
use agentdir_open_agents.Agent.Caller.Loop.{
  waiting, Message, Round, deliver, done, Log, on_response, on_stream, on_received, round,
  call_loop, stream_loop,
}
use agentdir_open_agents.Agent.Caller.Sound.{
  IsVerifiedChunk, CameChunk, IsRun, IsRun-later, Any, skips, forwards, delivers, ends, which,
  taken-deliver, done-ne-deliver,
}

module _ (C : Crypto) (args : CallSkillArgs) (parse : String → Option Json) (id : String)
    (deadline : ℕ) where
  on_response-ne-deliver :
      (now : ℕ) (m : Message) (v c : Json)
      → on_response C args parse id deadline now m v ≢ deliver c
  on_response-ne-deliver now m v c h = elim (Bool-cases (is_skill_request v)) [
    | inl request ↦ cc (rw request at h)
    | inr other ↦ elim (Bool-cases (is_skill_response v)) [
      | inr foreign ↦ cc (rw (other, foreign) at h)
      | inl response ↦ elim (Bool-cases (is_text_eq id (prop "id" v))) [
        | inr elsewhere ↦ cc (rw (other, response, elsewhere) at h)
        | inl own ↦ done-ne-deliver _ (rw (other, response, own) at h)
      ]
    ]
  ]

  on_stream-deliver :
      (next_seq now : ℕ) (m : Message) (v c : Json)
      → on_stream C args parse id deadline next_seq now m v ≡ deliver c
      → (v ≡ c) × IsVerifiedChunk C args id now next_seq c
  on_stream-deliver next_seq now m v c h = elim (Bool-cases (is_skill_chunk v)) [
    | inr other ↦ absurd (on_response-ne-deliver now m v c (rw other at h))
    | inl chunk ↦ elim (Bool-cases (is_text_eq id (prop "id" v))) [
      | inr elsewhere ↦ cc (rw (chunk, elsewhere) at h)
      | inl own ↦
          let checked = taken-deliver _ (rw (chunk, own) at h) in
          let (same, bound, number, signed) = check_chunk-IsBound C args now v c next_seq checked in
          let verified : IsVerifiedChunk C args id now next_seq v = record {
            own = (is_text_eq_iff _ _).0 own;
            bound = bound;
            number = number;
            signed = signed;
          } in
          (same, subst (IsVerifiedChunk C args id now next_seq) same verified)
    ]
  ]

  on_received-deliver :
      (next_seq now : ℕ) (o : Result (Option Message)) (c : Json)
      → on_received C args parse id deadline (on_stream C args parse id deadline next_seq now) o
        ≡ deliver c
      → (m : Message) × (o ≡ ok (some m))
        × (parse m.1 ≡ some c)
        × IsVerifiedChunk C args id now next_seq c
  on_received-deliver next_seq now (throw e) c h = cc
  on_received-deliver next_seq now (ok none) c h = cc
  on_received-deliver next_seq now (ok (some (from, body))) c h = elim (Option-cases (parse body)) [
    | inl garbled ↦ cc (rw garbled at h)
    | inr (v, read) ↦
        let (same, verified) = on_stream-deliver next_seq now (from, body) v c (rw read at h) in
        ((from, body), refl, read ∙ ap some same, verified)
  ]

  round-deliver :
      (next_seq : ℕ) (p : Poll) (c : Json)
      → round C args parse id deadline (on_stream C args parse id deadline next_seq) p ≡ deliver c
      → CameChunk C args parse id deadline next_seq c p
  round-deliver next_seq p c h = elim (Bool-cases (ltb p.now deadline)) [
    | inr late ↦ cc (rw late at h)
    | inl early ↦
        let (m, got, read, verified) =
          on_received-deliver next_seq p.checked p.received c (rw early at h) in
        (ltb→lt _ _ early, m, got, read, verified)
  ]

  -- Where the loop goes on to the later polls.
  later-IsRun :
      (next_seq : ℕ) (p : Poll) (ps : List Poll) (before after : List Json)
      → (cs : List Json) × (after ≡ before ++ cs) × IsRun C args parse id deadline next_seq ps cs
      → (cs : List Json) × (after ≡ before ++ cs)
        × IsRun C args parse id deadline next_seq (p ∷ ps) cs
  later-IsRun next_seq p ps before after (cs, passed_on, run) =
      (cs, passed_on, IsRun-later C args parse id deadline next_seq p ps cs run)

  pub stream_loop-IsRun :
      (next_seq : ℕ) (ps : List Poll) (log : Log)
      → (cs : List Json) × ((stream_loop C args parse id deadline next_seq ps log).1.chunks
          ≡ log.chunks ++ cs)
        × IsRun C args parse id deadline next_seq ps cs
  unfolding stream_loop
  stream_loop-IsRun next_seq [] log = ([], sym (append-nil log.chunks), tt)
  stream_loop-IsRun next_seq (p ∷ ps) log =
      elim (which
        (round C args parse id deadline (on_stream C args parse id deadline next_seq) p)) [
          | skips e ↦
              rw (e, stream_loop)
                (later-IsRun next_seq p ps log.chunks _ (stream_loop-IsRun next_seq ps log))
          | forwards m e ↦
              rw (e, stream_loop)
                (later-IsRun next_seq p ps log.chunks _
                  (stream_loop-IsRun next_seq ps (record log { foreign = log.foreign ++ m ∷ [] })))
          | delivers c e ↦
              let (cs, passed_on, run) =
                stream_loop-IsRun (next_seq + 1) ps
                  (record log { chunks = log.chunks ++ c ∷ [] }) in
              (
                c ∷ cs,
                rw (e, stream_loop) (passed_on ∙ append_assoc log.chunks (c ∷ []) cs),
                inl (round-deliver next_seq p c e, run),
              )
          | ends out e ↦ ([], rw (e, stream_loop) (sym (append-nil log.chunks)), tt)
        ]

  ends-late :
      (on_value : ℕ → Message → Json → Round) (p : Poll)
      → deadline ≤ p.now
      → round C args parse id deadline on_value p ≡ done (throw "call timeout")
  ends-late on_value p h = let late : ltb p.now deadline ≡ false = ground arith in rw late

  pub call_loop-ends :
      (ps : List Poll) (log : Log)
      → Any (λ p. deadline ≤ p.now) ps
      → (call_loop C args parse id deadline ps log).0 ≢ waiting
  unfolding call_loop
  call_loop-ends [] log late h = absurd late
  call_loop-ends (p ∷ ps) log (inl late) h =
      cc (rw (ends-late (on_response C args parse id deadline) p late, call_loop) at h)
  call_loop-ends (p ∷ ps) log (inr later) h =
      elim (which (round C args parse id deadline (on_response C args parse id deadline) p)) [
        | skips e ↦ call_loop-ends ps log later (rw (e, call_loop) at h)
        | forwards m e ↦ call_loop-ends ps _ later (rw (e, call_loop) at h)
        | delivers c e ↦ call_loop-ends ps log later (rw (e, call_loop) at h)
        | ends out e ↦ cc (rw (e, call_loop) at h)
      ]

  pub stream_loop-ends :
      (next_seq : ℕ) (ps : List Poll) (log : Log)
      → Any (λ p. deadline ≤ p.now) ps
      → (stream_loop C args parse id deadline next_seq ps log).0 ≢ waiting
  unfolding stream_loop
  stream_loop-ends next_seq [] log late h = absurd late
  stream_loop-ends next_seq (p ∷ ps) log (inl late) h =
      cc (rw (ends-late (on_stream C args parse id deadline next_seq) p late, stream_loop) at h)
  stream_loop-ends next_seq (p ∷ ps) log (inr later) h =
      elim (which
        (round C args parse id deadline (on_stream C args parse id deadline next_seq) p)) [
          | skips e ↦ stream_loop-ends next_seq ps log later (rw (e, stream_loop) at h)
          | forwards m e ↦ stream_loop-ends next_seq ps _ later (rw (e, stream_loop) at h)
          | delivers c e ↦ stream_loop-ends (next_seq + 1) ps _ later (rw (e, stream_loop) at h)
          | ends out e ↦ cc (rw (e, stream_loop) at h)
        ]
