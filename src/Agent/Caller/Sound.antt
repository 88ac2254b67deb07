-- ===== src/Agent/Caller/Sound.antt =====
-- What the calls of packages/agent/src/caller.ts return and pass on.

use mathlib.Core.Path.{subst}
use agentdir_open_agents.Base.{
  ℕ, ◌+◌, ◌<◌, ◌≡◌, ◌≢◌, refl, ◌∙◌, ap, String, true, Option, none, some, List, [], ◌∷◌, ltb,
  Bool-cases, Option-cases, inl, inr, ◌⊎◌, ltb→lt,
}
use agentdir_open_agents.Base.Int.{pos}
use agentdir_open_agents.Crypto.{Crypto}
use agentdir_open_agents.Signed.{digest_of}
use agentdir_open_agents.Js.Value.{Json, str, num, prop, truthy, is_text_eq, is_text_eq_iff}
use agentdir_open_agents.Js.Result.{Result, ok, throw}
use agentdir_open_agents.Agent.Protocol.{
  is_skill_request, is_skill_response, is_skill_chunk, response_domain, chunk_domain,
}
use agentdir_open_agents.Agent.Caller.{CallSkillArgs, expected_pub, Poll}
use agentdir_open_agents.Agent.Caller.Check.{domain_in, chunk_domain_in}
use agentdir_open_agents.Agent.Caller.Accepted.{IsBound, IsSigned, check_response-IsBound}
use agentdir_open_agents.Agent.Caller.Loop.{
  settled, Message, Round, skip, forward, deliver, done, taken, Log, on_response, on_stream,
  on_received, round, call_loop, stream_loop,
}

module _ (C : Crypto) (args : CallSkillArgs) (id : String) where
  -- The response is one to this call: it has the call's id, is bound to the call and signed by the
  -- expected responder, and reports success.
  pub record IsVerified (now : ℕ) (r : Json) : Type 0 where
    pub own : prop "id" r ≡ some (str id)
    pub bound : IsBound args now r
    pub signed :
        IsSigned C (prop "sig" r) (digest_of C (response_domain (domain_in r))) (expected_pub args)
    pub passed : truthy (prop "ok" r) ≡ true

  -- The chunk is the one with this number of this call: it is bound to the call and signed by the
  -- expected responder.
  pub record IsVerifiedChunk (now seq : ℕ) (c : Json) : Type 0 where
    pub own : prop "id" c ≡ some (str id)
    pub bound : IsBound args now c
    pub number : prop "seq" c ≡ some (num (pos seq))
    pub signed :
        IsSigned C
          (prop "sig" c)
          (digest_of C (chunk_domain (chunk_domain_in c)))
          (expected_pub args)

settled-done : {o q : Result Json} → settled o ≡ settled q → done o ≡ done q
settled-done h = cc

done-injective : (o : Result Json) {r : Json} → done o ≡ done (ok r) → o ≡ ok r
done-injective o h = cc

pub taken-deliver : (o : Result Json) {c : Json} → taken o ≡ deliver c → o ≡ ok c
taken-deliver (ok v) h = cc
taken-deliver (throw e) h = cc

pub done-ne-deliver : (o : Result Json) {c : Json} → done o ≢ deliver c
done-ne-deliver o h = cc

pub taken-ne-done : (o : Result Json) {r : Json} → taken o ≢ done (ok r)
taken-ne-done (ok v) h = cc
taken-ne-done (throw e) h = cc

-- Some poll of the list has the property.
abbrev pub Any : (Poll → Type 0) → List Poll → Type 0
Any P [] = ⊥
Any P (p ∷ ps) = P p ⊎ Any P ps

-- To split on what a round does and keep the equation.
pub data Which (o : Round) : Type 0 where
  skips : o ≡ skip → Which o
  forwards : (m : Message) → o ≡ forward m → Which o
  delivers : (c : Json) → o ≡ deliver c → Which o
  ends : (out : Result Json) → o ≡ done out → Which o

pub which : (o : Round) → Which o
which skip = skips refl
which (forward m) = forwards m refl
which (deliver c) = delivers c refl
which (done out) = ends out refl

module _ (C : Crypto) (args : CallSkillArgs) (parse : String → Option Json) (id : String)
    (deadline : ℕ) where
  on_response-returned :
      (now : ℕ) (m : Message) (v r : Json)
      → on_response C args parse id deadline now m v ≡ done (ok r)
      → (v ≡ r) × IsVerified C args id now r
  on_response-returned now m v r h = elim (Bool-cases (is_skill_request v)) [
    | inl request ↦ cc (rw request at h)
    | inr other ↦ elim (Bool-cases (is_skill_response v)) [
      | inr foreign ↦ cc (rw (other, foreign) at h)
      | inl response ↦ elim (Bool-cases (is_text_eq id (prop "id" v))) [
        | inr elsewhere ↦ cc (rw (other, response, elsewhere) at h)
        | inl own ↦
            let checked = done-injective _ (rw (other, response, own) at h) in
            let (same, bound, signed, passed) = check_response-IsBound C args now v r checked in
            let verified : IsVerified C args id now v = record {
              own = (is_text_eq_iff _ _).0 own;
              bound = bound;
              signed = signed;
              passed = passed;
            } in
            (same, subst (IsVerified C args id now) same verified)
      ]
    ]
  ]

  -- A response that came in a poll before the deadline.
  abbrev pub Came : Json → Poll → Type 0
  Came r p =
      (p.now < deadline)
      × (m : Message) × (p.received ≡ ok (some m))
      × (parse m.1 ≡ some r)
      × IsVerified C args id p.checked r

  -- A chunk with this number that came in a poll before the deadline.
  abbrev pub CameChunk : ℕ → Json → Poll → Type 0
  CameChunk seq c p =
      (p.now < deadline)
      × (m : Message) × (p.received ≡ ok (some m))
      × (parse m.1 ≡ some c)
      × IsVerifiedChunk C args id p.checked seq c

  -- Chunks with the numbers from `seq` on, each of which came in a poll of its own, in the order of
  -- the polls.
  abbrev pub IsRun : ℕ → List Poll → List Json → Type 0
  IsRun seq ps [] = Unit
  IsRun seq [] (c ∷ cs) = ⊥
  IsRun seq (p ∷ ps) (c ∷ cs) = (CameChunk seq c p × IsRun (seq + 1) ps cs) ⊎ IsRun seq ps (c ∷ cs)

  pub IsRun-later :
      (seq : ℕ) (p : Poll) (ps : List Poll) (cs : List Json)
      → IsRun seq ps cs
      → IsRun seq (p ∷ ps) cs
  IsRun-later seq p ps [] run = tt
  IsRun-later seq p ps (c ∷ cs) run = inr run

  -- A handler of values that returns only responses of this call.
  abbrev OnlyVerified : (ℕ → Message → Json → Round) → Type 0
  OnlyVerified on_value =
      (now : ℕ) (m : Message) (v r : Json)
      → on_value now m v ≡ done (ok r)
      → (v ≡ r) × IsVerified C args id now r

  on_stream-returned : (next_seq : ℕ) → OnlyVerified (on_stream C args parse id deadline next_seq)
  on_stream-returned next_seq now m v r h = elim (Bool-cases (is_skill_chunk v)) [
    | inr other ↦ on_response-returned now m v r (rw other at h)
    | inl chunk ↦ elim (Bool-cases (is_text_eq id (prop "id" v))) [
      | inr elsewhere ↦ cc (rw (chunk, elsewhere) at h)
      | inl own ↦ absurd (taken-ne-done _ (rw (chunk, own) at h))
    ]
  ]

  on_received-returned :
      (on_value : ℕ → Message → Json → Round)
      → OnlyVerified on_value
      → (now : ℕ) (o : Result (Option Message)) (r : Json)
      → on_received C args parse id deadline (on_value now) o ≡ done (ok r)
      → (m : Message) × (o ≡ ok (some m)) × (parse m.1 ≡ some r) × IsVerified C args id now r
  on_received-returned on_value only now (throw e) r h = cc
  on_received-returned on_value only now (ok none) r h = cc
  on_received-returned on_value only now (ok (some (from, body))) r h =
      elim (Option-cases (parse body)) [
        | inl garbled ↦ cc (rw garbled at h)
        | inr (v, read) ↦
            let (same, verified) = only now (from, body) v r (rw read at h) in
            ((from, body), refl, read ∙ ap some same, verified)
      ]

  round-returned :
      (on_value : ℕ → Message → Json → Round)
      → OnlyVerified on_value
      → (p : Poll) (r : Json) → round C args parse id deadline on_value p ≡ done (ok r)
      → Came r p
  round-returned on_value only p r h = elim (Bool-cases (ltb p.now deadline)) [
    | inr late ↦ cc (rw late at h)
    | inl early ↦
        let (m, got, read, verified) =
          on_received-returned on_value only p.checked p.received r (rw early at h) in
        (ltb→lt _ _ early, m, got, read, verified)
  ]

  pub call_loop-returned :
      (ps : List Poll) (log : Log) (r : Json)
      → (call_loop C args parse id deadline ps log).0 ≡ settled (ok r)
      → Any (Came r) ps
  unfolding call_loop
  call_loop-returned [] log r h = cc
  call_loop-returned (p ∷ ps) log r h =
      elim (which (round C args parse id deadline (on_response C args parse id deadline) p)) [
        | skips e ↦ inr (call_loop-returned ps log r (rw (e, call_loop) at h))
        | forwards m e ↦ inr (call_loop-returned ps _ r (rw (e, call_loop) at h))
        | delivers c e ↦ inr (call_loop-returned ps log r (rw (e, call_loop) at h))
        | ends out e ↦
            inl (
              round-returned _ on_response-returned p r (e ∙ settled-done (rw (e, call_loop) at h)))
      ]

  pub stream_loop-returned :
      (next_seq : ℕ) (ps : List Poll) (log : Log) (r : Json)
      → (stream_loop C args parse id deadline next_seq ps log).0 ≡ settled (ok r)
      → Any (Came r) ps
  unfolding stream_loop
  stream_loop-returned next_seq [] log r h = cc
  stream_loop-returned next_seq (p ∷ ps) log r h =
      elim (which
        (round C args parse id deadline (on_stream C args parse id deadline next_seq) p)) [
          | skips e ↦ inr (stream_loop-returned next_seq ps log r (rw (e, stream_loop) at h))
          | forwards m e ↦ inr (stream_loop-returned next_seq ps _ r (rw (e, stream_loop) at h))
          | delivers c e ↦
              inr (stream_loop-returned (next_seq + 1) ps _ r (rw (e, stream_loop) at h))
          | ends out e ↦ inl (
              round-returned _ (on_stream-returned next_seq) p r
                (e ∙ settled-done (rw (e, stream_loop) at h)))
        ]
