-- ===== src/Agent/Caller/Calls.antt =====
-- `callSkill` and `callSkillStream` of packages/agent/src/caller.ts as wholes.

use agentdir_open_agents.Base.{
  ℕ, ◌+◌, ◌≤◌, ◌≡◌, ◌≢◌, String, true, Option, none, some, List, Option-cases, inl, inr,
}
use agentdir_open_agents.Crypto.{Crypto}
use agentdir_open_agents.Js.Value.{Json, bool}
use agentdir_open_agents.Js.Result.{ok}
use agentdir_open_agents.Agent.Protocol.{request_json}
use agentdir_open_agents.Agent.Caller.{CallSkillArgs, Poll, timeout}
use agentdir_open_agents.Agent.Caller.Loop.{
  settled, waiting, empty_log, SendJson, request_for, call_skill, call_skill_stream,
}
use agentdir_open_agents.Agent.Caller.Sound.{
  IsRun, Any, Came, call_loop-returned, stream_loop-returned,
}
use agentdir_open_agents.Agent.Caller.Chunks.{stream_loop-IsRun, call_loop-ends, stream_loop-ends}

module _ (C : Crypto) (args : CallSkillArgs) (parse : String → Option Json) (send_json : SendJson)
    (id nonce : String) (sent_at started : ℕ) where
  -- A response that `callSkill` returns came in a poll before the deadline; it has the id of the
  -- call, names the expected responder, this caller and this skill, is fresh, reports success, and
  -- its signature verifies under the expected key over the domain of its own fields.
  pub call_skill-Came :
      (ps : List Poll) (r : Json)
      → (call_skill C args parse send_json id nonce sent_at started ps).0 ≡ settled (ok r)
      → Any (Came C args parse id (started + timeout 30000 args) r) ps
  unfolding call_skill
  call_skill-Came ps r h =
      elim (Option-cases
        (send_json args.dest_pubkey (request_json (request_for args id nonce sent_at none)))) [
          | inl sent ↦ call_loop-returned C args parse id _ ps empty_log r (rw sent at h)
          | inr (e, failed) ↦ cc (rw failed at h)
        ]

  -- The same of a response that `callSkillStream` returns.
  pub call_skill_stream-Came :
      (ps : List Poll) (r : Json)
      → (call_skill_stream C args parse send_json id nonce sent_at started ps).0 ≡ settled (ok r)
      → Any (Came C args parse id (started + timeout 90000 args) r) ps
  unfolding call_skill_stream
  call_skill_stream-Came ps r h =
      elim (Option-cases (
        send_json args.dest_pubkey
          (request_json (request_for args id nonce sent_at (some (bool true)))))) [
            | inl sent ↦ stream_loop-returned C args parse id _ 0 ps empty_log r (rw sent at h)
            | inr (e, failed) ↦ cc (rw failed at h)
          ]

  -- The chunks that `callSkillStream` passes on, however the call ends and whatever else arrives, are
  -- numbered 0, 1, 2 and so on without a gap or a repetition. Each came in a poll of its own, before
  -- the deadline and in the order of the polls; it has the id of the call, names the expected
  -- responder, this caller and this skill, is fresh at the time of that poll's check, and is signed by
  -- that responder. (A `ts` that is no number counts as fresh, as it does for the code.)
  pub call_skill_stream-IsRun :
      (ps : List Poll)
      → IsRun C args parse id
          (started + timeout 90000 args)
          0
          ps
          (call_skill_stream C args parse send_json id nonce sent_at started ps).1.chunks
  unfolding call_skill_stream
  call_skill_stream-IsRun ps =
      elim (Option-cases (
        send_json args.dest_pubkey
          (request_json (request_for args id nonce sent_at (some (bool true)))))) [
            | inl sent ↦
                let (cs, all, run) =
                  stream_loop-IsRun C args parse id (started + timeout 90000 args) 0 ps empty_log in
                rw (sent, all) run
            | inr (e, failed) ↦ rw failed tt
          ]

  -- Both calls end: once a poll is made at the deadline or after it, the call has returned or thrown,
  -- whatever came in the polls before.
  pub calls_end :
      (ps : List Poll)
      → (Any (λ p. started + timeout 30000 args ≤ p.now) ps
          → (call_skill C args parse send_json id nonce sent_at started ps).0 ≢ waiting)
        × (Any (λ p. started + timeout 90000 args ≤ p.now) ps
            → (call_skill_stream C args parse send_json id nonce sent_at started ps).0 ≢ waiting)
  unfolding call_skill call_skill_stream
  calls_end ps = (
    (λ late h.
        elim (Option-cases
          (send_json args.dest_pubkey (request_json (request_for args id nonce sent_at none)))) [
            | inl sent ↦ call_loop-ends C args parse id _ ps empty_log late (rw sent at h)
            | inr (e, failed) ↦ cc (rw failed at h)
          ]),
    (λ late h.
        elim (Option-cases (
          send_json args.dest_pubkey
            (request_json (request_for args id nonce sent_at (some (bool true)))))) [
              | inl sent ↦ stream_loop-ends C args parse id _ 0 ps empty_log late (rw sent at h)
              | inr (e, failed) ↦ cc (rw failed at h)
            ]),
  )
