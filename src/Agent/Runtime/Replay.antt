-- ===== src/Agent/Runtime/Replay.antt =====
-- The replay defence of packages/agent/src/agent.ts: the nonces that were seen, oldest first.
use Prim.Native.String.{◌++◌}
use mathlib.Core.Path.{subst, sym, ap}
use agentdir_open_agents.Base.{
  ℕ, suc, ◌+◌, ◌≤◌, ◌<◌, ◌≡◌, inl, inr, String, Option, none, List, [], ◌∷◌, arith, length,
  Bool-cases, Option-cases,
}
use agentdir_open_agents.Crypto.{Crypto}
use agentdir_open_agents.Js.Map.{Map, size}
use agentdir_open_agents.Js.Value.{Json}
use agentdir_open_agents.Js.Result.{ok}
use agentdir_open_agents.Sdk.Storage.{Storage}
use agentdir_open_agents.Agent.Protocol.{SkillRequest, is_skill_request, request_of}
use agentdir_open_agents.Agent.Runtime.{AgentOpts, Agent, Times}
use agentdir_open_agents.Agent.Runtime.Admit.{nonce_cap, reject_stale, refuse, admitted, admit}
use agentdir_open_agents.Agent.Runtime.Handle.{
  Link, Inbound, bump_stats, handle_skill_request, handle_inbound, receive_all,
}
use agentdir_open_agents.Agent.Runtime.Nonces.{
  Held, Held-le, reject_stale-Held, reject_stale-Held_self, reject_stale-size, reject_stale-again,
}
use agentdir_open_agents.Agent.Runtime.Frame.{IsStable, handle_skill_request-Keeps}

module _ (C : Crypto) (S : Storage) (opts : AgentOpts) (link : Link) where
  -- What holds of the seen nonces is left alone by every step after the test of the nonce.
  stable :
      (times : Times) (Q : Map ℕ → Type 0) → IsStable C S opts link times (λ s. Q s.seen_nonces)
  unfolding bump_stats
  stable times Q = record {
    sends = λ s sent h. h;
    late = record {
      attests = λ s c store h. h;
      bumps = λ skill passed. record { at = λ s h. h };
      snapshots = λ s h. h;
    };
  }

  handle-seen :
      (times : Times) (Q : Map ℕ → Type 0) (from : String) (req : SkillRequest) (s : Agent S)
      → Q (reject_stale opts times req s.seen_nonces).1
      → Q (handle_skill_request C S opts link times from req s).1.seen_nonces
  unfolding admit
  handle-seen times Q from req s h =
      handle_skill_request-Keeps C S opts link times (λ s. Q s.seen_nonces) (stable times Q) from
        req s h

  module _ (parse : String → Option Json) where
    inbound-seen :
        (Q R : Map ℕ → Type 0)
        → ((seen : Map ℕ) → Q seen → R seen)
        → ((times : Times) (req : SkillRequest) (seen : Map ℕ)
            → Q seen
            → R (reject_stale opts times req seen).1)
        → (m : Inbound) (s : Agent S) → Q s.seen_nonces
        → R (handle_inbound C S opts link m.times parse m.from m.body s).1.seen_nonces
    unfolding handle_inbound
    inbound-seen Q R weaker step m s h = elim (Option-cases (parse m.body)) [
      | inl garbled ↦ rw garbled (weaker s.seen_nonces h)
      | inr (v, read) ↦ elim (Bool-cases (is_skill_request v)) [
        | inl yes' ↦
            rw (read, yes')
              (handle-seen m.times R m.from (request_of v) s
                (step m.times (request_of v) s.seen_nonces h))
        | inr other ↦ rw (read, other) (weaker s.seen_nonces h)
      ]
    ]

    receive_all-Held :
        (k : ℕ) (n : String) (ms : List Inbound) (s : Agent S)
        → k + length ms < nonce_cap opts
        → Held k n s.seen_nonces
        → Held (k + length ms) n (receive_all C S opts link parse ms s).seen_nonces
    unfolding receive_all
    receive_all-Held k n [] s room h = Held-le k _ n s.seen_nonces (omega arith) h
    receive_all-Held k n (m ∷ ms) s room h =
        let next =
          inbound-seen (Held k n) (Held (suc k) n)
            (λ seen held. Held-le k (suc k) n seen (omega arith) held)
            (λ times req seen held. reject_stale-Held opts times req k n seen (omega arith) held) m
            s h in
        Held-le (suc k + length ms) _ n _ (omega arith)
          (receive_all-Held (suc k) n ms _ (omega arith) next)

    -- A request whose nonce was new when it was handled is never let through again while fewer
    -- messages than the cache holds have come in since: a later request with that nonce, from
    -- whatever peer and at whatever time, is refused.
    pub no_replay :
        (first : Times) (from : String) (req : SkillRequest) (ms : List Inbound) (s : Agent S)
        (later : Times) (peer : String) (again : SkillRequest)
        → length ms < nonce_cap opts
        → (reject_stale opts first req s.seen_nonces).0 ≡ none
        → again.nonce ≡ req.nonce
        → let handled = (handle_skill_request C S opts link first from req s).1 in
          let seen = (receive_all C S opts link parse ms handled).seen_nonces in
          (why : String) × (admit C opts later peer again seen
            ≡ (ok (refuse ("request rejected: " ++ why)), seen))
    unfolding admit
    no_replay first from req ms s later peer again few passed same =
        let handled = (handle_skill_request C S opts link first from req s).1 in
        let seen = (receive_all C S opts link parse ms handled).seen_nonces in
        let held : Held 0 req.nonce handled.seen_nonces =
          handle-seen first (Held 0 req.nonce) from req s
            (reject_stale-Held_self opts first req s.seen_nonces (omega arith) passed) in
        let kept : Held (length ms) again.nonce seen =
          subst (λ n. Held (length ms) n seen) (sym same)
            (Held-le (0 + length ms) (length ms) req.nonce seen (omega arith)
              (receive_all-Held 0 req.nonce ms handled (omega arith) held)) in
        let (why, refused) = reject_stale-again opts later again (length ms) seen kept in
        (why, ap (admitted C opts later peer again) refused)

    -- The cache of nonces never holds more than its capacity, whatever messages come in.
    pub receive_all-cache_bound :
        (ms : List Inbound) (s : Agent S)
        → size s.seen_nonces ≤ nonce_cap opts
        → size (receive_all C S opts link parse ms s).seen_nonces ≤ nonce_cap opts
    unfolding receive_all
    receive_all-cache_bound [] s h = h
    receive_all-cache_bound (m ∷ ms) s h = receive_all-cache_bound ms _ (
        inbound-seen (λ seen. size seen ≤ nonce_cap opts) (λ seen. size seen ≤ nonce_cap opts)
          (λ seen fits. fits) (λ times req seen fits. reject_stale-size opts times req seen fits) m
          s h)
