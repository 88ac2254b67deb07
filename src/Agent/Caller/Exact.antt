-- ===== src/Agent/Caller/Exact.antt =====
-- The tests of packages/agent/src/caller.ts take exactly the responses and chunks of the call.
use Prim.Native.String.{◌++◌}
use agentdir_open_agents.Base.{
  ℕ, ◌≡◌, ◌↔◌, refl, ◌∙◌, String, Bool, true, false, some, not, eq_refl, arith,
}
use agentdir_open_agents.Base.Int.{pos}
use agentdir_open_agents.Crypto.{Crypto}
use agentdir_open_agents.Signed.{digest_of}
use agentdir_open_agents.Js.Number.{Number, nan, int, minus, is_abs_above}
use agentdir_open_agents.Js.Value.{
  Json, str, num, Value, prop, truthy, is_text_eq, is_text_eq_iff, is_number_eq,
}
use agentdir_open_agents.Js.Show.{show_value}
use agentdir_open_agents.Js.Result.{Result, ok}
use agentdir_open_agents.Agent.Protocol.{response_domain, chunk_domain}
use agentdir_open_agents.Agent.Caller.{CallSkillArgs, expected_pub}
use agentdir_open_agents.Agent.Caller.Check.{
  throw_if, throw_unless_lower, throw_unless_signed, domain_in, chunk_domain_in, check_response,
  check_chunk,
}
use agentdir_open_agents.Agent.Caller.Accepted.{
  IsLower, IsNear, IsSigned, IsBound, check_response-IsBound, check_chunk-IsBound,
}

module _ {A : Type 0} where
  pass_lower :
      (v : Value) (t e : String) (next : Result A)
      → IsLower v t
      → throw_unless_lower v t e next ≡ next
  pass_lower v t e next (s, here, same) = rw (here, same, eq_refl t) refl

  pass_signed :
      (C : Crypto) (v : Value) (d p e : String) (next : Result A)
      → IsSigned C v d p
      → throw_unless_signed C v d p e next ≡ next
  pass_signed C v d p e next (sig, here, good) = rw (here, good) refl

  pass_skill :
      (v : Value) (t e : String) (next : Result A)
      → v ≡ some (str t)
      → throw_if (not (is_text_eq t v)) e next ≡ next
  pass_skill v t e next here = rw ((is_text_eq_iff t v).1 here) refl

  pass_number :
      (v : Value) (n : ℕ) (e : String) (next : Result A)
      → v ≡ some (num (pos n))
      → throw_if (not (is_number_eq (pos n) v)) e next ≡ next
  pass_number v n e next here =
      let same : is_number_eq (pos n) (some (num (pos n))) ≡ true = ground arith in
      rw (here, same) refl

  pass_near :
      (now max : ℕ) (n : Number) (e : String) (next : Result A)
      → IsNear now n max
      → throw_if (is_abs_above (minus (pos now) n) max) e next ≡ next
  pass_near now max nan e next near = refl
  pass_near now max (int ts) e next near =
      let low : is_abs_above (minus (pos now) (int ts)) max ≡ false = ground arith in rw low refl

  pass_ok : (b : Bool) (e : String) (next : Result A) → b ≡ true → throw_if (not b) e next ≡ next
  pass_ok b e next passed = rw passed refl

module _ (C : Crypto) (args : CallSkillArgs) (now : ℕ) (x : Json) where
  -- What is left of the tests on a response that is bound to the call and signed.
  pub check_response-bound :
      IsBound args now x
      → IsSigned C (prop "sig" x) (digest_of C (response_domain (domain_in x))) (expected_pub args)
      → check_response C args now x
        ≡ throw_if (not (truthy (prop "ok" x))) ("remote: " ++ show_value (prop "error" x)) (ok x)
  unfolding check_response
  check_response-bound bound signed =
      pass_lower _ _ _ _ bound.signer
      ∙ (pass_lower _ _ _ _ bound.responder
          ∙ (pass_lower _ _ _ _ bound.caller
              ∙ (pass_skill _ _ _ _ bound.skill
                  ∙ (pass_near _ _ _ _ _ bound.fresh ∙ pass_signed _ _ _ _ _ _ signed))))

  pub check_chunk-bound :
      (next_seq : ℕ)
      → IsBound args now x
      → prop "seq" x ≡ some (num (pos next_seq))
      → IsSigned C
          (prop "sig" x)
          (digest_of C (chunk_domain (chunk_domain_in x)))
          (expected_pub args)
      → check_chunk C args now x next_seq ≡ ok x
  unfolding check_chunk
  check_chunk-bound next_seq bound number signed =
      pass_lower _ _ _ _ bound.signer
      ∙ (pass_lower _ _ _ _ bound.responder
          ∙ (pass_lower _ _ _ _ bound.caller
              ∙ (pass_skill _ _ _ _ bound.skill
                  ∙ (pass_number _ _ _ _ number
                      ∙ (pass_near _ _ _ _ _ bound.fresh ∙ pass_signed _ _ _ _ _ _ signed)))))

  -- A response is returned exactly when the expected responder signed it over the domain of its own
  -- fields, it names that responder, this caller and this skill, its time is within the window
  -- around now or no number, and it reports success.
  pub check_response_iff : (check_response C args now x ≡ ok x) ↔ (
      IsBound args now x
      × IsSigned C (prop "sig" x) (digest_of C (response_domain (domain_in x))) (expected_pub args)
      × (truthy (prop "ok" x) ≡ true))
  check_response_iff = (
    (λ h.
        let (same, bound, signed, passed) = check_response-IsBound C args now x x h in
        (bound, signed, passed)),
    λ (bound, signed, passed). check_response-bound bound signed ∙ pass_ok _ _ _ passed,
  )

  -- A chunk is taken exactly when, beside this, it has the number that is next.
  pub check_chunk_iff :
      (next_seq : ℕ)
      → (check_chunk C args now x next_seq ≡ ok x) ↔ (
          IsBound args now x
          × (prop "seq" x ≡ some (num (pos next_seq)))
          × IsSigned C
              (prop "sig" x)
              (digest_of C (chunk_domain (chunk_domain_in x)))
              (expected_pub args))
  check_chunk_iff next_seq = (
    (λ h.
        let (same, bound, number, signed) = check_chunk-IsBound C args now x x next_seq h in
        (bound, number, signed)),
    λ (bound, number, signed). check_chunk-bound next_seq bound number signed,
  )
