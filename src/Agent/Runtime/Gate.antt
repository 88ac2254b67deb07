-- ===== src/Agent/Runtime/Gate.antt =====
-- What a request has shown when packages/agent/src/agent.ts runs its skill.
use mathlib.Core.Path.{subst}
use agentdir_open_agents.Base.{
  ℕ, ◌≤◌, ◌≡◌, refl, String, Bool, true, false, Option, none, some, arith, ◌==◌, eq_iff, Bool-cases,
  inl, inr, if◌then◌else◌,
}
use agentdir_open_agents.Base.Int.{pos, ◌-ℤ◌, abs}
use agentdir_open_agents.Crypto.{Crypto}
use agentdir_open_agents.Js.Map
use agentdir_open_agents.Js.Map.{Map}
use agentdir_open_agents.Js.Text.{to_lower}
use agentdir_open_agents.Js.Value.{Json, Value, truthy}
use agentdir_open_agents.Js.Result.{Result, ok, throw, ◌>>=◌}
use agentdir_open_agents.Sdk.Payments.{PaymentExpectations, check_receipt_shape, verify_receipt}
use agentdir_open_agents.Sdk.Payments.Shape.{Matches, passed-Matches}
use agentdir_open_agents.Agent.Protocol.{SkillRequest}
use agentdir_open_agents.Agent.Runtime.{AgentOpts, RegisteredSkill, PaymentConfig, Times}
use agentdir_open_agents.Agent.Runtime.Admit.{
  max_request_age, reject_stale, validate_input, expectations, check_payment, check_receipt, paid,
  signature_reason, Verdict, accept, refuse_if, payment_gate, judge_skill, judge, admit,
}

module _ (C : Crypto) (times : Times) (req : SkillRequest) where
  -- The receipt is there, it is the expected one, and the caller has signed it.
  abbrev pub HasPaid : Option PaymentConfig → RegisteredSkill → Type 0
  HasPaid none reg = ⊥
  HasPaid (some exp) reg =
      (receipt : Json) × (req.payment ≡ some receipt)
      × (truthy (some receipt) ≡ true)
      × Matches (pos times.receipt) receipt (expectations exp req reg)
      × (verify_receipt C receipt req.caller_pubkey ≡ true)

refuse_if-accept :
    (what : String) (why : Option String) (next : Result Verdict) {reg : RegisteredSkill}
    → refuse_if what why next ≡ ok (accept reg)
    → (why ≡ none) × (next ≡ ok (accept reg))
refuse_if-accept what none next h = (refl, h)
refuse_if-accept what (some why) next h = cc

-- A sequence of calls that returned was one of two calls that returned.
unbind :
    {X Y : Type 0} (first : Result X) (after : X → Result Y) {y : Y}
    → (first >>= after) ≡ ok y
    → (x : X) × (first ≡ ok x) × (after x ≡ ok y)
unbind (throw why) after done = cc
unbind (ok x) after done = (x, refl, done)

accept-injective : {r q : RegisteredSkill} → ok (accept r) ≡ ok (accept q) → r ≡ q
accept-injective h = cc

some-ok : {A : Type 0} {a b : A} → ok a ≡ ok b → a ≡ b
some-ok h = cc

module _ (C : Crypto) where
  signature-pass :
      (receipt : Json) (pubkey : String) (shape : Option String)
      → signature_reason C receipt pubkey shape ≡ none
      → (shape ≡ none) × (verify_receipt C receipt pubkey ≡ true)
  signature-pass receipt pubkey none h = ground arith
  signature-pass receipt pubkey (some why) h = cc

  check_receipt-pass :
      (now : ℕ) (receipt : Json) (exp : PaymentExpectations) (req : SkillRequest)
      → check_receipt C now receipt exp req ≡ ok none
      → Matches (pos now) receipt exp × (verify_receipt C receipt req.caller_pubkey ≡ true)
  check_receipt-pass now receipt exp req h =
      let (shape, passed, signed) = unbind (check_receipt_shape (pos now) receipt exp) _ h in
      let (none_of, genuine) = signature-pass receipt req.caller_pubkey shape (some-ok signed) in
      (passed-Matches (pos now) receipt exp (rw none_of at passed), genuine)

module _ (C : Crypto) (opts : AgentOpts) (times : Times) (from : String) (req : SkillRequest) where
  paid-HasPaid :
      (v : Value) (config : Option PaymentConfig) (reg : RegisteredSkill)
      → req.payment ≡ v
      → truthy v ≡ true
      → paid C times.receipt v config req reg ≡ ok none
      → HasPaid C times req config reg
  paid-HasPaid none config reg e t h = cc
  paid-HasPaid (some receipt) none reg e t h = cc
  paid-HasPaid (some receipt) (some exp) reg e t h =
      let (shape, genuine) = check_receipt-pass C times.receipt receipt _ req h in
      (receipt, e, t, shape, genuine)

  check_payment-HasPaid :
      (reg : RegisteredSkill)
      → check_payment C opts times req reg ≡ ok none
      → HasPaid C times req opts.payment_expectations reg
  unfolding check_payment
  check_payment-HasPaid reg h = elim (Bool-cases (truthy req.payment)) [
    | inl t ↦ paid-HasPaid req.payment opts.payment_expectations reg refl t (rw t at h)
    | inr f ↦ cc (rw f at h)
  ]

  -- Everything that a request has shown when it is admitted.
  pub record Admitted (seen : Map ℕ) (reg : RegisteredSkill) : Type 0 where
    pub fresh : abs (pos times.checked -ℤ req.ts) ≤ max_request_age opts
    pub new : Map.has req.nonce seen ≡ false
    pub own : to_lower req.caller_pubkey ≡ to_lower from
    pub registered : Map.get req.skill opts.skills ≡ some reg
    pub paid : opts.require_payment ≡ true → HasPaid C times req opts.payment_expectations reg
    pub valid : validate_input reg.input_schema req.input ≡ none

  reject_stale-pass :
      (seen : Map ℕ)
      → (reject_stale opts times req seen).0 ≡ none
      → (abs (pos times.checked -ℤ req.ts) ≤ max_request_age opts)
        × (Map.has req.nonce seen ≡ false)
  unfolding reject_stale
  reject_stale-pass seen h = ground arith

  gate-paid :
      (reg : RegisteredSkill) (b : Bool)
      → (if b then check_payment C opts times req reg else ok none) ≡ ok none
      → b ≡ true
      → HasPaid C times req opts.payment_expectations reg
  gate-paid reg true h t = check_payment-HasPaid reg h
  gate-paid reg false h t = cc

  judge_skill-accept :
      (found : Option RegisteredSkill) {reg : RegisteredSkill}
      → judge_skill C opts times from req found ≡ ok (accept reg)
      → (found ≡ some reg)
        × (opts.require_payment ≡ true → HasPaid C times req opts.payment_expectations reg)
        × (validate_input reg.input_schema req.input ≡ none)
  judge_skill-accept none h = cc
  judge_skill-accept (some reg) h =
      let (why, gate, rest) = unbind (payment_gate C opts times from req reg) _ h in
      let check = validate_input reg.input_schema req.input in
      let (free, rest') =
        refuse_if-accept "payment-rejected: " why
          (refuse_if "invalid input: " check (ok (accept reg))) rest in
      let (valid, same) = refuse_if-accept "invalid input: " check (ok (accept reg)) rest' in
      subst
        (λ r.
          (some reg ≡ some r)
          × (opts.require_payment ≡ true → HasPaid C times req opts.payment_expectations r)
          × (validate_input r.input_schema req.input ≡ none))
        (accept-injective same) (refl, gate-paid reg opts.require_payment (rw free at gate), valid)

  judge-accept :
      {reg : RegisteredSkill}
      → judge C opts times from req ≡ ok (accept reg)
      → (to_lower req.caller_pubkey ≡ to_lower from)
        × (judge_skill C opts times from req (Map.get req.skill opts.skills) ≡ ok (accept reg))
  unfolding judge
  judge-accept h = elim (Bool-cases (to_lower req.caller_pubkey == to_lower from)) [
    | inl same ↦ ((eq_iff _ _).0 same, rw same at h)
    | inr other ↦ cc (rw other at h)
  ]

  -- A request is admitted only if it is fresh, its nonce is new, it comes from the peer whose key it
  -- names, its skill is registered and its input is valid, and, where payment is required, only if
  -- it carries a receipt that matches the expectations and that its caller has signed.
  pub admit-Admitted :
      (seen : Map ℕ) (reg : RegisteredSkill)
      → (admit C opts times from req seen).0 ≡ ok (accept reg)
      → Admitted seen reg
  unfolding admit
  admit-Admitted seen reg h =
      let (passed, judged) = refuse_if-accept _ (reject_stale opts times req seen).0 _ h in
      let (fresh, new) = reject_stale-pass seen passed in
      let (own, known) = judge-accept judged in
      let (registered, paid, valid) = judge_skill-accept (Map.get req.skill opts.skills) known in
      record {
        fresh = fresh;
        new = new;
        own = own;
        registered = registered;
        paid = paid;
        valid = valid;
      }
