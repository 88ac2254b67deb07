-- ===== src/Agent/Runtime/Admit.antt =====
-- The tests that a request passes before its skill runs, in packages/agent/src/agent.ts:
-- `rejectStale`, `validateInput`, `checkPayment` and the first half of `handleSkillRequest`.
use Prim.Native.String.{◌++◌}
use agentdir_open_agents.Base.{
  ℕ, String, Bool, true, false, Option, none, some, List, [], ◌∷◌, ltb, if◌then◌else◌, ◌==◌, not,
}
use agentdir_open_agents.Base.Int.{pos, ◌-ℤ◌, abs}
use agentdir_open_agents.Crypto.{Crypto}
use agentdir_open_agents.Js.Map
use agentdir_open_agents.Js.Map.{Map, size}
use agentdir_open_agents.Js.Text.{to_lower, units}
use agentdir_open_agents.Js.Number.{number_text}
use agentdir_open_agents.Js.Value.{Json, str, Value, prop?, truthy, is_object}
use agentdir_open_agents.Js.Result.{Result, ok, ◌>>=◌}
use agentdir_open_agents.Sdk.Payments.{PaymentExpectations, check_receipt_shape, verify_receipt}
use agentdir_open_agents.Agent.Protocol.{SkillRequest}
use agentdir_open_agents.Agent.Runtime.{
  PropSchema, InputSchema, RegisteredSkill, PaymentConfig, AgentOpts, Times, or_else,
}

-- The first key of a map is the one that was set first.
abbrev pub drop_oldest : Map ℕ → Map ℕ
drop_oldest [] = []
drop_oldest ((k, t) ∷ seen) = Map.delete k ((k, t) ∷ seen)

unfoldable pub evict : ℕ → Map ℕ → Map ℕ
unfolding Map.delete
evict cap seen = if ltb cap (size seen) then drop_oldest seen else seen

abbrev pub max_request_age : AgentOpts → ℕ
max_request_age opts = or_else opts.max_request_age_ms 30000

abbrev pub nonce_cap : AgentOpts → ℕ
nonce_cap opts = or_else opts.nonce_cache_size 4096

unfoldable pub reject_stale : AgentOpts → Times → SkillRequest → Map ℕ → Option String × Map ℕ
unfolding evict
reject_stale opts times req seen =
    let skew = pos times.checked -ℤ req.ts in
    if ltb (max_request_age opts) (abs skew)
    then (some ("stale: " ++ (number_text skew ++ "ms")), seen)
    else if Map.has req.nonce seen
    then (some "replay", seen)
    else (none, evict (nonce_cap opts) (Map.set req.nonce times.noted seen))

-- `k in input`: the object's own properties.
abbrev is_there : Value → Bool
is_there none = false
is_there (some v) = true

first_missing : List String → Value → Option String
first_missing [] input = none
first_missing (k ∷ ks) input =
    let rest = first_missing ks input in
    if is_there (prop? k input) then rest else some ("missing required field: " ++ k)

abbrev too_long : Option ℕ → String → String → Option String → Option String
too_long none k s rest = rest
too_long (some most) k s rest =
    if ltb most (units s)
    then some ("field " ++ (k ++ (" exceeds maxLength=" ++ number_text (pos most))))
    else rest

abbrev check_prop : PropSchema → String → Value → Option String → Option String
check_prop p k none rest = rest
check_prop p k (some (str s)) rest = if p.is_string then too_long p.max_length k s rest else rest
check_prop p k (some v) rest =
    if p.is_string then some ("field " ++ (k ++ " must be string")) else rest

check_props : List (String × PropSchema) → Value → Option String
check_props [] input = none
check_props ((k, p) ∷ ps) input = check_prop p k (prop? k input) (check_props ps input)

abbrev or_next : Option String → Option String → Option String
or_next none next = next
or_next (some why) next = some why

abbrev props_of : Option (List (String × PropSchema)) → List (String × PropSchema)
props_of none = []
props_of (some ps) = ps

unfoldable pub validate_input : InputSchema → Value → Option String
unfolding first_missing check_props
validate_input schema input =
    if not (is_object input)
    then some "input must be object"
    else or_next (first_missing schema.required input)
        (check_props (props_of schema.properties) input)

-- Without a price the receipt's own amount is expected.
abbrev pub expectations : PaymentConfig → SkillRequest → RegisteredSkill → PaymentExpectations
expectations exp req reg = record {
  amount = reg.price;
  token_address = exp.token_address;
  network = exp.network;
  recipient = exp.recipient;
  caller_pubkey = req.caller_pubkey;
  skill = reg.id;
  max_age_ms = exp.max_age_ms;
}

module _ (C : Crypto) where
  abbrev pub signature_reason : Json → String → Option String → Option String
  signature_reason receipt pubkey (some why) = some why
  signature_reason receipt pubkey none =
      if verify_receipt C receipt pubkey then none else some "bad receipt sig"

  abbrev pub check_receipt : ℕ → Json → PaymentExpectations → SkillRequest → Result (Option String)
  check_receipt now receipt exp req = do
    shape ← check_receipt_shape (pos now) receipt exp
    ok (signature_reason receipt req.caller_pubkey shape)

  abbrev pub paid :
      ℕ → Value → Option PaymentConfig → SkillRequest → RegisteredSkill → Result (Option String)
  paid now none exp req reg = ok (some "no receipt")
  paid now (some receipt) none req reg = ok (some "agent missing paymentExpectations config")
  paid now (some receipt) (some exp) req reg =
      check_receipt now receipt (expectations exp req reg) req

  unfoldable pub check_payment :
      AgentOpts → Times → SkillRequest → RegisteredSkill → Result (Option String)
  check_payment opts times req reg =
      if truthy req.payment
      then paid times.receipt req.payment opts.payment_expectations req reg
      else ok (some "no receipt")

-- A request is refused with a reason, or its skill is to run.
pub data Verdict : Type 0 where
  refuse : String → Verdict
  accept : RegisteredSkill → Verdict

abbrev pub refuse_if : String → Option String → Result Verdict → Result Verdict
refuse_if what (some why) next = ok (refuse (what ++ why))
refuse_if what none next = next

module _ (C : Crypto) (opts : AgentOpts) (times : Times) (from : String) (req : SkillRequest) where
  abbrev pub payment_gate : RegisteredSkill → Result (Option String)
  payment_gate reg = if opts.require_payment then check_payment C opts times req reg else ok none

  abbrev pub judge_skill : Option RegisteredSkill → Result Verdict
  judge_skill none = ok (refuse ("unknown skill: " ++ req.skill))
  judge_skill (some reg) = do
    why ← payment_gate reg
    refuse_if "payment-rejected: " why
        (refuse_if "invalid input: " (validate_input reg.input_schema req.input) (ok (accept reg)))

  unfoldable pub judge : Result Verdict
  unfolding Map.get
  judge =
      if not (to_lower req.caller_pubkey == to_lower from)
      then ok (refuse "caller pubkey mismatch")
      else judge_skill (Map.get req.skill opts.skills)

  abbrev pub admitted : Option String × Map ℕ → Result Verdict × Map ℕ
  admitted (stale, seen) = (refuse_if "request rejected: " stale judge, seen)

  unfoldable pub admit : Map ℕ → Result Verdict × Map ℕ
  admit seen = admitted (reject_stale opts times req seen)
