-- ===== src/Sdk/Payments/Settle.antt =====
-- `KhDirectExecuteAdapter.settle` of packages/sdk/src/payments.ts. The service is what its calls gave:
-- each may throw, and a reply that is not `ok` has a text. Its ids, hashes and statuses are texts
-- or missing, as the source reads them. A poll is one round of the loop, with `Date.now()` at its
-- test. A run over a list of polls that is too short ends as `polling`.
pub mod Paid
pub mod Accepted
use Prim.Native.String.{◌++◌}
use agentdir_open_agents.Base.{
  ℕ, zero, suc, ◌+◌, ◌/◌, String, Bool, true, false, ◌||◌, not, Option, none, some, List, [], ◌∷◌,
  ◌==◌, ltb, if◌then◌else◌,
}
use agentdir_open_agents.Base.Int.{pos}
use agentdir_open_agents.Crypto.{Crypto}
use agentdir_open_agents.Js.Number.{number_text}
use agentdir_open_agents.Js.Text.{is_filled, strip_hex}
use agentdir_open_agents.Js.Value.{Json}
use agentdir_open_agents.Js.Result.{Result, ok, throw, ◌>>=◌}
use agentdir_open_agents.Sdk.Payments.{PaymentReceiptBody, sign_receipt}

pub record SettleArgs : Type 0 where
  pub amount : String
  pub recipient : String
  pub skill : String
  pub caller_pubkey : String

pub record KhOpts : Type 0 where
  pub token_address : String
  pub token_symbol : String
  pub network : String
  pub timeout_ms : Option ℕ

pub record Reply (A : Type 0) : Type 0 where
  pub is_ok : Bool
  pub status_code : ℕ
  pub text : String
  pub json : Result A

pub record InitBody : Type 0 where
  pub execution_id : Option String
  pub status : Option String
  pub shown : String

pub record StatusBody : Type 0 where
  pub status : Option String
  pub transaction_hash : Option String
  pub result_hash : Option String
  pub shown : String

pub record StatusPoll : Type 0 where
  pub now : ℕ
  pub reply : Result (Reply StatusBody)

-- The variables of the loop.
pub record Settling : Type 0 where
  pub status : Option String
  pub tx_hash : Option String
  pub last_body : String

pub data Settlement : Type 0 where
  settled : Result Json → Settlement
  polling : Settlement

-- `s.slice(0, n)`, for characters of one unit.
abbrev pub cut : ℕ → String → String
cut zero s = ""
cut (suc n) String.[] = ""
cut (suc n) (String.◌∷◌ c s) = String.◌∷◌ c (cut n s)

abbrev pub is_one : String → Option String → Bool
is_one t none = false
is_one t (some s) = s == t

abbrev pub is_done : Option String → Bool
is_done status = is_one "completed" status || is_one "success" status

abbrev pub is_failed : Option String → Bool
is_failed status = is_one "failed" status || (is_one "error" status || is_one "cancelled" status)

abbrev pub shown_status : Option String → String
shown_status none = "undefined"
shown_status (some s) = s

-- A text that is not empty.
abbrev pub is_given : Option String → Bool
is_given none = false
is_given (some t) = is_filled t

abbrev pub timeout_of : KhOpts → ℕ
timeout_of opts = elim opts.timeout_ms [ none ↦ 60000 | some t ↦ t ]

-- The execution that the first reply names, and what the loop starts with.
abbrev pub with_id : InitBody → Option String → Result (String × Settling)
with_id b none = throw "KH response missing executionId"
with_id b (some id) =
    if is_filled id
    then ok (id, record { status = b.status; tx_hash = none; last_body = b.shown })
    else throw "KH response missing executionId"

unfoldable pub started : Result (Reply InitBody) → Result (String × Settling)
started init = do
  r ← init
  if not r.is_ok
      then throw
          ("KH transfer init " ++ (number_text (pos r.status_code) ++ (": " ++ cut 300 r.text)))
      else (r.json >>= λ b. with_id b b.execution_id)

-- The end of the loop, or the variables of its next round.
pub data Step : Type 0 where
  leave : Result Settling → Step
  stay : Settling → Step

abbrev pub told : Settling → StatusBody → Settling
told st b = record {
  status = b.status;
  tx_hash = (if is_given b.transaction_hash then b.transaction_hash else st.tx_hash);
  last_body = b.shown;
}

abbrev pub on_body : Settling → Result StatusBody → Step
on_body st (throw e) = leave (throw e)
on_body st (ok b) = stay (told st b)

abbrev pub on_status : Settling → Result (Reply StatusBody) → Step
on_status st (throw e) = leave (throw e)
on_status st (ok r) = if not r.is_ok then stay st else on_body st r.json

abbrev pub step : ℕ → Settling → StatusPoll → Step
step deadline st p =
    if not (ltb p.now deadline)
    then leave (ok st)
    else if is_done st.status
    then leave (ok st)
    else if is_failed st.status
    then leave
        (throw ("KH transfer " ++ (shown_status st.status ++ (": " ++ cut 300 st.last_body))))
    else on_status st p.reply

-- `none` where the polls run out.
unfoldable pub poll_loop : ℕ → List StatusPoll → Settling → Option (Result Settling)
poll_loop deadline [] st = none
poll_loop deadline (p ∷ ps) st = elim (step deadline st p) [
  | leave outcome ↦ some outcome
  | stay next ↦ poll_loop deadline ps next
]

-- `body.transactionHash ?? body.result?.transactionHash ?? null`
abbrev pub first_hash : Option String → Option String → Option String
first_hash none other = other
first_hash (some t) other = some t

-- The hash, read once more if the loop did not see it.
abbrev pub final_hash : Option String → Result (Reply StatusBody) → Result (Option String)
final_hash seen final = if is_given seen then ok seen else (do
  r ← final
  if r.is_ok then (r.json >>= λ b. ok (first_hash b.transaction_hash b.result_hash)) else ok seen)

abbrev pub receipt_body : KhOpts → SettleArgs → String → String → ℕ → PaymentReceiptBody
receipt_body opts args id tx now = record {
  kind = "kh-direct";
  amount = args.amount;
  token_address = opts.token_address;
  token_symbol = opts.token_symbol;
  network = opts.network;
  recipient = args.recipient;
  tx_hash = tx;
  execution_id = id;
  caller_pubkey = strip_hex args.caller_pubkey;
  skill = args.skill;
  ts = pos (now / 1000);
}

module _ (C : Crypto) (opts : KhOpts) (args : SettleArgs) (signer : String → String) (now : ℕ) where
  abbrev pub with_hash : String → Option String → Result Json
  with_hash id none = throw "KH transfer succeeded but transactionHash missing"
  with_hash id (some tx) =
      if is_filled tx
      then ok (sign_receipt C (receipt_body opts args id tx now) signer)
      else throw "KH transfer succeeded but transactionHash missing"

  -- What follows the loop.
  unfoldable pub finished : String → Result (Reply StatusBody) → Settling → Result Json
  finished id final st =
      if not (is_done st.status)
      then throw ("KH transfer timeout (last status=" ++ (shown_status st.status ++ ")"))
      else final_hash st.tx_hash final >>= with_hash id

  abbrev pub after_loop : String → Result (Reply StatusBody) → Option (Result Settling) → Settlement
  after_loop id final none = polling
  after_loop id final (some outcome) = settled (outcome >>= finished id final)

  abbrev pub after_start :
      ℕ → List StatusPoll → Result (Reply StatusBody) → Result (String × Settling) → Settlement
  after_start deadline polls final (throw e) = settled (throw e)
  after_start deadline polls final (ok (id, st)) = after_loop id final (poll_loop deadline polls st)

  -- `started_at` is `Date.now()` before the loop.
  unfoldable pub settle :
      Result (Reply InitBody) → ℕ → List StatusPoll → Result (Reply StatusBody) → Settlement
  unfolding started poll_loop finished
  settle init started_at polls final =
      after_start (started_at + timeout_of opts) polls final (started init)
