-- ===== src/Sdk/Payments/Settle/Accepted.antt =====
-- The receipts of `settle` of packages/sdk/src/payments.ts at the agent that is paid.

use agentdir_open_agents.Base.{ℕ, ◌/◌, ◌≤◌, ◌≡◌, refl, ap, String, true, Option, none, some, List}
use agentdir_open_agents.Base.Int.{ℤ, pos, abs, ◌-ℤ◌, ◌*ℤ◌}
use agentdir_open_agents.Crypto.{Crypto, IsSound}
use agentdir_open_agents.Signed.{sign_digest}
use agentdir_open_agents.Js.Text.{to_lower, strip_hex}
use agentdir_open_agents.Js.Value.{Json, str, prop, fields_of}
use agentdir_open_agents.Js.Result.{Result, ok}
use agentdir_open_agents.Sdk.Payments.{
  PaymentExpectations, max_age, sign_receipt, verify_receipt, check_receipt_shape,
}
use agentdir_open_agents.Sdk.Payments.Shape.{AgreesAmount, Matches, Matches-passed}
use agentdir_open_agents.Sdk.Payments.Signature.{verify_receipt-sign_receipt}
use agentdir_open_agents.Sdk.Payments.Settle.{
  SettleArgs, KhOpts, Reply, InitBody, StatusBody, StatusPoll, settled, receipt_body, settle,
}
use agentdir_open_agents.Sdk.Payments.Settle.Paid.{settle-IsPaid}

abbrev pub ExpectsAmount : Option String → String → Type 0
ExpectsAmount none amount = Unit
ExpectsAmount (some a) amount = amount ≡ a

-- The agent expects this payment, read at the time `at` after the receipt was made at `now`.
pub record IsExpected (opts : KhOpts) (args : SettleArgs) (now : ℕ) (at : ℤ)
    (exp : PaymentExpectations) : Type 0 where
  pub amount : ExpectsAmount exp.amount args.amount
  pub token : to_lower opts.token_address ≡ to_lower exp.token_address
  pub network : opts.network ≡ exp.network
  pub recipient : to_lower args.recipient ≡ to_lower exp.recipient
  pub caller : to_lower (strip_hex args.caller_pubkey) ≡ to_lower (strip_hex exp.caller_pubkey)
  pub skill : args.skill ≡ exp.skill
  pub recent : abs (at -ℤ (pos (now / 1000) *ℤ pos 1000)) ≤ max_age exp

module _ (C : Crypto) (opts : KhOpts) (args : SettleArgs) (key : String) (now : ℕ) (at : ℤ)
    (exp : PaymentExpectations) (sound : IsSound C) (expected : IsExpected opts args now at exp)
    (own : strip_hex args.caller_pubkey ≡ C.public_key key) where
  abbrev made : String → String → Json
  made id tx = sign_receipt C (receipt_body opts args id tx now) (sign_digest C key)

  made-Agrees :
      (id tx : String) (amount : Option String)
      → ExpectsAmount amount args.amount
      → AgreesAmount amount (made id tx)
  unfolding sign_receipt fields_of prop
  made-Agrees id tx none h = tt
  made-Agrees id tx (some a) h = ap (λ t. some (str t)) h

  made-Matches : (id tx : String) → Matches at (made id tx) exp
  unfolding sign_receipt fields_of prop
  made-Matches id tx = record {
    recent = expected.recent;
    terms = record {
      amount = made-Agrees id tx exp.amount expected.amount;
      token = (_, refl, expected.token);
      network = ap (λ t. some (str t)) expected.network;
      recipient = (_, refl, expected.recipient);
      caller = (_, refl, expected.caller);
      skill = ap (λ t. some (str t)) expected.skill;
    };
  }

  -- A receipt that is given out, signed by the caller's key, passes the agent's check of its fields and
  -- verifies under the caller's public key, where the agent expects this payment and reads the receipt
  -- within the age it allows.
  pub settle-accepted :
      (init : Result (Reply InitBody)) (at_start : ℕ) (polls : List StatusPoll)
      (final : Result (Reply StatusBody)) (receipt : Json)
      → settle C opts args (sign_digest C key) now init at_start polls final ≡ settled (ok receipt)
      → (check_receipt_shape at receipt exp ≡ ok none)
        × (verify_receipt C receipt args.caller_pubkey ≡ true)
  settle-accepted init at_start polls final receipt h =
      let paid =
        settle-IsPaid C opts args (sign_digest C key) now init at_start polls final receipt h in
      rw paid.signed (
        Matches-passed at (made paid.id paid.tx) exp (made-Matches paid.id paid.tx),
        verify_receipt-sign_receipt C sound (receipt_body opts args paid.id paid.tx now) key
            args.caller_pubkey own,
      )
