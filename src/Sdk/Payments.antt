-- ===== src/Sdk/Payments.antt =====
-- packages/sdk/src/payments.ts: receipts, their signature, and the check of a receipt's fields.
pub mod Shape
pub mod Signature
pub mod Settle
use Prim.Native.String.{◌++◌}
use Prim.Native.String
use agentdir_open_agents.Base.{
  ℕ, String, Bool, true, false, ◌||◌, Option, none, some, List, [], ◌∷◌, ◌==◌, if◌then◌else◌, not,
}
use agentdir_open_agents.Base.Int.{ℤ, pos, negsuc, ◌-ℤ◌}
use agentdir_open_agents.Crypto.{Crypto}
use agentdir_open_agents.Signed.{digest_of, verify_signed}
use agentdir_open_agents.Js.Text.{to_lower, strip_hex}
use agentdir_open_agents.Js.Value.{Json, num, str, Value, prop, is_text_eq, object, fields_of}
use agentdir_open_agents.Js.Coerce.{to_number}
use agentdir_open_agents.Js.Number.{Number, minus, times, is_above, is_below, show_number}
use agentdir_open_agents.Js.Show.{show_value}
use agentdir_open_agents.Js.Result.{Result, ok, throw, ◌>>=◌, lower_of, reject_if}

pub record PaymentReceiptBody : Type 0 where
  pub kind : String
  pub amount : String
  pub token_address : String
  pub token_symbol : String
  pub network : String
  pub recipient : String
  pub tx_hash : String
  pub execution_id : String
  pub caller_pubkey : String
  pub skill : String
  pub ts : ℤ

-- The properties of a receipt's body, in the order of the source.
abbrev pub body_fields : PaymentReceiptBody → List (String × Value) → List (String × Value)
body_fields b tail =
    ("v", some (num (pos 1)))
    ∷ ("kind", some (str b.kind))
    ∷ ("amount", some (str b.amount))
    ∷ ("tokenAddress", some (str b.token_address))
    ∷ ("tokenSymbol", some (str b.token_symbol))
    ∷ ("network", some (str b.network))
    ∷ ("recipient", some (str b.recipient))
    ∷ ("txHash", some (str b.tx_hash))
    ∷ ("executionId", some (str b.execution_id))
    ∷ ("callerPubkey", some (str b.caller_pubkey))
    ∷ ("skill", some (str b.skill))
    ∷ ("ts", some (num b.ts))
    ∷ tail

-- `{ ...body, sig }`
abbrev pub with_sig : PaymentReceiptBody → String → Json
with_sig b sig = object (body_fields b (("sig", some (str sig)) ∷ []))

module _ (C : Crypto) where
  unfoldable pub receipt_digest : PaymentReceiptBody → String
  receipt_digest b = digest_of C (object (body_fields b []))

  -- The signer is a function of the digest.
  unfoldable pub sign_receipt : PaymentReceiptBody → (String → String) → Json
  unfolding receipt_digest
  sign_receipt b signer = with_sig b (signer (receipt_digest b))

  unfoldable pub verify_receipt : Json → String → Bool
  verify_receipt receipt pubkey = verify_signed C receipt pubkey

pub record PaymentExpectations : Type 0 where
  -- `none` stands for the receipt's own amount, where the skill has no price.
  pub amount : Option String
  pub token_address : String
  pub network : String
  pub recipient : String
  pub caller_pubkey : String
  pub skill : String
  pub max_age_ms : Option ℕ

abbrev pub max_age : PaymentExpectations → ℕ
max_age exp = elim exp.max_age_ms [ none ↦ 300000 | some m ↦ m ]

abbrev negated : ℕ → ℤ
negated m = pos 0 -ℤ pos m

abbrev has_amount : Option String → Json → Bool
has_amount none receipt = true
has_amount (some a) receipt = is_text_eq a (prop "amount" receipt)

abbrev wanted : Option String → Json → String
wanted none receipt = show_value (prop "amount" receipt)
wanted (some a) receipt = a

-- Null on a pass, or the reason of the mismatch.
unfoldable pub check_receipt_shape : ℤ → Json → PaymentExpectations → Result (Option String)
check_receipt_shape now receipt exp =
    let age = minus now (times (to_number (prop "ts" receipt)) 1000) in
    let max = max_age exp in
    reject_if (is_above age (pos max) || is_below age (negated max))
      ("receipt ts skew " ++ (show_number age ++ "ms"))
      (reject_if (not (has_amount exp.amount receipt))
        ("amount mismatch (got "
          ++ (show_value (prop "amount" receipt)
              ++ (", want " ++ (wanted exp.amount receipt ++ ")"))))
        (do
          token ← lower_of (prop "tokenAddress" receipt)
          reject_if (not (token == to_lower exp.token_address)) "token mismatch" (
              reject_if (not (is_text_eq exp.network (prop "network" receipt))) "network mismatch"
                (do
                  recipient ← lower_of (prop "recipient" receipt)
                  reject_if (not (recipient == to_lower exp.recipient)) "recipient mismatch" (do
                    caller ← lower_of (prop "callerPubkey" receipt)
                    reject_if (not (caller == to_lower (strip_hex exp.caller_pubkey)))
                        "callerPubkey mismatch"
                        (reject_if (not (is_text_eq exp.skill (prop "skill" receipt)))
                          "skill mismatch" (ok none)))))))
