-- ===== src/Examples/Settle.antt =====
-- A payment that the service makes after one poll, and whose hash it tells with it.
use agentdir_open_agents.Base.{◌≡◌, refl, String, true, none, some, List, [], ◌∷◌, arith}
use agentdir_open_agents.Base.Int.{pos, ◌-ℤ◌, ◌*ℤ◌}
use agentdir_open_agents.Signed.{sign_digest}
use agentdir_open_agents.Js.Text.{to_lower, strip_hex}
use agentdir_open_agents.Js.Value.{Json}
use agentdir_open_agents.Js.Result.{Result, ok}
use agentdir_open_agents.Sdk.Payments.{
  PaymentExpectations, sign_receipt, verify_receipt, check_receipt_shape,
}
use agentdir_open_agents.Sdk.Payments.Settle.{
  SettleArgs, KhOpts, Reply, InitBody, StatusBody, StatusPoll, settled, receipt_body, started,
  poll_loop, finished, settle,
}
use agentdir_open_agents.Sdk.Payments.Settle.Paid.{IsPaid, settle-IsPaid}
use agentdir_open_agents.Sdk.Payments.Settle.Accepted.{IsExpected, settle-accepted}
use agentdir_open_agents.Examples.Toys.{toy_crypto, toy_crypto-IsSound}

abbrev opts : KhOpts
opts = record { token_address = "0xcd"; token_symbol = "USDC"; network = "1"; timeout_ms = none }

abbrev args : SettleArgs
args = record { amount = "0.01"; recipient = "0xab"; skill = "echo"; caller_pubkey = "0xaa" }

abbrev begun : Result (Reply InitBody)
begun = ok (record {
  is_ok = true;
  status_code = 200;
  text = "";
  json = ok (record { execution_id = some "e1"; status = some "pending"; shown = "{}" });
})

abbrev told : Result (Reply StatusBody)
told = ok (record {
  is_ok = true;
  status_code = 200;
  text = "";
  json = ok (record {
    status = some "completed";
    transaction_hash = some "0x1";
    result_hash = none;
    shown = "{}";
  });
})

abbrev polls : List StatusPoll
polls = record { now = 1000; reply = told } ∷ record { now = 2500; reply = told } ∷ []

abbrev signer : String → String
signer = sign_digest toy_crypto "aa"

abbrev receipt : Json
receipt = sign_receipt toy_crypto (receipt_body opts args "e1" "0x1" 3000) signer

paid : settle toy_crypto opts args signer 3000 begun 900 polls told ≡ settled (ok receipt)
unfolding settle started poll_loop finished
paid = refl

settle-IsPaid_example : IsPaid toy_crypto opts args signer 3000 begun polls receipt
settle-IsPaid_example =
    settle-IsPaid toy_crypto opts args signer 3000 begun 900 polls told receipt paid

abbrev wanted : PaymentExpectations
wanted = record {
  amount = some "0.01";
  token_address = "0xCD";
  network = "1";
  recipient = "0xAB";
  caller_pubkey = "AA";
  skill = "echo";
  max_age_ms = none;
}

expected : IsExpected opts args 3000 (pos 4000) wanted
unfolding to_lower strip_hex ◌-ℤ◌ ◌*ℤ◌
expected = record {
  amount = refl;
  token = refl;
  network = refl;
  recipient = refl;
  caller = refl;
  skill = refl;
  recent = omega arith;
}

own : strip_hex "0xaa" ≡ "aa"
unfolding strip_hex
own = refl

settle-accepted_example :
    (check_receipt_shape (pos 4000) receipt wanted ≡ ok none)
    × (verify_receipt toy_crypto receipt "0xaa" ≡ true)
settle-accepted_example =
    settle-accepted toy_crypto opts args "aa" 3000 (pos 4000) wanted toy_crypto-IsSound expected own
      begun 900 polls told receipt paid
