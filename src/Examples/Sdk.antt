-- ===== src/Examples/Sdk.antt =====
-- Receipts, chains and scores.
use agentdir_open_agents.Base.{
  eq_iff, ℕ, ◌≡◌, ◌*◌, ◌≤◌, ◌≢◌, ◌↔◌, refl, String, Bool, true, false, none, some, List, [], ◌∷◌,
  arith, take,
}
use agentdir_open_agents.Base.Int.{pos, abs, ◌-ℤ◌, ◌*ℤ◌}
use agentdir_open_agents.Canonical.{canonical_json}
use agentdir_open_agents.Canonical.Reorder.{same_obj, swapped, canonical_json-SameJson}
use agentdir_open_agents.Signed.{sign_digest}
use agentdir_open_agents.Js.Text.{strip_hex, to_lower}
use agentdir_open_agents.Js.Coerce.{number_of}
use agentdir_open_agents.Js.Number.{Number, nan, int, show_number}
use agentdir_open_agents.Js.Show.{show_items}
use agentdir_open_agents.Js.Ratio.{IsUnit}
use agentdir_open_agents.Js.Value.{
  Json, Fields, str, num, bool, null, arr, obj, nil, cons, end, field, fields_of, prop,
}
use agentdir_open_agents.Js.Result.{ok, throw}
use agentdir_open_agents.Sdk.Storage.{Storage}
use agentdir_open_agents.Sdk.Payments.{
  PaymentReceiptBody, PaymentExpectations, max_age, with_sig, sign_receipt, verify_receipt,
  check_receipt_shape,
}
use agentdir_open_agents.Sdk.Payments.Shape.{
  HasTerms, check_receipt_shape_iff, check_receipt_shape_never_stale,
}
use agentdir_open_agents.Sdk.Payments.Signature.{verify_receipt-sign_receipt}
use agentdir_open_agents.Sdk.Rep.{AppendInput, RepChain, append, walk, score_for}
use agentdir_open_agents.Sdk.Links.{new_chain, stored}
use agentdir_open_agents.Sdk.Links.Walk.{append_all}
use agentdir_open_agents.Sdk.Rep.Chain.{call, walk-append_all}
use agentdir_open_agents.Sdk.Rep.Lock.{append_blocked_after_failure}
use agentdir_open_agents.Sdk.Rep.Scores.{score_for_bounds, score_for_share}
use agentdir_open_agents.Examples.Toys.{
  toy_crypto, toy_crypto-IsSound, toy_storage, toy_storage-IsFaithful,
}

abbrev body : PaymentReceiptBody
body = record {
  kind = "kh-direct";
  amount = "0.01";
  token_address = "0xcd";
  token_symbol = "USDC";
  network = "1";
  recipient = "0xab";
  tx_hash = "0x1";
  execution_id = "e1";
  caller_pubkey = "aa";
  skill = "echo";
  ts = pos 89;
}

abbrev expected : PaymentExpectations
expected = record {
  amount = some "0.01";
  token_address = "0xCD";
  network = "1";
  recipient = "0xAB";
  caller_pubkey = "0xAA";
  skill = "echo";
  max_age_ms = none;
}

verify_receipt-sign_receipt_example :
    verify_receipt toy_crypto (sign_receipt toy_crypto body (sign_digest toy_crypto "aa")) "0xaa"
    ≡ true
unfolding strip_hex
verify_receipt-sign_receipt_example =
    verify_receipt-sign_receipt toy_crypto toy_crypto-IsSound body "aa" "0xaa" refl

check_receipt_shape_iff_example :
    (check_receipt_shape (pos 90000) (with_sig body "s") expected ≡ ok none) ↔ (
      (abs (pos 90000 -ℤ (pos 89 *ℤ pos 1000)) ≤ max_age expected)
      × HasTerms (with_sig body "s") expected)
unfolding prop fields_of
check_receipt_shape_iff_example =
    check_receipt_shape_iff (pos 90000) (pos 89) (with_sig body "s") expected refl

abbrev terms : Fields
terms = field "amount" (str "0.01") (
    field "tokenAddress" (str "0xcd") (
      field "network" (str "1") (
        field "recipient" (str "0xab")
          (field "callerPubkey" (str "aa") (field "skill" (str "echo") end)))))

-- A receipt with no time of settlement.
abbrev timeless : Json
timeless = obj terms

timeless_passes : check_receipt_shape (pos 90000) timeless expected ≡ ok none
unfolding check_receipt_shape prop to_lower strip_hex
timeless_passes = refl

abbrev numbers_of : List String → List Number
numbers_of [] = []
numbers_of (t ∷ ts) = number_of t ∷ numbers_of ts

-- What texts are read as.
texts_read :
    numbers_of ("17e8" ∷ "1.50e1" ∷ " 12. " ∷ "+7" ∷ "-0x1" ∷ "0b101" ∷ "" ∷ "1e" ∷ "ten" ∷ [])
    ≡ int (pos 1700000000)
      ∷ int (pos 15)
      ∷ int (pos 12)
      ∷ int (pos 7)
      ∷ nan
      ∷ int (pos 5)
      ∷ int (pos 0)
      ∷ nan
      ∷ nan
      ∷ []
unfolding number_of
texts_read = refl

-- A text that spells a number is read as that number: this receipt goes stale.
abbrev spelled : Json
spelled = obj (field "ts" (arr (cons (str " 0x5A ") nil)) terms)

spelled_passes : check_receipt_shape (pos 90000) spelled expected ≡ ok none
unfolding check_receipt_shape prop to_lower strip_hex number_of show_items show_number ◌-ℤ◌ ◌*ℤ◌
spelled_passes = refl

spelled_goes_stale :
    check_receipt_shape (pos 900000000) spelled expected ≡ ok (some "receipt ts skew 899910000ms")
unfolding check_receipt_shape prop to_lower strip_hex number_of show_items show_number ◌-ℤ◌ ◌*ℤ◌
spelled_goes_stale = refl

check_receipt_shape_never_stale_example :
    check_receipt_shape (pos 900000000) timeless expected ≡ ok none
unfolding prop
check_receipt_shape_never_stale_example =
    check_receipt_shape_never_stale (pos 90000) (pos 900000000) timeless expected refl
      timeless_passes

abbrev served : AppendInput
served = record {
  caller_inft = str "1";
  callee_inft = "7";
  skill = "echo";
  ok = true;
  latency_ms = pos 12;
  tee_attestation = none;
}

abbrev signer : String → String
signer = sign_digest toy_crypto "b0b"

abbrev two_calls : RepChain × List Json × List Json
two_calls =
    append_all toy_storage (call toy_crypto toy_storage signer)
      ((1000, served) ∷ (2000, served) ∷ []) (new_chain none) [] []

second_root : two_calls.0.head ≡ some "rr"
unfolding append_all append stored
second_root = refl

walk-append_all_example :
    walk toy_crypto toy_storage "rr" 5 none two_calls.1 ≡ ok (take 5 two_calls.2)
walk-append_all_example =
    walk-append_all toy_crypto toy_storage signer toy_storage-IsFaithful
      ((1000, served) ∷ (2000, served) ∷ []) [] "rr" 5 second_root

-- A storage that is down.
abbrev down : Storage
down = record {
  Store = ℕ;
  put_json = λ v s. (throw "offline", s);
  get_json = λ root s. throw "offline";
}

append_blocked_after_failure_example :
    let c' = (append toy_crypto down 1000 served signer (new_chain none) 0).1 in
    append toy_crypto down 2000 served signer c' 1 ≡ (throw "offline", c', 1)
append_blocked_after_failure_example =
    append_blocked_after_failure toy_crypto down signer 1000 2000 served served (new_chain none) 0 1
      "offline" refl refl

abbrev att : Bool → Json
att passed =
    obj (field "calleeINFT" (str "7") (field "skill" (str "echo") (field "ok" (bool passed) end)))

abbrev history : List Json
history = att true ∷ att false ∷ att true ∷ []

score_for_bounds_example :
    let s = score_for history "7" (some "echo") (some 10) in
    (s.ok ≤ s.n) × (s.n ≤ 10) × IsUnit s.ratio × IsUnit s.score
score_for_bounds_example = score_for_bounds history "7" (some "echo") (some 10) (omega arith)

score_for_share_example :
    let s = score_for history "7" (some "echo") (some 10) in s.score.num * 10 ≡ s.ok * s.score.den
score_for_share_example = score_for_share history "7" (some "echo") (some 10)

abbrev ab : Json
ab = obj (field "a" null (field "b" (num (pos 1)) end))

abbrev ba : Json
ba = obj (field "b" (num (pos 1)) (field "a" null end))

a-ne-b : ◌≢◌ {A = String} "a" "b"
a-ne-b = ground (arith, eq_iff "a" "b")

canonical_json-SameJson_example : canonical_json ab ≡ canonical_json ba
canonical_json-SameJson_example = canonical_json-SameJson ab ba (same_obj (swapped a-ne-b))
