-- ===== src/Sdk/Payments/Signature.antt =====
-- The signature of a receipt, packages/sdk/src/payments.ts.
use agentdir_open_agents.Base.{String, true, ◌≡◌, refl}
use agentdir_open_agents.Crypto.{Crypto, IsSound}
use agentdir_open_agents.Js.Text.{strip_hex}
use agentdir_open_agents.Js.Value.{prop, rest_of, fields_of}
use agentdir_open_agents.Signed.{sign_digest, verify_signed-sign_digest}
use agentdir_open_agents.Sdk.Payments.{PaymentReceiptBody, sign_receipt, verify_receipt}

-- A receipt that an identity signs verifies under the public key of the identity, with or without
-- the prefix 0x, whatever the fields of the receipt are.
pub verify_receipt-sign_receipt :
    (C : Crypto) (sound : IsSound C) (b : PaymentReceiptBody) (key pubkey : String)
    → strip_hex pubkey ≡ C.public_key key
    → verify_receipt C (sign_receipt C b (sign_digest C key)) pubkey ≡ true
unfolding verify_receipt sign_receipt fields_of prop rest_of
verify_receipt-sign_receipt C sound b key pubkey own =
    verify_signed-sign_digest C sound key pubkey _ _ refl refl own
