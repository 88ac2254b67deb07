-- ===== src/Examples/Agent.antt =====
-- The agent at work: one skill with a price, and a caller who pays for it.
use Prim.Native.String.{◌++◌ as append}
use agentdir_open_agents.Base.{
  ◌≤◌, ◌++◌, ◌≡◌, refl, String, true, false, Option, none, some, [], ◌∷◌, arith,
}
use agentdir_open_agents.Base.Int.{pos, ◌-ℤ◌, ◌*ℤ◌}
use agentdir_open_agents.Signed.{sign_digest, verify_digest, digest_of, verify_signed}
use agentdir_open_agents.Canonical.{canonical_json}
use agentdir_open_agents.Js.Map
use agentdir_open_agents.Js.Text.{text_le, char_lt, strip_hex, without_two, to_lower, units}
use agentdir_open_agents.Js.Number.{number_text}
use agentdir_open_agents.Js.Value.{Json, str, obj, end, field, fields_of, prop, rest_of}
use agentdir_open_agents.Js.Result.{ok}
use agentdir_open_agents.Sdk.Payments.{
  PaymentReceiptBody, receipt_digest, sign_receipt, verify_receipt, check_receipt_shape,
}
use agentdir_open_agents.Sdk.Links.{new_chain}
use agentdir_open_agents.Agent.Protocol.{SkillRequest}
use agentdir_open_agents.Agent.Runtime.{AgentIdentity, RegisteredSkill, AgentOpts, Agent, Times}
use agentdir_open_agents.Agent.Runtime.Admit.{
  nonce_cap, validate_input, check_payment, accept, refuse, admit, reject_stale, judge,
}
use agentdir_open_agents.Agent.Runtime.Gate.{Admitted, admit-Admitted}
use agentdir_open_agents.Agent.Runtime.Handle.{Link, Inbound, handle_skill_request, receive_all}
use agentdir_open_agents.Agent.Runtime.Replay.{no_replay, receive_all-cache_bound}
use agentdir_open_agents.Agent.Runtime.Stats.{IsCounted, receive_all-IsCounted}
use agentdir_open_agents.Agent.Runtime.Replies.{
  Frames, IsAnswer, IsReliable, handle_skill_request-IsAnswer,
}
use agentdir_open_agents.Js.Map.{size}
use agentdir_open_agents.Examples.Toys.{toy_crypto, toy_storage}

abbrev me : AgentIdentity
me = record {
  ens_name = "bob.agentdir.eth";
  axl_private_key_hex = "b0b";
  axl_pubkey_hex = "b0b";
  inft_token_id = some "7";
}

abbrev echo : RegisteredSkill
echo = record {
  id = "echo";
  input_schema = record {
    required = "text" ∷ [];
    properties = some (("text", record { is_string = true; max_length = some 10 }) ∷ []);
  };
  price = some "0.01";
  handler = λ input. ok input;
  stream_handler = some (λ input. record { yielded = "h" ∷ "i" ∷ []; returned = ok input });
}

abbrev pub opts : AgentOpts
opts = record {
  identity = me;
  skills = ("echo", echo) ∷ [];
  require_payment = true;
  max_request_age_ms = none;
  nonce_cache_size = some 2;
  snapshot_every = some 1;
  payment_expectations =
      some
        (record { recipient = "0xAB"; token_address = "0xCD"; network = "1"; max_age_ms = none });
  has_rep = true;
  tee_attestation = none;
}

abbrev pub times : Times
times = record {
  started = 90000;
  checked = 90000;
  noted = 90001;
  receipt = 90002;
  chunk = λ seq. 90003;
  replied = 90004;
  measured = 90005;
  attested = 90006;
  failed = 90007;
}

abbrev body : PaymentReceiptBody
body = record {
  kind = "kh-direct";
  amount = "0.01";
  token_address = "0xcd";
  token_symbol = "USDC";
  network = "1";
  recipient = "0xab";
  tx_hash = "0x1";
  execution_id = "e1";
  caller_pubkey = "aa";
  skill = "echo";
  ts = pos 89;
}

abbrev receipt : Json
receipt = sign_receipt toy_crypto body (sign_digest toy_crypto "aa")

abbrev pub asked : SkillRequest
asked = record {
  id = "1";
  nonce = "n1";
  ts = pos 89000;
  skill = "echo";
  input = some (obj (field "text" (str "hi") end));
  payment = some receipt;
  caller_inft = none;
  caller_pubkey = "aa";
  stream = none;
}

verdict_of_asked : (admit toy_crypto opts times "AA" asked []).0 ≡ ok (accept echo)
unfolding admit reject_stale judge check_payment validate_input check_receipt_shape verify_receipt
    verify_signed verify_digest digest_of sign_digest sign_receipt receipt_digest canonical_json
    strip_hex without_two to_lower units prop fields_of rest_of Map.has Map.set Map.get ◌-ℤ◌ ◌*ℤ◌
    number_text text_le char_lt
verdict_of_asked = refl

admit-Admitted_example : Admitted toy_crypto opts times "AA" asked [] echo
admit-Admitted_example = admit-Admitted toy_crypto opts times "AA" asked [] echo verdict_of_asked

abbrev idle : Agent toy_storage
idle = record {
  seen_nonces = [];
  calls_total = 0;
  ok_total = 0;
  skill_stats = [];
  snapshot_in_flight = false;
  rep = new_chain none;
  store = [];
  sent = [];
}

abbrev pub open_link : Link
open_link sent to v = none

abbrev no_parse : String → Option Json
no_parse text = none

abbrev arrived : Inbound
arrived = record { times = times; from = "AA"; body = "{" }

passes_first : (reject_stale opts times asked idle.seen_nonces).0 ≡ none
unfolding reject_stale Map.has ◌-ℤ◌
passes_first = refl

abbrev after_first : Agent toy_storage
after_first = (handle_skill_request toy_crypto toy_storage opts open_link times "AA" asked idle).1

abbrev after_noise : Agent toy_storage
after_noise = receive_all toy_crypto toy_storage opts open_link no_parse (arrived ∷ []) after_first

no_replay_example :
    (why : String) × (admit toy_crypto opts times "BB" asked after_noise.seen_nonces
      ≡ (ok (refuse (append "request rejected: " why)), after_noise.seen_nonces))
no_replay_example =
    no_replay toy_crypto toy_storage opts open_link no_parse times "AA" asked (arrived ∷ []) idle
      times "BB" asked (omega arith) passes_first refl

receive_all-cache_bound_example :
    size
      (receive_all toy_crypto toy_storage opts open_link no_parse (arrived ∷ []) idle).seen_nonces
    ≤ nonce_cap opts
receive_all-cache_bound_example =
    receive_all-cache_bound toy_crypto toy_storage opts open_link no_parse (arrived ∷ []) idle
      (omega arith)

abbrev idle_counted : IsCounted 0 0 []
idle_counted = record { calls = refl; oks = refl; within = tt }

receive_all-IsCounted_example :
    let t = receive_all toy_crypto toy_storage opts open_link no_parse (arrived ∷ []) idle in
    IsCounted t.calls_total t.ok_total t.skill_stats × (t.ok_total ≤ t.calls_total)
receive_all-IsCounted_example =
    receive_all-IsCounted toy_crypto toy_storage opts open_link no_parse (arrived ∷ []) idle
      idle_counted

open_link-IsReliable : IsReliable open_link
open_link-IsReliable sent to v = refl

handle_skill_request-IsAnswer_example :
    (frames : Frames) × ((handle_skill_request toy_crypto toy_storage opts open_link times "AA"
        asked idle).1.sent
      ≡ idle.sent ++ frames)
    × IsAnswer "AA" "1" 0 frames
handle_skill_request-IsAnswer_example =
    handle_skill_request-IsAnswer toy_crypto toy_storage opts open_link times open_link-IsReliable
      "AA" asked idle (accept echo) verdict_of_asked
