-- ===== src/Agent/Caller.antt =====
-- packages/agent/src/caller.ts: the caller's side, what it sends and which responses and chunks it
-- takes. One reading of the receive queue is a `Poll`, with the times that the source reads there.
pub mod Check
pub mod Accepted
pub mod Loop
pub mod Exact
pub mod Trip
pub mod Sound
pub mod Chunks
pub mod Calls
use agentdir_open_agents.Base.{ℕ, String, Option, none, some}
use agentdir_open_agents.Js.Text.{to_lower}
use agentdir_open_agents.Js.Value.{Value}
use agentdir_open_agents.Js.Result.{Result}

pub record CallSkillArgs : Type 0 where
  pub dest_pubkey : String
  pub caller_pubkey : String
  pub skill : String
  pub input : Value
  pub caller_inft : Value
  pub payment : Value
  pub expected_responder_pubkey : Option String
  pub timeout_ms : Option ℕ
  pub max_response_age_ms : Option ℕ

abbrev text_or : Option String → String → String
text_or none d = d
text_or (some t) d = t

abbrev number_or : Option ℕ → ℕ → ℕ
number_or none d = d
number_or (some n) d = n

-- `expectedPub`
abbrev pub expected_pub : CallSkillArgs → String
expected_pub args = to_lower (text_or args.expected_responder_pubkey args.dest_pubkey)

abbrev pub max_age : CallSkillArgs → ℕ
max_age args = number_or args.max_response_age_ms 30000

-- A stream has 90 seconds, and a single call 30.
abbrev pub timeout : ℕ → CallSkillArgs → ℕ
timeout default args = number_or args.timeout_ms default

-- `Date.now()` at the test of the loop and at the test of the skew, and what `recvOnce` gave.
pub record Poll : Type 0 where
  pub now : ℕ
  pub checked : ℕ
  pub received : Result (Option (String × String))
