-- ===== src/Web/Trace.antt =====
-- The trace, the result and the events of a call of Frontend/lib/call-server.ts, and what the process
-- reads while a call runs.
use agentdir_open_agents.Base.{ℕ, String, Bool, false, Option, none, some, List, [], ◌∷◌}
use agentdir_open_agents.Base.Int.{ℤ}
use agentdir_open_agents.Js.Text.{to_lower, is_filled}
use agentdir_open_agents.Js.Text.Parts.{includes}
use agentdir_open_agents.Js.Value.{Json, null, str, arr, Items, nil, cons, Value, prop, object}
use agentdir_open_agents.Js.Result.{Result}
use agentdir_open_agents.Agent.Caller.{CallSkillArgs}

pub record TraceEvent : Type 0 where
  pub step : String
  pub is_ok : Bool
  pub ms : ℤ
  pub detail : Value

pub record CallResult : Type 0 where
  pub is_ok : Bool
  pub ens : String
  pub skill : String
  pub output : Value
  pub error : Option String
  pub trace : List TraceEvent
  pub response_sig : Value
  pub responder : Value
  pub total_ms : ℤ
  pub rep_head : Option String
  pub tee_attestation : Option (String × Bool)

pub data StreamEventOut : Type 0 where
  traced : TraceEvent → StreamEventOut
  chunked : ℕ → String → StreamEventOut
  finished : CallResult → StreamEventOut

pub record Opts : Type 0 where
  pub ens : String
  pub skill : String
  pub input : Value
  pub tee : Bool

-- What differs: the call, with the chunks that it passes on; the detail of a wrong key; and whether a
-- missing attestation is an event.
pub record Variant : Type 0 where
  pub call : CallSkillArgs → List (ℕ × String) × Result Json
  pub wrong_key : String
  pub notes_missing : Bool

-- What the process reads.
pub record Readings : Type 0 where
  pub ms : ℕ → ℤ
  pub total_ms : ℤ
  pub caller_pubkey : String
  pub latency_ms : ℤ
  pub last_tee_attestation : Option (String × Bool)
  pub rep_before : Option String
  pub rep_after : Option String

-- The trace, and the events that were yielded, in their order.
pub record Log : Type 0 where
  pub trace : List TraceEvent
  pub events : List StreamEventOut

abbrev pub is_set : Option String → Bool
is_set none = false
is_set (some t) = is_filled t

-- `verifyError !== null && /mismatch/i.test(verifyError)`
abbrev pub is_hard_fail : Option String → Bool
is_hard_fail none = false
is_hard_fail (some e) = includes "mismatch" (to_lower e)

abbrev pub or_matched : Option String → Json
or_matched none = str "axl pubkey matched record"
or_matched (some e) = str e

abbrev pub text_value : Option String → Json
text_value none = null
text_value (some t) = str t

abbrev pub ids_of : Items → Items
ids_of nil = nil
ids_of (cons s ss) = elim (prop "id" s) [
  | some id ↦ cons id (ids_of ss)
  | none ↦ cons null (ids_of ss)
]

abbrev pub ids_in : Value → Items
ids_in (some (arr xs)) = ids_of xs
ids_in _ = nil

abbrev pub chunk_events : List (ℕ × String) → List StreamEventOut
chunk_events [] = []
chunk_events ((seq, text) ∷ cs) = chunked seq text ∷ chunk_events cs

abbrev pub detail_of : List (String × Value) → Value
detail_of fs = some (object fs)
