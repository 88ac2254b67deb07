-- ===== src/Agent/Runtime.antt =====
-- packages/agent/src/agent.ts: an agent that answers skill requests. The calls of `Date.now()` are
-- fields of `Times`, one for each place of the source; a message is handled to its end before the
-- next one is received.
pub mod Admit
pub mod Handle
pub mod Replay
pub mod Gate
pub mod Frame
pub mod Nonces
pub mod Stats
pub mod Replies
use agentdir_open_agents.Base.{ℕ, String, Bool, Option, none, some, List}
use agentdir_open_agents.Js.Map.{Map}
use agentdir_open_agents.Js.Value.{Json, Value}
use agentdir_open_agents.Js.Result.{Result}
use agentdir_open_agents.Sdk.Storage.{Storage}
use agentdir_open_agents.Sdk.Rep.{RepChain}

-- packages/agent/src/identity.ts, as far as the runtime reads it.
pub record AgentIdentity : Type 0 where
  pub ens_name : String
  pub axl_private_key_hex : String
  pub axl_pubkey_hex : String
  pub inft_token_id : Option String

-- The part of a JSON schema that `validateInput` reads.
pub record PropSchema : Type 0 where
  pub is_string : Bool
  pub max_length : Option ℕ

pub record InputSchema : Type 0 where
  pub required : List String
  pub properties : Option (List (String × PropSchema))

-- A stream yields texts and then returns or throws.
pub record Stream : Type 0 where
  pub yielded : List String
  pub returned : Result Value

pub record RegisteredSkill : Type 0 where
  pub id : String
  pub input_schema : InputSchema
  -- `def.pricing?.x402?.amount`
  pub price : Option String
  pub handler : Value → Result Value
  pub stream_handler : Option (Value → Stream)

pub record PaymentConfig : Type 0 where
  pub recipient : String
  pub token_address : String
  pub network : String
  pub max_age_ms : Option ℕ

pub record AgentOpts : Type 0 where
  pub identity : AgentIdentity
  pub skills : Map RegisteredSkill
  pub require_payment : Bool
  pub max_request_age_ms : Option ℕ
  pub nonce_cache_size : Option ℕ
  pub snapshot_every : Option ℕ
  pub payment_expectations : Option PaymentConfig
  pub has_rep : Bool
  -- `compute.lastTeeAttestation ?? undefined`
  pub tee_attestation : Value

pub record SkillStat : Type 0 where
  pub calls : ℕ
  pub ok : ℕ
  pub err_last_ts : Option ℕ

pub record Times : Type 0 where
  pub started : ℕ
  pub checked : ℕ
  pub noted : ℕ
  pub receipt : ℕ
  pub chunk : ℕ → ℕ
  pub replied : ℕ
  pub measured : ℕ
  pub attested : ℕ
  pub failed : ℕ

abbrev pub or_else : Option ℕ → ℕ → ℕ
or_else none d = d
or_else (some n) d = n

module _ (S : Storage) where
  pub record Agent : Type 0 where
    pub seen_nonces : Map ℕ
    pub calls_total : ℕ
    pub ok_total : ℕ
    pub skill_stats : Map SkillStat
    pub snapshot_in_flight : Bool
    pub rep : RepChain
    pub store : S.Store
    -- What `axl.sendJson` has sent.
    pub sent : List (String × Json)
