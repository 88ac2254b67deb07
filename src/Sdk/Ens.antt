-- ===== src/Sdk/Ens.antt =====
-- packages/sdk/src/ens.ts: the records of a name. The ENS client of viem is a parameter; its calls
-- may throw. Where several records are read at once, the first failure in the order of the keys is
-- the one that is thrown.
pub mod Identity
use Prim.Native.String.{◌++◌}
use agentdir_open_agents.Base.{
  ℕ, String, Bool, true, false, not, Option, none, some, List, [], ◌∷◌, ◌==◌, if◌then◌else◌,
}
use agentdir_open_agents.Js.Map
use agentdir_open_agents.Js.Map.{Map}
use agentdir_open_agents.Js.Text.{to_lower, is_filled}
use agentdir_open_agents.Js.Value.{Json, Value, prop, prop?}
use agentdir_open_agents.Js.Result.{Result, ok, throw, ◌>>=◌, lower_of, reject_if}
use agentdir_open_agents.Sdk.Cards.{parse_agent_card}

-- The client: `normalize`, `getEnsAddress` with and without a coin type, `getEnsName`, `getEnsText`
-- and `toCoinType`.
pub record EnsClient : Type 0 where
  pub normalize : String → Result String
  pub ens_address : String → Option ℕ → Result (Option String)
  pub ens_name : String → Result (Option String)
  pub ens_text : String → String → Result (Option String)
  pub coin_type : ℕ → ℕ

abbrev pub record_keys : List String
record_keys =
    "org.a2a.agent-card" ∷ "network.axl.pubkey" ∷ "network.axl.bootstrap" ∷ "org.erc7857.tokenId"
    ∷ "org.erc7857.contract" ∷ "network.agentdir.rep-head" ∷ "pay.x402.uri" ∷ []

-- A text that is not empty.
abbrev pub filled : Option String → Option String
filled none = none
filled (some t) = if is_filled t then some t else none

module _ (client : EnsClient) where
  unfoldable pub get_address : String → Result (Option String)
  get_address name = client.normalize name >>= λ n. client.ens_address n none

  unfoldable pub get_address_for_chain : String → ℕ → Result (Option String)
  get_address_for_chain name chain =
      client.normalize name >>= λ n. client.ens_address n (some (client.coin_type chain))

  unfoldable pub get_primary_name : String → Result (Option String)
  get_primary_name address = client.ens_name address

  unfoldable pub get_text : String → String → Result (Option String)
  get_text name key = client.normalize name >>= λ n. client.ens_text n key

  abbrev pub with_record : String → Option String → Map String → Map String
  with_record k none out = out
  with_record k (some v) out = (k, v) ∷ out

  unfoldable pub records : String → List String → Result (Map String)
  unfolding get_text
  records name [] = ok []
  records name (k ∷ ks) = do
    v ← get_text name k
    out ← records name ks
    ok (with_record k (filled v) out)

  unfoldable pub get_record_bundle : String → Result (Map String)
  unfolding records
  get_record_bundle name = records name record_keys

module _ (client : EnsClient) (stringify : Json → String) (parse : String → Option Json) where
  abbrev pub card_of : String → Option String → Result Json
  card_of name none = throw ("no org.a2a.agent-card on " ++ name)
  card_of name (some json) = parse_agent_card stringify parse json

  unfoldable pub get_agent_card : String → Result Json
  unfolding get_text
  get_agent_card name =
      get_text client name "org.a2a.agent-card" >>= λ json. card_of name (filled json)

  -- `if (addr) { … }`: a name without an address is not looked up in reverse. The two names are
  -- compared by `to_lower`, which folds ASCII letters only.
  unfoldable pub reverse_fault : String → Option String → Result Bool
  unfolding get_primary_name
  reverse_fault name none = ok false
  reverse_fault name (some addr) = get_primary_name client addr >>= λ reverse.
      ok (not (elim reverse [ none ↦ false | some r ↦ to_lower r == to_lower name ]))

  abbrev pub is_pubkey : Option String → String → Bool
  is_pubkey none expected = false
  is_pubkey (some pubkey) expected = to_lower pubkey == to_lower expected

  -- `card.identity.axlPubkey.toLowerCase()`
  abbrev pub card_key : Json → Result String
  card_key card = lower_of (prop? "axlPubkey" (prop "identity" card))

  -- The `try` block of the card and its handler.
  abbrev pub card_verdict : String → Result String → Result (Option String)
  card_verdict pubkey (ok key) =
      reject_if (not (key == to_lower pubkey)) "agent-card pubkey mismatch" (ok none)
  card_verdict pubkey (throw e) = ok (some ("agent-card unreadable: " ++ e))

  abbrev pub text_or_empty : Option String → String
  text_or_empty none = ""
  text_or_empty (some t) = t

  unfoldable pub verify_identity : String → String → Result (Option String)
  unfolding get_address get_text get_agent_card reverse_fault
  verify_identity name expected = do
    addr ← get_address client name
    reversed ← reverse_fault name (filled addr)
    if reversed then ok (some "reverse mismatch") else do
      pubkey ← get_text client name "network.axl.pubkey"
      reject_if (not (is_pubkey (filled pubkey) expected)) "axl.pubkey mismatch"
          (card_verdict (text_or_empty pubkey) (get_agent_card name >>= card_key))
