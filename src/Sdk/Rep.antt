-- ===== src/Sdk/Rep.antt =====
-- packages/sdk/src/rep.ts: the chain of attestations of an agent, and its scores. Of the arguments
-- that are optional in the source, `none` is an argument left out.
pub mod Chain
pub mod Scores
pub mod Lock
use agentdir_open_agents.Base.{
  ℕ, zero, suc, ◌/◌, min, String, Bool, true, false, Option, none, some, List, [], ◌∷◌, eqb, not,
  if◌then◌else◌, length, take, ◌==◌, ◌&&◌,
}
use agentdir_open_agents.Base.Int.{ℤ, pos}
use agentdir_open_agents.Crypto.{Crypto}
use agentdir_open_agents.Signed.{digest_of, verify_signed}
use agentdir_open_agents.Js.Text.{is_filled}
use agentdir_open_agents.Js.Value.{
  Json, str, num, bool, Value, prop, truthy, is_text_eq, object, fields_of,
}
use agentdir_open_agents.Js.Result.{Result, ok, throw, ◌>>=◌, read, type_error, head_json}
use agentdir_open_agents.Js.Ratio.{Ratio, ratio, ◌*ᵣ◌}
use agentdir_open_agents.Sdk.Storage.{Storage}
use agentdir_open_agents.Sdk.Links.{StoreChain, Done, stored, after, walk_from}

pub record AppendInput : Type 0 where
  pub caller_inft : Json
  pub callee_inft : String
  pub skill : String
  pub ok : Bool
  pub latency_ms : ℤ
  pub tee_attestation : Value

-- A tail is added to a literal with `...`.
abbrev when_truthy : Value → List (String × Value) → List (String × Value)
when_truthy v tail = if truthy v then ("teeAttestation", v) ∷ tail else tail

abbrev pub att_fields :
    ℕ → AppendInput → Option String → List (String × Value) → List (String × Value)
att_fields now i prev tail =
    ("v", some (num (pos 1)))
    ∷ ("callerINFT", some i.caller_inft)
    ∷ ("calleeINFT", some (str i.callee_inft))
    ∷ ("skill", some (str i.skill))
    ∷ ("ok", some (bool i.ok))
    ∷ ("latencyMs", some (num i.latency_ms))
    ∷ ("ts", some (num (pos (now / 1000))))
    ∷ ("prevRoot", some (head_json prev))
    ∷ when_truthy i.tee_attestation tail

module _ (C : Crypto) where
  unfoldable pub digest : Json → String
  digest att = digest_of C att

  unfoldable pub verify : Json → String → Bool
  verify att pubkey = verify_signed C att pubkey

abbrev pub RepChain : Type 0
RepChain = StoreChain

module _ (C : Crypto) (S : Storage) where
  -- The attestation that is stored: its base, signed.
  unfoldable pub signed_att : ℕ → AppendInput → (String → String) → Option String → Json
  unfolding digest
  signed_att now i signer head = object (
      att_fields now i head
        (("sig", some (str (signer (digest C (object (att_fields now i head [])))))) ∷ []))

  unfoldable pub append_inner : ℕ → AppendInput → (String → String) → RepChain → S.Store → Done S
  unfolding stored signed_att
  append_inner now i signer c s =
      let att = signed_att now i signer c.head in stored S att c (S.put_json att s)

  unfoldable pub append : ℕ → AppendInput → (String → String) → RepChain → S.Store → Done S
  unfolding append_inner
  append now i signer c s = after S c.lock (append_inner now i signer c s) c s

  abbrev pub rejects : Option String → Json → Bool
  rejects none att = false
  rejects (some key) att = if is_filled key then not (verify C att key) else false

  unfoldable pub walk : String → ℕ → Option String → S.Store → Result (List Json)
  walk head limit key s = walk_from S "prevRoot" (rejects key) limit (some (str head)) s

abbrev pub filter : (Json → Bool) → List Json → List Json
filter p [] = []
filter p (a ∷ atts) = if p a then a ∷ filter p atts else filter p atts

abbrev pub is_ok : Json → Bool
is_ok a = truthy (prop "ok" a)

abbrev is_about : String → Json → Bool
is_about target a = is_text_eq target (prop "calleeINFT" a)

abbrev is_skill : Option String → Json → Bool
is_skill none a = true
is_skill (some s) a = if is_filled s then is_text_eq s (prop "skill" a) else true

pub record Score : Type 0 where
  pub n : ℕ
  pub ok : ℕ
  pub ratio : Ratio

-- `n === 0 ? 0 : ok / n`
abbrev pub success : ℕ → ℕ → Ratio
success passed zero = ratio 0 1
success passed (suc n) = ratio passed (suc n)

abbrev pub score_of : List Json → Score
score_of filtered =
    let passed = length (filter is_ok filtered) in
    let n = length filtered in record { n = n; ok = passed; ratio = success passed n }

unfoldable pub score : List Json → String → Score
score attestations target = score_of (filter (is_about target) attestations)

pub record RankedScore : Type 0 where
  pub n : ℕ
  pub ok : ℕ
  pub ratio : Ratio
  pub score : Ratio

abbrev pub lookback_of : Option ℕ → ℕ
lookback_of none = 50
lookback_of (some lookback) = lookback

abbrev pub ranked_of : ℕ → List Json → RankedScore
ranked_of lookback filtered =
    let passed = length (filter is_ok filtered) in
    let n = length filtered in
    let confidence = ratio (min n lookback) lookback in
    record { n = n; ok = passed; ratio = success passed n; score = success passed n *ᵣ confidence }

abbrev pub window : List Json → String → Option String → ℕ → List Json
window attestations target skill lookback =
    take lookback (filter (is_skill skill) (filter (is_about target) attestations))

unfoldable pub score_for : List Json → String → Option String → Option ℕ → RankedScore
score_for attestations target skill lookback =
    ranked_of (lookback_of lookback) (window attestations target skill (lookback_of lookback))
