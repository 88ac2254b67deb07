-- ===== src/Sdk/Snapshot.antt =====
-- packages/sdk/src/snapshot.ts: the chain of an agent's snapshots. `skillStats` is the value that the
-- snapshot stores. Of the arguments that are optional in the source, `none` is an argument left out.
pub mod Log
use Prim.Native.String.{◌++◌}
use agentdir_open_agents.Base.{
  ℕ, ◌/◌, String, Bool, true, false, not, Option, none, some, List, [], ◌∷◌, if◌then◌else◌,
}
use agentdir_open_agents.Base.Int.{pos}
use agentdir_open_agents.Crypto.{Crypto}
use agentdir_open_agents.Signed.{digest_of, verify_signed}
use agentdir_open_agents.Js.Text.{is_filled, is_hex_of, strip_hex}
use agentdir_open_agents.Js.Value.{Json, str, num, Value, object}
use agentdir_open_agents.Js.Result.{Result, throw, head_json}
use agentdir_open_agents.Sdk.Storage.{Storage}
use agentdir_open_agents.Sdk.Links.{StoreChain, Done, stored, after, walk_from}

pub record SnapshotInput : Type 0 where
  pub ens_name : String
  pub signer_pubkey : String
  pub inft_token_id : String
  pub calls_total : ℕ
  pub ok_total : ℕ
  pub skill_stats : Json
  pub rep_head : Option String

-- /^(0x)?[0-9a-fA-F]{64}$/ : a key of 64 digits starts with no `0x`.
abbrev pub is_pubkey : String → Bool
is_pubkey t = is_hex_of 64 (strip_hex t)

abbrev pub pubkey_message : String → String → String
pubkey_message ctx pubkey =
    ctx ++ (": signerPubkey must be 32-byte hex (64 chars, optional 0x); got '" ++ (pubkey ++ "'"))

abbrev pub snapshot_fields :
    ℕ → SnapshotInput → Option String → List (String × Value) → List (String × Value)
snapshot_fields now i prev tail =
    ("v", some (num (pos 1)))
    ∷ ("ensName", some (str i.ens_name))
    ∷ ("signerPubkey", some (str i.signer_pubkey))
    ∷ ("inftTokenId", some (str i.inft_token_id))
    ∷ ("ts", some (num (pos (now / 1000))))
    ∷ ("callsTotal", some (num (pos i.calls_total)))
    ∷ ("okTotal", some (num (pos i.ok_total)))
    ∷ ("skillStats", some i.skill_stats)
    ∷ ("repHead", some (head_json i.rep_head))
    ∷ ("prevSnapshotRoot", some (head_json prev))
    ∷ tail

module _ (C : Crypto) where
  unfoldable pub snapshot_digest : Json → String
  snapshot_digest snap = digest_of C snap

  unfoldable pub verify_snapshot : Json → String → Bool
  verify_snapshot snap pubkey = verify_signed C snap pubkey

abbrev pub SnapshotChain : Type 0
SnapshotChain = StoreChain

module _ (C : Crypto) (S : Storage) where
  unfoldable pub signed_snapshot : ℕ → SnapshotInput → (String → String) → Option String → Json
  unfolding snapshot_digest
  signed_snapshot now i signer head = object (
      snapshot_fields now i head (
        ("sig", some (str (signer (snapshot_digest C (object (snapshot_fields now i head []))))))
        ∷ []))

  -- A key that is none makes the call throw, and so each later call.
  unfoldable pub append_snapshot_inner :
      ℕ → SnapshotInput → (String → String) → SnapshotChain → S.Store → Done S
  unfolding stored signed_snapshot
  append_snapshot_inner now i signer c s =
      let e = pubkey_message "SnapshotChain.append" i.signer_pubkey in
      let snap = signed_snapshot now i signer c.head in
      if not (is_pubkey i.signer_pubkey)
      then (throw e, record c { lock = some e }, s)
      else stored S snap c (S.put_json snap s)

  unfoldable pub append_snapshot :
      ℕ → SnapshotInput → (String → String) → SnapshotChain → S.Store → Done S
  unfolding append_snapshot_inner
  append_snapshot now i signer c s = after S c.lock (append_snapshot_inner now i signer c s) c s

  -- `verifyKey && !(await SnapshotChain.verify(s, verifyKey))`
  abbrev pub refuses : Option String → Json → Bool
  refuses none snap = false
  refuses (some key) snap = if is_filled key then not (verify_snapshot C snap key) else false

  unfoldable pub walk_snapshots : String → ℕ → Option String → S.Store → Result (List Json)
  walk_snapshots head limit key s =
      walk_from S "prevSnapshotRoot" (refuses key) limit (some (str head)) s
