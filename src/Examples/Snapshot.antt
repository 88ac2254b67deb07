-- ===== src/Examples/Snapshot.antt =====
-- Two snapshots of an agent, and one under a key that is none.
use agentdir_open_agents.Base.{ℕ, ◌≡◌, refl, String, none, some, List, [], ◌∷◌, take}
use agentdir_open_agents.Signed.{sign_digest}
use agentdir_open_agents.Js.Text.{is_hex_of, strip_hex}
use agentdir_open_agents.Js.Value.{Json, obj, end}
use agentdir_open_agents.Js.Result.{ok, throw}
use agentdir_open_agents.Sdk.Links.{new_chain, stored}
use agentdir_open_agents.Sdk.Links.Walk.{append_all}
use agentdir_open_agents.Sdk.Snapshot.{
  SnapshotInput, SnapshotChain, pubkey_message, append_snapshot, append_snapshot_inner,
  walk_snapshots,
}
use agentdir_open_agents.Sdk.Snapshot.Log.{
  rotation, walk_snapshots-append_all, append_snapshot_blocked,
}
use agentdir_open_agents.Examples.Toys.{toy_crypto, toy_storage, toy_storage-IsFaithful}

abbrev signer : String → String
signer = sign_digest toy_crypto "b0b"

abbrev state : String → SnapshotInput
state key = record {
  ens_name = "bob.agentdir.eth";
  signer_pubkey = key;
  inft_token_id = "7";
  calls_total = 3;
  ok_total = 2;
  skill_stats = obj end;
  rep_head = some "r";
}

abbrev key : String
key = "0x00112233445566778899aabbccddeeff00112233445566778899aabbccddeeff"

abbrev rotations : List (ℕ × SnapshotInput)
rotations = (1000, state key) ∷ (2000, state key) ∷ []

abbrev rotated : SnapshotChain × List Json × List Json
rotated =
    append_all toy_storage (rotation toy_crypto toy_storage signer) rotations (new_chain none) [] []

second_root : rotated.0.head ≡ some "rr"
unfolding append_all append_snapshot append_snapshot_inner stored is_hex_of strip_hex
second_root = refl

walk_snapshots-append_all_example :
    walk_snapshots toy_crypto toy_storage "rr" 5 none rotated.1 ≡ ok (take 5 rotated.2)
walk_snapshots-append_all_example =
    walk_snapshots-append_all toy_crypto toy_storage signer toy_storage-IsFaithful rotations [] "rr"
      5 second_root

append_snapshot_blocked_example :
    let c' =
      (append_snapshot toy_crypto toy_storage 1000 (state "b0b") signer (new_chain none) []).1 in
    append_snapshot toy_crypto toy_storage 2000 (state key) signer c' []
    ≡ (throw (pubkey_message "SnapshotChain.append" "b0b"), c', [])
unfolding is_hex_of strip_hex
append_snapshot_blocked_example =
    append_snapshot_blocked toy_crypto toy_storage signer 1000 2000 (state "b0b") (state key)
      (new_chain none) [] [] refl refl
