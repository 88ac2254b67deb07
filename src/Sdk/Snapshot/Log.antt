-- ===== src/Sdk/Snapshot/Log.antt =====
-- What `append` of packages/sdk/src/snapshot.ts stores, `walk` reads back.
use agentdir_open_agents.Base.{
  ℕ, ◌≡◌, refl, String, false, Bool-cases, inl, inr, Option, none, some, List, [], take,
}
use agentdir_open_agents.Crypto.{Crypto}
use agentdir_open_agents.Js.Value.{Json, prop, fields_of}
use agentdir_open_agents.Js.Result.{ok, throw, read, head_json}
use agentdir_open_agents.Sdk.Storage.{Storage, IsFaithful}
use agentdir_open_agents.Sdk.Links.{Done, new_chain}
use agentdir_open_agents.Sdk.Links.Walk.{
  Linked, Grown, stored-Grown, after-Grown, append_all, walk_from-append_all,
}
use agentdir_open_agents.Sdk.Snapshot.{
  SnapshotChain, SnapshotInput, is_pubkey, pubkey_message, append_snapshot_inner, append_snapshot,
  signed_snapshot, walk_snapshots,
}

link :
    (C : Crypto) (S : Storage) (now : ℕ) (i : SnapshotInput) (signer : String → String)
    (head : Option String)
    → read "prevSnapshotRoot" (some (signed_snapshot C S now i signer head))
      ≡ ok (some (head_json head))
unfolding signed_snapshot read fields_of prop
link C S now i signer head = refl

module _ (C : Crypto) (S : Storage) (signer : String → String) where
  abbrev pub rotation : ℕ × SnapshotInput → SnapshotChain → S.Store → Done S
  rotation (now, i) = append_snapshot C S now i signer

  module _ (faithful : IsFaithful S) where
    inner-Grown :
        (now : ℕ) (i : SnapshotInput) (c : SnapshotChain) (s : S.Store) (atts : List Json)
        → Linked S "prevSnapshotRoot" s c.head atts
        → let (done, c', s') = append_snapshot_inner C S now i signer c s in
          Grown S "prevSnapshotRoot" faithful done c c' s' atts
    unfolding append_snapshot_inner
    inner-Grown now i c s atts h = elim (Bool-cases (is_pubkey i.signer_pubkey)) [
      | inr bad ↦ rw bad (refl, h)
      | inl good ↦
          let snap = signed_snapshot C S now i signer c.head in
          rw good (
            stored-Grown S "prevSnapshotRoot" faithful snap c s atts _ refl
              (link C S now i signer c.head) h)
    ]

    rotation-Grown :
        (i : ℕ × SnapshotInput) (c : SnapshotChain) (s : S.Store) (atts : List Json)
        → Linked S "prevSnapshotRoot" s c.head atts
        → let (done, c', s') = rotation i c s in
          Grown S "prevSnapshotRoot" faithful done c c' s' atts
    unfolding append_snapshot
    rotation-Grown (now, i) c s atts h =
        after-Grown S "prevSnapshotRoot" faithful c.lock _ c s atts h (inner-Grown now i c s atts h)

    -- After any calls of `append` on a new chain of snapshots, some of which may throw, a walk from the
    -- head returns the snapshots that the calls returned, newest first, up to the limit.
    pub walk_snapshots-append_all :
        (calls : List (ℕ × SnapshotInput)) (s : S.Store) (root : String) (limit : ℕ)
        → let (c', s', snaps) = append_all S rotation calls (new_chain none) s [] in
          c'.head ≡ some root → walk_snapshots C S root limit none s' ≡ ok (take limit snaps)
    unfolding walk_snapshots
    walk_snapshots-append_all calls s root limit =
        walk_from-append_all S rotation "prevSnapshotRoot" faithful rotation-Grown calls s root
          limit

  blocked :
      (now : ℕ) (i : SnapshotInput) (c : SnapshotChain) (s : S.Store) {e : String}
      → c.lock ≡ some e
      → append_snapshot C S now i signer c s ≡ (throw e, c, s)
  unfolding append_snapshot
  blocked now i c s held = rw held

  locked :
      (now : ℕ) (i : SnapshotInput) (c : SnapshotChain) (s : S.Store)
      → c.lock ≡ none
      → is_pubkey i.signer_pubkey ≡ false
      → (append_snapshot C S now i signer c s).1.lock
        ≡ some (pubkey_message "SnapshotChain.append" i.signer_pubkey)
  unfolding append_snapshot append_snapshot_inner
  locked now i c s free bad = rw (free, bad)

  -- Once a call of `append` has been given a key that is none, every later call throws the same message
  -- and changes neither the chain nor the store, whatever key it is given.
  pub append_snapshot_blocked :
      (now later : ℕ) (i j : SnapshotInput) (c : SnapshotChain) (s s' : S.Store)
      → c.lock ≡ none
      → is_pubkey i.signer_pubkey ≡ false
      → let c' = (append_snapshot C S now i signer c s).1 in
        append_snapshot C S later j signer c' s'
        ≡ (throw (pubkey_message "SnapshotChain.append" i.signer_pubkey), c', s')
  append_snapshot_blocked now later i j c s s' free bad =
      blocked later j _ s' (locked now i c s free bad)
