-- ===== src/Sdk/Rep/Chain.antt =====
-- What `append` of packages/sdk/src/rep.ts stores, `walk` reads back.
use agentdir_open_agents.Base.{ℕ, ◌≡◌, refl, Option, none, some, List, [], String, take}
use agentdir_open_agents.Crypto.{Crypto}
use agentdir_open_agents.Js.Value.{Json, prop, fields_of}
use agentdir_open_agents.Js.Result.{ok, read, head_json}
use agentdir_open_agents.Sdk.Storage.{Storage, IsFaithful}
use agentdir_open_agents.Sdk.Links.{Done, new_chain}
use agentdir_open_agents.Sdk.Links.Walk.{
  Linked, Grown, stored-Grown, after-Grown, append_all, walk_from-append_all,
}
use agentdir_open_agents.Sdk.Rep.{RepChain, AppendInput, append_inner, append, signed_att, walk}

-- A new attestation links to the head that it was made at.
link :
    (C : Crypto) (S : Storage) (now : ℕ) (i : AppendInput) (signer : String → String)
    (head : Option String)
    → read "prevRoot" (some (signed_att C S now i signer head)) ≡ ok (some (head_json head))
unfolding signed_att read fields_of prop
link C S now i signer head = refl

module _ (C : Crypto) (S : Storage) (signer : String → String) where
  -- A call of `append`: its time and its input.
  abbrev pub call : ℕ × AppendInput → RepChain → S.Store → Done S
  call (now, i) = append C S now i signer

  module _ (faithful : IsFaithful S) where
    call-Grown :
        (i : ℕ × AppendInput) (c : RepChain) (s : S.Store) (atts : List Json)
        → Linked S "prevRoot" s c.head atts
        → let (done, c', s') = call i c s in Grown S "prevRoot" faithful done c c' s' atts
    unfolding append append_inner
    call-Grown (now, i) c s atts h = after-Grown S "prevRoot" faithful c.lock _ c s atts h (
        stored-Grown S "prevRoot" faithful (signed_att C S now i signer c.head) c s atts _ refl
          (link C S now i signer c.head) h)

    -- After any calls of `append` on a new chain, some of which may throw, a walk from the head
    -- returns the attestations that the calls returned, newest first, up to the limit.
    pub walk-append_all :
        (calls : List (ℕ × AppendInput)) (s : S.Store) (root : String) (limit : ℕ)
        → let (c', s', atts) = append_all S call calls (new_chain none) s [] in
          c'.head ≡ some root → walk C S root limit none s' ≡ ok (take limit atts)
    unfolding walk
    walk-append_all calls s root limit =
        walk_from-append_all S call "prevRoot" faithful call-Grown calls s root limit
