-- ===== src/Sdk/Links.antt =====
-- What `RepChain` of packages/sdk/src/rep.ts and `SnapshotChain` of packages/sdk/src/snapshot.ts
-- share: a head, the promise that serialises the calls of `append`, and the walk from a root along the
-- property that links each value to the one before it.
pub mod Walk
use agentdir_open_agents.Base.{
  ℕ, zero, suc, String, Bool, true, false, Option, none, some, List, [], ◌∷◌, if◌then◌else◌,
}
use agentdir_open_agents.Js.Value.{Json, str, Value, truthy}
use agentdir_open_agents.Js.Result.{Result, ok, throw, ◌>>=◌, read, type_error}
use agentdir_open_agents.Sdk.Storage.{Storage}

-- Calls of `append` run one after another, each in a `then` of the promise of the last one: once a
-- call has thrown, that promise is rejected, and so is each one chained to it.
pub record StoreChain : Type 0 where
  pub head : Option String
  pub lock : Option String

abbrev pub new_chain : Option String → StoreChain
new_chain head = record { head = head; lock = none }

module _ (S : Storage) where
  -- What a call returns, and the chain and the store after it.
  abbrev pub Done : Type 0
  Done = Result (String × Json) × StoreChain × S.Store

  unfoldable pub stored : Json → StoreChain → Result String × S.Store → Done
  stored v c (ok root, s) = (ok (root, v), record c { head = some root }, s)
  stored v c (throw e, s) = (throw e, record c { lock = some e }, s)

  -- `this._lock.then(…)`
  abbrev pub after : Option String → Done → StoreChain → S.Store → Done
  after none run c s = run
  after (some e) run c s = (throw e, c, s)

  -- A root that is no text finds nothing.
  unfoldable pub get_at : Value → S.Store → Result Json
  get_at (some (str root)) s = S.get_json root s
  get_at _ s = throw type_error

  module _ (link : String) (rejects : Json → Bool) where
    -- The loop of `walk`; its rounds left are what `limit` allows.
    unfoldable pub walk_from : ℕ → Value → S.Store → Result (List Json)
    unfolding get_at
    walk_from zero cur s = ok []
    walk_from (suc left) cur s =
        if truthy cur
        then (do
          v ← get_at cur s
          if rejects v
              then ok []
              else do next ← read link (some v); rest ← walk_from left next s; ok (v ∷ rest))
        else ok []
