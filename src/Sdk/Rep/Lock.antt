-- ===== src/Sdk/Rep/Lock.antt =====
-- The promise on which `append` of packages/sdk/src/rep.ts waits.
use agentdir_open_agents.Base.{ℕ, ◌≡◌, String, some, none}
use agentdir_open_agents.Crypto.{Crypto}
use agentdir_open_agents.Js.Result.{throw}
use agentdir_open_agents.Sdk.Storage.{Storage}
use agentdir_open_agents.Sdk.Links.{stored}
use agentdir_open_agents.Sdk.Rep.{RepChain, AppendInput, append, append_inner, signed_att}

module _ (C : Crypto) (S : Storage) (signer : String → String) where
  blocked :
      (now : ℕ) (i : AppendInput) (c : RepChain) (s : S.Store) {e : String}
      → c.lock ≡ some e
      → append C S now i signer c s ≡ (throw e, c, s)
  unfolding append
  blocked now i c s held = rw held

  locked :
      (now : ℕ) (i : AppendInput) (c : RepChain) (s : S.Store) {e : String}
      → c.lock ≡ none
      → (S.put_json (signed_att C S now i signer c.head) s).0 ≡ throw e
      → (append C S now i signer c s).1.lock ≡ some e
  unfolding append append_inner stored
  locked now i c s free failed = rw (free, failed)

  -- Once the storage has failed a call of `append`, every later call throws the same message and
  -- changes neither the chain nor the store, whether or not the storage works again.
  pub append_blocked_after_failure :
      (now later : ℕ) (i j : AppendInput) (c : RepChain) (s s' : S.Store) (e : String)
      → c.lock ≡ none
      → (S.put_json (signed_att C S now i signer c.head) s).0 ≡ throw e
      → let c' = (append C S now i signer c s).1 in
        append C S later j signer c' s' ≡ (throw e, c', s')
  append_blocked_after_failure now later i j c s s' e free failed =
      blocked later j _ s' (locked now i c s free failed)
