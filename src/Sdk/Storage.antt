-- ===== src/Sdk/Storage.antt =====
-- 0G Storage as packages/sdk/src uses it: a value goes in and its root comes back, or the call
-- throws; a root is read back. The service itself is a parameter.
use agentdir_open_agents.Base.{String, true, ◌≡◌}
use agentdir_open_agents.Js.Value.{Json}
use agentdir_open_agents.Js.Text.{is_filled}
use agentdir_open_agents.Js.Result.{Result, ok}

pub record Storage : Type 1 where
  pub Store : Type 0
  pub put_json : Json → Store → Result String × Store
  pub get_json : String → Store → Result Json

-- What the service promises: an upload is found under its root, which is no empty text, and what
-- was stored before stays.
pub record IsFaithful (S : Storage) : Type 0 where
  pub stored :
      (v : Json) (s : S.Store) (root : String)
      → (S.put_json v s).0 ≡ ok root
      → (S.get_json root (S.put_json v s).1 ≡ ok v) × (is_filled root ≡ true)
  pub kept :
      (v w : Json) (s : S.Store) (root : String)
      → S.get_json root s ≡ ok w
      → S.get_json root (S.put_json v s).1 ≡ ok w
