-- ===== src/Web/Identity/Store.antt =====
-- Frontend/lib/identity-store.ts: the collection `identities`, with its unique indexes from
-- Frontend/lib/db.ts, and the cache of the module.
use agentdir_open_agents.Base.{
  ℕ, String, Bool, true, false, ◌&&◌, ◌||◌, Option, none, some, List, [], ◌∷◌, ◌++◌, ◌==◌,
  if◌then◌else◌,
}
use Prim.Native.String.{◌++◌ as append}
use agentdir_open_agents.Js.Map
use agentdir_open_agents.Js.Map.{Map}
use agentdir_open_agents.Js.Text.{to_lower, is_filled}
use agentdir_open_agents.Js.Result.{Result, ok, throw}
use agentdir_open_agents.Web.Identity.{Bytes, Env, SealedBlob, Cipher, seal, open_blob}

pub record AgentIdentity : Type 0 where
  pub handle : String
  pub ens_name : String
  pub axl_private_key_hex : String
  pub axl_pubkey_hex : String
  pub inft_contract : Option String
  pub inft_token_id : Option String

-- `status` is "active" or "disabled".
pub record IdentityDoc : Type 0 where
  pub handle : String
  pub ens : String
  pub owner_address : String
  pub axl_pubkey_hex : String
  pub encrypted_privkey : SealedBlob
  pub inft_contract : Option String
  pub inft_token_id : Option String
  pub created_at : ℕ
  pub last_booted_at : Option ℕ
  pub is_active : Bool

pub record World : Type 0 where
  pub identities : List IdentityDoc
  pub cache : Map AgentIdentity

-- `if (handle)`: an empty handle clears the cache.
unfoldable pub evict_cache : Option String → World → World
evict_cache none w = record w { cache = [] }
evict_cache (some handle) w = record w {
  cache = if is_filled handle then Map.delete handle w.cache else [];
}

-- `findOne({ handle, status: "active" })`
unfoldable pub find_active : String → List IdentityDoc → Option IdentityDoc
find_active handle [] = none
find_active handle (d ∷ ds) =
    if d.handle == handle && d.is_active then some d else find_active handle ds

-- A field that is set only where the text is not empty.
abbrev pub filled : Option String → Option String
filled none = none
filled (some t) = if is_filled t then some t else none

abbrev pub identity_with : IdentityDoc → String → AgentIdentity
identity_with doc priv_hex = record {
  handle = doc.handle;
  ens_name = doc.ens;
  axl_private_key_hex = priv_hex;
  axl_pubkey_hex = doc.axl_pubkey_hex;
  inft_contract = filled doc.inft_contract;
  inft_token_id = filled doc.inft_token_id;
}

pub record SaveIdentityInput : Type 0 where
  pub handle : String
  pub ens : String
  pub owner_address : String
  pub axl_private_key_hex : String
  pub axl_pubkey_hex : String
  pub inft_contract : Option String
  pub inft_token_id : Option String

abbrev pub doc_of : SaveIdentityInput → SealedBlob → ℕ → IdentityDoc
doc_of i blob now = record {
  handle = i.handle;
  ens = i.ens;
  owner_address = to_lower i.owner_address;
  axl_pubkey_hex = i.axl_pubkey_hex;
  encrypted_privkey = blob;
  inft_contract = filled i.inft_contract;
  inft_token_id = filled i.inft_token_id;
  created_at = now;
  last_booted_at = none;
  is_active = true;
}

-- A document with the handle or the name, whatever its status is.
unfoldable pub is_taken : String → String → List IdentityDoc → Bool
is_taken handle ens [] = false
is_taken handle ens (d ∷ ds) = d.handle == handle || (d.ens == ens || is_taken handle ens ds)

-- `insertOne` under the unique indexes on `handle` and `ens`, and the eviction after it.
abbrev pub inserted : IdentityDoc → World → Result {0} Unit × World
inserted doc w =
    if is_taken doc.handle doc.ens w.identities then (throw "E11000 duplicate key error", w) else (
      ok tt,
      record { identities = w.identities ++ doc ∷ []; cache = Map.delete doc.handle w.cache },
    )

abbrev pub booted : String → ℕ → List IdentityDoc → List IdentityDoc
booted handle now [] = []
booted handle now (d ∷ ds) =
    if d.handle == handle
    then record d { last_booted_at = some now } ∷ ds
    else d ∷ booted handle now ds

-- `updateOne({ handle }, …)`: the first document with the handle.
unfoldable pub mark_booted : String → ℕ → World → World
mark_booted handle now w = record w { identities = booted handle now w.identities }

unfoldable pub find_identity_by_owner : String → World → List (String × String)
find_identity_by_owner owner w = by_owner w.identities
  where
    by_owner : List IdentityDoc → List (String × String)
    by_owner [] = []
    by_owner (d ∷ ds) =
        if d.owner_address == to_lower owner && d.is_active
        then (d.handle, d.ens) ∷ by_owner ds
        else by_owner ds

abbrev pub active_handles : List IdentityDoc → List String
active_handles [] = []
active_handles (d ∷ ds) = if d.is_active then d.handle ∷ active_handles ds else active_handles ds

unfoldable pub list_active_handles : World → List String
list_active_handles w = active_handles w.identities

module _ (cipher : Cipher) (env : Env) where
  abbrev pub opened_doc : IdentityDoc → Result String → Result AgentIdentity
  opened_doc doc (ok priv_hex) = ok (identity_with doc priv_hex)
  opened_doc doc (throw e) = throw e

  -- What a document gives, without the cache.
  abbrev pub read_doc : String → Option IdentityDoc → Result AgentIdentity
  read_doc handle none = throw (append "identity not found: " handle)
  read_doc handle (some doc) = opened_doc doc (open_blob cipher env doc.encrypted_privkey)

  abbrev pub cached_as : String → Result AgentIdentity → World → Result AgentIdentity × World
  cached_as handle (ok identity) w =
      (ok identity, record w { cache = Map.set handle identity w.cache })
  cached_as handle (throw e) w = (throw e, w)

  abbrev pub load_with : String → Option AgentIdentity → World → Result AgentIdentity × World
  load_with handle (some cached) w = (ok cached, w)
  load_with handle none w = cached_as handle (read_doc handle (find_active handle w.identities)) w

  unfoldable pub load_identity : String → World → Result AgentIdentity × World
  unfolding open_blob find_active
  load_identity handle w = load_with handle (Map.get handle w.cache) w

  abbrev pub save_sealed :
      SaveIdentityInput → ℕ → Result SealedBlob → World → Result {0} Unit × World
  save_sealed i now (ok blob) w = inserted (doc_of i blob now) w
  save_sealed i now (throw e) w = (throw e, w)

  unfoldable pub save_identity : SaveIdentityInput → Bytes → ℕ → World → Result {0} Unit × World
  unfolding seal is_taken
  save_identity i iv now w = save_sealed i now (seal cipher env iv i.axl_private_key_hex) w
