-- ===== src/Examples/Hosting.antt =====
-- Runs of the identity store and of the hosted agents.
use Prim.Native.Char.{code}
use Prim.Native.String.{char_at}
use agentdir_open_agents.Base.{
  ◌-◌, ◌≡◌, refl, String, true, false, none, some, List, [], ◌∷◌, replicate,
}
use agentdir_open_agents.Js.Text.{strip_hex, is_hex_of}
use agentdir_open_agents.Js.Text.Parts.{trim_start}
use agentdir_open_agents.Js.Result.{Result, ok, throw}
use agentdir_open_agents.Agent.Skills.{PromptSkillInput}
use agentdir_open_agents.Web.Identity
use agentdir_open_agents.Web.Identity.{Bytes, Cipher, load_kek, seal, parse_int, bytes_of}
use agentdir_open_agents.Web.Identity.Store.{
  AgentIdentity, World, SaveIdentityInput, save_identity, load_identity, is_taken,
}
use agentdir_open_agents.Web.Identity.Cache.{
  Op, loads, saves, boots, evicts, fresh, run, cleared-Coherent, run-load_identity,
}
use agentdir_open_agents.Web.Identity.Trip.{identity_of, save_identity-load_identity}
use agentdir_open_agents.Web.Callee
use agentdir_open_agents.Web.Callee.Boots
use agentdir_open_agents.Web.Callee.Variants.{IsTracked, has_colon}
use agentdir_open_agents.Examples.Skills.{model}

-- The bytes of a text of letters and digits are its codes, behind a tag of sixteen bytes.
abbrev codes : String → Bytes
codes String.[] = []
codes (String.◌∷◌ c s) = code c ∷ codes s

abbrev ascii : String
ascii = "0123456789:;<=>?@ABCDEFGHIJKLMNOPQRSTUVWXYZ[\\]^_`abcdefghijklmnopqrstuvwxyz"

abbrev text_of : Bytes → String
text_of [] = ""
text_of (n ∷ ns) = String.◌∷◌ (char_at ascii (n - 48)) (text_of ns)

abbrev plain_cipher : Cipher
plain_cipher = record {
  encrypt = λ kek iv text. (codes text, replicate 16 0);
  decrypt = λ kek iv tag ct. some (text_of ct);
}

abbrev env : Identity.Env
env = record {
  identity_kek = some "000102030405060708090a0b0c0d0e0f101112131415161718191a1b1c1d1e1f";
  identity_kek_version = none;
}

abbrev pub alice : SaveIdentityInput
alice = record {
  handle = "alice";
  ens = "alice.agents.eth";
  owner_address = "0xAB";
  axl_private_key_hex = "a1b2";
  axl_pubkey_hex = "c3d4";
  inft_contract = none;
  inft_token_id = some "7";
}

abbrev empty_world : World
empty_world = record { identities = []; cache = [] }

abbrev later_ops : List Op
later_ops =
    loads "alice" ∷ saves alice (replicate 12 1) 9 ∷ boots "alice" 10 ∷ evicts (some "alice") ∷ []

run-load_identity_example :
    let w = run plain_cipher env later_ops empty_world in
    (load_identity plain_cipher env "alice" w).0 ≡ fresh plain_cipher env w "alice"
run-load_identity_example = run-load_identity plain_cipher env [] later_ops "alice"

save_identity-load_identity_example :
    (load_identity plain_cipher env "alice" (
      run plain_cipher env later_ops
        (save_identity plain_cipher env alice (replicate 12 0) 5 empty_world).1)).0
    ≡ ok (identity_of alice)
unfolding save_identity load_kek strip_hex is_hex_of seal parse_int trim_start is_taken
save_identity-load_identity_example =
    save_identity-load_identity plain_cipher env alice (replicate 12 0) 5 empty_world later_ops
      (cleared-Coherent plain_cipher env empty_world)
      (record { decrypts = λ kek iv. refl; tag_length = λ kek iv. refl }) refl refl

abbrev identities : String → Result AgentIdentity
identities handle = ok (identity_of alice)

abbrev no_skills : String → Result (List PromptSkillInput)
no_skills handle = throw "MONGO_URL env var required"

abbrev callee_env : Callee.Env
callee_env = record { zerog_api_key = some "key"; private_key = none; zerog_provider = none }

-- A mode that cannot be built tears the other one down all the same.
abbrev events : List Boots.Event
events =
    Boots.boots "alice.agents.eth" false
    ∷ Boots.boots "alice.agents.eth" true
    ∷ Boots.boots "alice.agents.eth" false
    ∷ Boots.evicts "alice.agents.eth"
    ∷ []

run-IsTracked_example : IsTracked (
    Boots.run identities no_skills callee_env model
      (ok model)
      events
      (record { runtimes = []; buses = []; running = []; started = 0 }))
unfolding has_colon
run-IsTracked_example =
    Boots.run-IsTracked identities no_skills callee_env model (ok model) events []
      (refl, (refl, (refl, tt)))
