-- ===== src/Crypto.antt =====
-- keccak256 (viem) and ed25519 (@noble/ed25519), which the sources only call. `keccak256` stands
-- for `keccak256(toHex(text))`; all texts are hexadecimal and have no prefix, as
-- `Buffer.from(…, "hex")` reads them. `verify` takes a signature, a digest and a public key, and is
-- false where the library throws on malformed bytes.
use agentdir_open_agents.Base.{String, Bool, true, ◌≡◌}

pub record Crypto : Type 0 where
  pub keccak256 : String → String
  pub sign : String → String → String
  pub verify : String → String → String → Bool
  pub public_key : String → String

-- What the documentation of ed25519 promises: a signature verifies under the signer's public key.
pub record IsSound (C : Crypto) : Type 0 where
  pub verify-sign :
      (digest key : String) → C.verify (C.sign digest key) digest (C.public_key key) ≡ true
