-- ===== src/Signed.antt =====
-- Signed values: the digest of a value, the signature of an identity's key over a digest
-- (packages/agent/src/identity.ts), and the check of a value that carries its signature in `sig`,
-- which packages/sdk/src has in payments.ts, rep.ts and snapshot.ts alike.
use mathlib.Core.Path.{subst, sym}
use agentdir_open_agents.Base.{String, Bool, true, false, some, ◌≡◌}
use agentdir_open_agents.Crypto.{Crypto, IsSound}
use agentdir_open_agents.Canonical.{canonical_json}
use agentdir_open_agents.Js.Text.{strip_hex, with_0x, without_two}
use agentdir_open_agents.Js.Value.{Json, str, Value, prop, rest_of}

module _ (C : Crypto) where
  -- `keccak256(toHex(canonicalJson(v)))`, 0x-hex.
  unfoldable pub digest_of : Json → String
  digest_of v = with_0x (C.keccak256 (canonical_json v))

  -- `signDigest`: the key of the identity, and the digest.
  unfoldable pub sign_digest : String → String → String
  sign_digest key digest = with_0x (C.sign (without_two digest) key)

  -- `ed.verifyAsync` of a signature, a 0x-hex digest and a public key.
  unfoldable pub verify_digest : String → String → String → Bool
  verify_digest sig digest pubkey = C.verify (strip_hex sig) (strip_hex digest) (strip_hex pubkey)

-- A `sig` that is no string makes `stripHex` throw, which is caught.
abbrev check_sig : Value → (String → Bool) → Bool
check_sig (some (str sig)) check = check sig
check_sig _ check = false

module _ (C : Crypto) where
  -- `const { sig, ...body } = value`, and the check of `sig` over `body`.
  unfoldable pub verify_signed : Json → String → Bool
  unfolding rest_of
  verify_signed value pubkey =
      check_sig (prop "sig" value)
        λ sig. verify_digest C sig (digest_of C (rest_of "sig" value)) pubkey

module _ (C : Crypto) (sound : IsSound C) (key pubkey : String) where
  -- What an identity signs verifies under its public key, written with the prefix or without.
  pub verify_digest-sign_digest :
      (v : Json)
      → strip_hex pubkey ≡ C.public_key key
      → verify_digest C (sign_digest C key (digest_of C v)) (digest_of C v) pubkey ≡ true
  unfolding verify_digest sign_digest digest_of strip_hex without_two
  verify_digest-sign_digest v own =
      let d = C.keccak256 (canonical_json v) in
      subst (λ p. C.verify (C.sign d key) d p ≡ true) (sym own) (sound.verify-sign d key)

  pub verify_signed-sign_digest :
      (v body : Json)
      → prop "sig" v ≡ some (str (sign_digest C key (digest_of C body)))
      → rest_of "sig" v ≡ body
      → strip_hex pubkey ≡ C.public_key key
      → verify_signed C v pubkey ≡ true
  unfolding verify_signed
  verify_signed-sign_digest v body carried stripped own =
      rw (carried, stripped) (verify_digest-sign_digest body own)
