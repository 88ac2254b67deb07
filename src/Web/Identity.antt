-- ===== src/Web/Identity.antt =====
-- Frontend/lib/identity-crypto.ts and Frontend/lib/identity-store.ts: the keys of the hosted agents,
-- sealed at rest, and the cache of those that are open. AES-256-GCM is a parameter and the random
-- IV an argument. The environment does not change, so the KEK that is cached is the one it gives.
pub mod Store
pub mod Cache
pub mod Trip
use Prim.Native.Char.{Char, code}
use Prim.Native.String.{◌++◌ as append}
use agentdir_open_agents.Base.{
  ℕ, zero, suc, ◌+◌, ◌-◌, ◌*◌, String, Bool, true, false, ◌&&◌, not, Option, none, some, List, [],
  ◌∷◌, ◌++◌, ◌==◌, eqb, leb, ltb, length, if◌then◌else◌,
}
use agentdir_open_agents.Base.Int.{pos}
use agentdir_open_agents.Js.Map
use agentdir_open_agents.Js.Map.{Map}
use agentdir_open_agents.Js.Number.{number_text}
use agentdir_open_agents.Js.Text.{to_lower, strip_hex, is_hex_of, is_filled}
use agentdir_open_agents.Js.Text.Parts.{trim_start}
use agentdir_open_agents.Js.Result.{Result, ok, throw, ◌>>=◌}

abbrev pub Bytes : Type 0
Bytes = List ℕ

pub record Kek : Type 0 where
  pub kek : Bytes
  pub version : ℕ

-- IDENTITY_KEK and IDENTITY_KEK_VERSION.
pub record Env : Type 0 where
  pub identity_kek : Option String
  pub identity_kek_version : Option String

abbrev hex_value : Char → ℕ
hex_value c =
    let n = code c in
    if leb b'a' n then n - b'a' + 10 else if leb b'A' n then n - b'A' + 10 else n - b'0'

-- `Buffer.from(hex, "hex")`, of digits alone.
unfoldable pub bytes_of : String → Bytes
bytes_of String.[] = []
bytes_of (String.◌∷◌ c String.[]) = []
bytes_of (String.◌∷◌ c (String.◌∷◌ d s)) = (hex_value c * 16 + hex_value d) ∷ bytes_of s

abbrev next_digit : Option ℕ → ℕ → ℕ
next_digit none d = d
next_digit (some n) d = n * 10 + d

-- The digits at the start of the text, after those that are read.
digits : Option ℕ → String → Option ℕ
digits seen String.[] = seen
digits seen (String.◌∷◌ c s) =
    let rest = digits (some (next_digit seen (code c - b'0'))) s in
    if leb b'0' (code c) && leb (code c) b'9' then rest else seen

after_sign : String → Option ℕ
unfolding digits
after_sign String.[] = none
after_sign (String.◌∷◌ c s) =
    if eqb (code c) b'+' then digits none s else digits none (String.◌∷◌ c s)

-- `Number.parseInt(s, 10)`, where it is at least 0; a minus gives no version.
unfoldable pub parse_int : String → Option ℕ
unfolding after_sign trim_start
parse_int s = after_sign (trim_start s)

abbrev text_or : Option String → String → String
text_or none d = d
text_or (some t) d = t

abbrev pub kek_of : String → Option ℕ → Result Kek
kek_of stripped none = throw "IDENTITY_KEK_VERSION must be a positive integer"
kek_of stripped (some version) =
    if ltb version 1
    then throw "IDENTITY_KEK_VERSION must be a positive integer"
    else ok (record { kek = bytes_of stripped; version = version })

abbrev pub kek_from : Option String → Option String → Result Kek
kek_from none version =
    throw "IDENTITY_KEK env var is required (32-byte hex). Generate with: openssl rand -hex 32"
kek_from (some hex) version =
    if not (is_filled hex)
    then throw "IDENTITY_KEK env var is required (32-byte hex). Generate with: openssl rand -hex 32"
    else if not (is_hex_of 64 (strip_hex hex))
    then throw "IDENTITY_KEK must be 32-byte hex (64 chars, optional 0x prefix)"
    else kek_of (strip_hex hex) (parse_int (text_or version "1"))

unfoldable pub load_kek : Env → Result Kek
unfolding parse_int bytes_of
load_kek env = kek_from env.identity_kek env.identity_kek_version

pub record SealedBlob : Type 0 where
  pub ciphertext : Bytes
  pub iv : Bytes
  pub auth_tag : Bytes
  pub kek_version : ℕ

-- AES-256-GCM: a key, an IV and a text give the ciphertext and its tag; with a tag that does not
-- belong to the ciphertext, decryption throws, which is `none`.
pub record Cipher : Type 0 where
  pub encrypt : Bytes → Bytes → String → Bytes × Bytes
  pub decrypt : Bytes → Bytes → Bytes → Bytes → Option String

module _ (cipher : Cipher) (env : Env) where
  -- `iv` is `randomBytes(12)`.
  unfoldable pub seal : Bytes → String → Result SealedBlob
  unfolding load_kek
  seal iv plaintext = load_kek env >>= λ k.
      let (ct, tag) = cipher.encrypt k.kek iv plaintext in
      ok (record { ciphertext = ct; iv = iv; auth_tag = tag; kek_version = k.version })

  abbrev pub decrypted : Option String → Result String
  decrypted none = throw "Unsupported state or unable to authenticate data"
  decrypted (some text) = ok text

  abbrev pub opened : SealedBlob → Kek → Result String
  opened blob k =
      if not (eqb blob.kek_version k.version)
      then throw (
          append "kek version mismatch: blob=" (
            append (number_text (pos blob.kek_version))
              (append " active=" (append (number_text (pos k.version)) " — rotation needed"))))
      else if not (eqb (length blob.iv) 12)
      then throw "iv must be 12 bytes"
      else if not (eqb (length blob.auth_tag) 16)
      then throw "authTag must be 16 bytes"
      else decrypted (cipher.decrypt k.kek blob.iv blob.auth_tag blob.ciphertext)

  unfoldable pub open_blob : SealedBlob → Result String
  unfolding load_kek
  open_blob blob = load_kek env >>= opened blob
