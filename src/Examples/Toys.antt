-- ===== src/Examples/Toys.antt =====
-- Simple stand-ins for the services that the sources call, which meet what is assumed of them.
use Prim.Native.String.{◌++◌ as append}
use agentdir_open_agents.Base.{
  ℕ, zero, suc, ◌≡◌, refl, String, true, Option, none, some, List, [], ◌∷◌, ◌++◌, length, get_elem?,
  ◌==◌, eq_refl, ap,
}
use agentdir_open_agents.Crypto.{Crypto, IsSound}
use agentdir_open_agents.Js.Text.{is_filled}
use agentdir_open_agents.Js.Value.{Json}
use agentdir_open_agents.Js.Result.{Result, ok, throw}
use agentdir_open_agents.Sdk.Storage.{Storage, IsFaithful}

-- The digest is the text, and a signature is the digest with the key behind it.
abbrev pub toy_crypto : Crypto
toy_crypto = record {
  keccak256 = λ t. t;
  sign = λ digest key. append digest key;
  verify = λ sig digest key. sig == append digest key;
  public_key = λ key. key;
}

pub toy_crypto-IsSound : IsSound toy_crypto
toy_crypto-IsSound = record { verify-sign = λ digest key. eq_refl (append digest key) }

-- The root of the n-th value is a text of n + 1 letters.
abbrev letters : ℕ → String
letters zero = ""
letters (suc n) = String.◌∷◌ "r" (letters n)

abbrev tally : String → ℕ
tally String.[] = 0
tally (String.◌∷◌ c s) = suc (tally s)

abbrev found : Option Json → Result Json
found none = throw "not found"
found (some v) = ok v

abbrev look_up : String → List Json → Result Json
look_up String.[] s = throw "not found"
look_up (String.◌∷◌ c root) s = found (get_elem? s (tally root))

abbrev pub toy_storage : Storage
toy_storage = record {
  Store = List Json;
  put_json = λ v s. (ok (letters (suc (length s))), s ++ v ∷ []);
  get_json = look_up;
}

tally-letters : (n : ℕ) → tally (letters n) ≡ n
tally-letters zero = refl
tally-letters (suc n) = ap suc (tally-letters n)

get_last : (s : List Json) (v : Json) → get_elem? (s ++ v ∷ []) (length s) ≡ some v
get_last [] v = refl
get_last (w ∷ s) v = get_last s v

get_kept :
    (s : List Json) (v w : Json) (i : ℕ)
    → found (get_elem? s i) ≡ ok w
    → found (get_elem? (s ++ v ∷ []) i) ≡ ok w
get_kept [] v w i h = cc
get_kept (x ∷ s) v w zero h = h
get_kept (x ∷ s) v w (suc i) h = get_kept s v w i h

ok-injective : {a b : String} → ok a ≡ ok b → a ≡ b
ok-injective h = cc

toy_kept :
    (v w : Json) (s : List Json) (root : String)
    → look_up root s ≡ ok w
    → look_up root (s ++ v ∷ []) ≡ ok w
toy_kept v w s String.[] h = h
toy_kept v w s (String.◌∷◌ c root) h = get_kept s v w (tally root) h

toy_stored :
    (v : Json) (s : List Json) (root : String)
    → ok (letters (suc (length s))) ≡ ok root
    → (look_up root (s ++ v ∷ []) ≡ ok v) × (is_filled root ≡ true)
toy_stored v s root h = rw (← ok-injective h) (rw tally-letters (rw (get_last s v) refl), refl)

pub toy_storage-IsFaithful : IsFaithful toy_storage
toy_storage-IsFaithful = record { stored = toy_stored; kept = toy_kept }
