-- ===== src/Js/Result.antt =====
-- A call that returns or throws; an exception is its message. A `TypeError` of the engine has the
-- message `type_error`.
use agentdir_open_agents.Base.{
  String, none, some, ◌≡◌, refl, ◌⊎◌, inl, inr, arith, Bool, true, false, Option,
}
use agentdir_open_agents.Js.Value.{Json, Value, null, str, prop}
use agentdir_open_agents.Js.Text.{to_lower}

pub data Result {ℓ} (A : Type ℓ) : Type ℓ where
  ok : A → Result A
  throw : String → Result A

infixl 5 ◌>>=◌
abbrev pub ◌>>=◌ {ℓ κ} : {A : Type ℓ} {B : Type κ} → Result A → (A → Result B) → Result B
ok a >>= f = f a
throw e >>= f = throw e

abbrev pub type_error : String
type_error = "TypeError"

-- `x.toLowerCase()`, where `x` is to be a string.
abbrev pub lower_of : Value → Result String
lower_of (some (str s)) = ok (to_lower s)
lower_of _ = throw type_error

-- `if (c) return reason;`, where `null` is the result of a pass.
abbrev pub reject_if : Bool → String → Result (Option String) → Result (Option String)
reject_if true reason k = ok (some reason)
reject_if false reason k = k

pub Result-cases {ℓ} :
    {A : Type ℓ} (r : Result A) → ((a : A) × (r ≡ ok a)) ⊎ ((e : String) × (r ≡ throw e))
Result-cases (ok a) = inl (a, refl)
Result-cases (throw e) = inr (e, refl)

pub lower_of-eq-ok :
    (v : Value) {t : String}
    → lower_of v ≡ ok t
    → (s : String) × (v ≡ some (str s)) × (to_lower s ≡ t)
lower_of-eq-ok none h = ground arith
lower_of-eq-ok (some (str s)) h = (s, refl, ground arith)
lower_of-eq-ok (some null) h = ground arith
lower_of-eq-ok (some _) h = ground arith

-- `x.k`: null and undefined have no properties.
unfoldable pub read : String → Value → Result Value
read k none = throw type_error
read k (some null) = throw type_error
read k (some v) = ok (prop k v)

abbrev pub head_json : Option String → Json
head_json none = null
head_json (some root) = str root
