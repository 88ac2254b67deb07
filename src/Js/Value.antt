-- ===== src/Js/Value.antt =====
-- JavaScript values as the sources meet them: the values of JSON, and `undefined` beside them.
use agentdir_open_agents.Base.{
  zero, suc, String, Bool, true, false, Option, none, some, List, [], ◌∷◌, ◌==◌, if◌then◌else◌,
  eq_iff, arith, eqb, ◌≡◌, ◌↔◌,
}
use agentdir_open_agents.Base.Int.{ℤ, pos, negsuc}
use agentdir_open_agents.Js.Text.{is_filled}

mutual
  pub data Json : Type 0 where
    null : Json
    bool : Bool → Json
    num : ℤ → Json
    str : String → Json
    arr : Items → Json
    obj : Fields → Json

  pub data Items : Type 0 where
    nil : Items
    cons : Json → Items → Items

  pub data Fields : Type 0 where
    end : Fields
    field : String → Json → Fields → Fields

-- `none` is `undefined`.
abbrev pub Value : Type 0
Value = Option Json

unfoldable pub find_field : String → Fields → Value
find_field k end = none
find_field k (field j v fs) = if j == k then some v else find_field k fs

-- `x.k` for a value that is not null: only objects have the fields that the sources read.
unfoldable pub prop : String → Json → Value
unfolding find_field
prop k (obj fs) = find_field k fs
prop k _ = none

-- `x.k` where `x` may be undefined or null is read through `?.`.
abbrev pub prop? : String → Value → Value
prop? k none = none
prop? k (some v) = prop k v

abbrev pub is_int_zero : ℤ → Bool
is_int_zero (pos n) = elim n [ zero ↦ true | suc _ ↦ false ]
is_int_zero (negsuc n) = false

-- `!!x`
abbrev pub truthy : Value → Bool
truthy none = false
truthy (some null) = false
truthy (some (bool b)) = b
truthy (some (num n)) = if is_int_zero n then false else true
truthy (some (str s)) = is_filled s
truthy (some (arr _)) = true
truthy (some (obj _)) = true

-- `x ?? d`
abbrev pub or_default : Value → Json → Json
or_default none d = d
or_default (some null) d = d
or_default (some v) d = v

abbrev pub is_text : Value → Bool
is_text (some (str _)) = true
is_text _ = false

abbrev pub is_number : Value → Bool
is_number (some (num _)) = true
is_number _ = false

abbrev pub eqb_ℤ : ℤ → ℤ → Bool
eqb_ℤ (pos a) (pos b) = eqb a b
eqb_ℤ (negsuc a) (negsuc b) = eqb a b
eqb_ℤ _ _ = false

abbrev pub is_number_eq : ℤ → Value → Bool
is_number_eq n (some (num m)) = eqb_ℤ m n
is_number_eq n _ = false

abbrev pub is_text_eq : String → Value → Bool
is_text_eq t (some (str s)) = s == t
is_text_eq t _ = false

-- `typeof x === "object" && x !== null`
abbrev pub is_object : Value → Bool
is_object (some (arr _)) = true
is_object (some (obj _)) = true
is_object _ = false

-- An object literal: `JSON.stringify` leaves out the properties that are undefined.
unfoldable pub fields_of : List (String × Value) → Fields
fields_of [] = end
fields_of ((k, none) ∷ fs) = fields_of fs
fields_of ((k, some v) ∷ fs) = field k v (fields_of fs)

abbrev pub object : List (String × Value) → Json
object fs = obj (fields_of fs)

-- `const { k: _, ...rest } = x`
unfoldable pub without_field : String → Fields → Fields
without_field k end = end
without_field k (field j v fs) =
    let rest = without_field k fs in if j == k then rest else field j v rest

unfoldable pub rest_of : String → Json → Json
unfolding without_field
rest_of k (obj fs) = obj (without_field k fs)
rest_of k _ = obj end

pub is_text_eq_iff : (t : String) (v : Value) → (is_text_eq t v ≡ true) ↔ (v ≡ some (str t))
is_text_eq_iff t none = ground arith
is_text_eq_iff t (some (str s)) = ground (arith, eq_iff s t)
is_text_eq_iff t (some null) = ground arith
is_text_eq_iff t (some _) = ground arith
