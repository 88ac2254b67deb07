-- ===== src/Js/Map.antt =====
-- `Map` with string keys, in insertion order; the laws are stated for every pair of keys.
use agentdir_open_agents.Base.{
  ℕ, ◌+◌, ◌≡◌, refl, String, Bool, true, false, Option, none, some, List, [], ◌∷◌, arith, length,
  ◌==◌, eq_iff, eq_refl, if◌then◌else◌,
}

abbrev pub Map {ℓ} : Type ℓ → Type ℓ
Map V = List (String × V)

module _ {ℓ} {V : Type ℓ} where
  -- `m.get(k)`
  unfoldable pub get : String → Map V → Option V
  get k [] = none
  get k ((j, v) ∷ m) = if j == k then some v else get k m

  -- `m.has(k)`
  unfoldable pub has : String → Map V → Bool
  has k [] = false
  has k ((j, v) ∷ m) = if j == k then true else has k m

  -- `m.set(k, v)` overwrites in place, and otherwise appends.
  unfoldable pub set : String → V → Map V → Map V
  set k v [] = (k, v) ∷ []
  set k v ((j, w) ∷ m) = if j == k then (j, v) ∷ m else (j, w) ∷ set k v m

  -- `m.delete(k)`
  unfoldable pub delete : String → Map V → Map V
  delete k [] = []
  delete k ((j, v) ∷ m) = if j == k then m else (j, v) ∷ delete k m

  -- `m.size`
  abbrev pub size : Map V → ℕ
  size = length

  -- Every key stands once.
  abbrev pub Fresh : String → Map V → Type 0
  Fresh k [] = Unit
  Fresh k ((j, v) ∷ m) = ((j == k) ≡ false) × Fresh k m

  abbrev pub IsMap : Map V → Type 0
  IsMap [] = Unit
  IsMap ((j, v) ∷ m) = Fresh j m × IsMap m

  pub get-set :
      (k j : String) (v : V) (m : Map V) → get j (set k v m) ≡ (if k == j then some v else get j m)
  unfolding get set
  get-set k j v [] = refl
  get-set k j v ((i, w) ∷ m) = ground (arith, eq_iff k j, eq_iff i k, eq_iff i j, get-set k j v m)

  pub get-set_self : (k : String) (v : V) (m : Map V) → get k (set k v m) ≡ some v
  get-set_self k v m = rw (get-set k k v m, eq_refl k) refl

  pub has-get : (k : String) (m : Map V) → has k m ≡ false → get k m ≡ none
  unfolding get has
  has-get k [] h = refl
  has-get k ((j, v) ∷ m) h = ground (arith, has-get k m)

  pub get-Fresh : (k : String) (m : Map V) → Fresh k m → get k m ≡ none
  unfolding get
  get-Fresh k [] f = refl
  get-Fresh k ((j, v) ∷ m) f = ground (arith, get-Fresh k m f.1)

  pub get-delete :
      (k j : String) (m : Map V) → IsMap m → get j (delete k m) ≡ (if k == j then none else get j m)
  unfolding get delete
  get-delete k j [] u = ground arith
  get-delete k j ((i, w) ∷ m) u =
      ground (arith, eq_iff k j, eq_iff i k, eq_iff i j, get-delete k j m u.1, get-Fresh i m u.0)

  pub Fresh-set :
      (i k : String) (v : V) (m : Map V) → (k == i) ≡ false → Fresh i m → Fresh i (set k v m)
  unfolding set
  Fresh-set i k v [] h f = (h, tt)
  Fresh-set i k v ((j, w) ∷ m) h f = ground (arith, Fresh-set i k v m h f.1)

  pub set-IsMap : (k : String) (v : V) (m : Map V) → IsMap m → IsMap (set k v m)
  unfolding set
  set-IsMap k v [] u = (tt, tt)
  set-IsMap k v ((j, w) ∷ m) u =
      ground (arith, eq_iff j k, eq_iff k j, Fresh-set j k v m, set-IsMap k v m u.1)

  pub Fresh-delete : (i k : String) (m : Map V) → Fresh i m → Fresh i (delete k m)
  unfolding delete
  Fresh-delete i k [] f = tt
  Fresh-delete i k ((j, w) ∷ m) f = ground (arith, Fresh-delete i k m f.1)

  pub delete-IsMap : (k : String) (m : Map V) → IsMap m → IsMap (delete k m)
  unfolding delete
  delete-IsMap k [] u = tt
  delete-IsMap k ((j, w) ∷ m) u = ground (arith, Fresh-delete j k m u.0, delete-IsMap k m u.1)

  -- A key that is new makes the map one longer; a key that is there leaves its size.
  pub size-set :
      (k : String) (v : V) (m : Map V) → size (set k v m) ≡ (if has k m then size m else size m + 1)
  unfolding set has
  size-set k v [] = refl
  size-set k v ((j, w) ∷ m) = ground (arith, size-set k v m)
