-- ===== src/Agent/Act.antt =====
-- A method of an object that may throw: what it changed before it threw stays changed.
use agentdir_open_agents.Base.{String, Bool, true, false, if◌then◌else◌}
use agentdir_open_agents.Js.Result.{Result, ok, throw}

abbrev pub Act {ℓ} : Type ℓ → Type ℓ → Type ℓ
Act S A = S → Result A × S

module _ {ℓ} {S A : Type ℓ} where
  abbrev pub pure : A → Act S A
  pure a s = (ok a, s)

  abbrev pub raise : String → Act S A
  raise e s = (throw e, s)

module _ {ℓ} {S A B : Type ℓ} where
  -- What follows a call that returned or threw.
  abbrev pub resume : Result A → (A → Act S B) → Act S B
  resume (ok a) f s = f a s
  resume (throw e) f s = (throw e, s)

  infixl 5 ◌>>=◌ ◌>>◌
  abbrev pub ◌>>=◌ : Act S A → (A → Act S B) → Act S B
  ◌>>=◌ m f s = resume (m s).0 f (m s).1

  abbrev pub ◌>>◌ : Act S A → Act S B → Act S B
  m >> k = m >>= λ _. k

module _ {ℓ} {S A : Type ℓ} where
  abbrev pub recover : Result A → (A → Act S A) → (String → Act S A) → Act S A
  recover (ok a) done failed s = done a s
  recover (throw e) done failed s = failed e s

-- An invariant of a method, kept whether it returns or throws.
pub record Keeps {ℓ} {S A : Type ℓ} (P : S → Type ℓ) (m : Act S A) : Type ℓ where
  pub at : (s : S) → P s → P (m s).1

module _ {ℓ} {S A B : Type ℓ} (P : S → Type ℓ) where
  resume-Keeps :
      (r : Result A) (f : A → Act S B)
      → ((a : A) → Keeps P (f a))
      → (s : S) → P s
      → P (resume r f s).1
  resume-Keeps (ok a) f k s h = (k a).at s h
  resume-Keeps (throw e) f k s h = h

  pub Keeps-bind :
      (m : Act S A) (f : A → Act S B) → Keeps P m → ((a : A) → Keeps P (f a)) → Keeps P (m >>= f)
  Keeps-bind m f km kf = record { at = λ s h. resume-Keeps (m s).0 f kf (m s).1 (km.at s h) }

module _ {ℓ} {S A : Type ℓ} (P : S → Type ℓ) where
  pub Keeps-if : (b : Bool) (m n : Act S A) → Keeps P m → Keeps P n → Keeps P (if b then m else n)
  Keeps-if true m n km kn = km
  Keeps-if false m n km kn = kn

  pub Keeps-pure : (a : A) → Keeps P (pure a)
  Keeps-pure a = record { at = λ s h. h }
