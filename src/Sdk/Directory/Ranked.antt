-- ===== src/Sdk/Directory/Ranked.antt =====
-- The order of the entries in packages/sdk/src/directory.ts.
use mathlib.Core.List.{Perm, perm_middle}
use mathlib.Core.List.Perm
use agentdir_open_agents.Base.{
  ℕ, ◌*◌, ◌≤◌, ◌<◌, ◌≡◌, refl, Bool, true, false, ◌&&◌, List, [], ◌∷◌, ◌++◌, arith, ltb, leb,
  Bool-cases, inl, inr, if◌then◌else◌,
}
use agentdir_open_agents.Js.Ratio.{Ratio, is_at_least}
use agentdir_open_agents.Sdk.Directory.{DirectoryEntry, qualified, insert, ranked}

abbrev pub All : (DirectoryEntry → Type 0) → List DirectoryEntry → Type 0
All P [] = Unit
All P (e ∷ es) = P e × All P es

-- The first score is at least the second.
abbrev pub Beats : Ratio → Ratio → Type 0
Beats p q = q.num * p.den ≤ p.num * q.den

abbrev pub IsProper : DirectoryEntry → Type 0
IsProper e = 0 < e.score.score.den

-- Each entry has a score that is at least that of every later one.
abbrev pub IsSorted : List DirectoryEntry → Type 0
IsSorted [] = Unit
IsSorted (e ∷ es) = All (λ x. Beats e.score.score x.score.score) es × IsSorted es

cancel : (a b d : ℕ) → 0 < d → a * d ≤ b * d → a ≤ b
cancel a b d p h = grind arith

mul_mono : (a b d : ℕ) → a ≤ b → a * d ≤ b * d
mul_mono a b d h = grind arith

Beats-trans : (p q r : Ratio) → 0 < q.den → Beats p q → Beats q r → Beats p r
Beats-trans p q r pos h k =
    let h' : q.num * p.den * r.den ≤ p.num * q.den * r.den = mul_mono _ _ r.den h in
    let k' : r.num * q.den * p.den ≤ q.num * r.den * p.den = mul_mono _ _ p.den k in
    cancel (r.num * p.den) (p.num * r.den) q.den pos (omega (arith, h', k'))

split_and : (a b : Bool) → (a && b) ≡ true → (a ≡ true) × (b ≡ true)
split_and true b h = (refl, h)
split_and false b h = cc

factor_pos : (a b : ℕ) → 0 < a * b → 0 < a
factor_pos a b h = grind arith

mul_pos : (a b : ℕ) → 0 < a → 0 < b → 0 < a * b
mul_pos a b h k = grind arith

at_least-Beats : (p q : Ratio) → is_at_least p q ≡ true → Beats p q × (0 < p.den)
at_least-Beats p q h =
    let (pos, most) = split_and (ltb 0 (p.den * q.den)) (leb (q.num * p.den) (p.num * q.den)) h in
    let pos' : 0 < p.den * q.den = ground arith in
    let most' : q.num * p.den ≤ p.num * q.den = ground arith in (most', factor_pos p.den q.den pos')

worse-Beats : (p q : Ratio) → 0 < p.den → 0 < q.den → is_at_least p q ≡ false → Beats q p
worse-Beats p q a b h =
    let pos : ltb 0 (p.den * q.den) ≡ true = let both = mul_pos p.den q.den a b in ground arith in
    let less : leb (q.num * p.den) (p.num * q.den) ≡ false = rw pos at h in ground arith

pub qualified-IsProper :
    (least : Ratio) (es : List DirectoryEntry) → All IsProper (qualified least es)
qualified-IsProper least [] = tt
qualified-IsProper least (e ∷ es) = elim (Bool-cases (is_at_least e.score.score least)) [
  | inl good ↦ rw good ((at_least-Beats e.score.score least good).1, qualified-IsProper least es)
  | inr bad ↦ rw bad (qualified-IsProper least es)
]

pub qualified-Beats :
    (least : Ratio) (es : List DirectoryEntry)
    → All (λ e. Beats e.score.score least) (qualified least es)
qualified-Beats least [] = tt
qualified-Beats least (e ∷ es) = elim (Bool-cases (is_at_least e.score.score least)) [
  | inl good ↦ rw good ((at_least-Beats e.score.score least good).0, qualified-Beats least es)
  | inr bad ↦ rw bad (qualified-Beats least es)
]

insert-All :
    (P : DirectoryEntry → Type 0) (e : DirectoryEntry) (es : List DirectoryEntry)
    → P e
    → All P es
    → All P (insert e es)
insert-All P e [] h all = (h, tt)
insert-All P e (x ∷ xs) h all = elim (Bool-cases (is_at_least e.score.score x.score.score)) [
  | inl first ↦ rw first (h, all)
  | inr later ↦ rw later (all.0, insert-All P e xs h all.1)
]

All-Beats :
    (p : Ratio) (x : DirectoryEntry) (xs : List DirectoryEntry)
    → IsProper x
    → Beats p x.score.score
    → All (λ y. Beats x.score.score y.score.score) xs
    → All (λ y. Beats p y.score.score) xs
All-Beats p x [] proper h all = tt
All-Beats p x (y ∷ ys) proper h all =
    (Beats-trans p x.score.score y.score.score proper h all.0, All-Beats p x ys proper h all.1)

insert-IsSorted :
    (e : DirectoryEntry) (es : List DirectoryEntry)
    → IsProper e
    → All IsProper es
    → IsSorted es
    → IsSorted (insert e es)
insert-IsSorted e [] proper all sorted = (tt, tt)
insert-IsSorted e (x ∷ xs) proper all sorted =
    elim (Bool-cases (is_at_least e.score.score x.score.score)) [
      | inl first ↦
          let best = (at_least-Beats e.score.score x.score.score first).0 in
          rw first ((best, All-Beats e.score.score x xs all.0 best sorted.0), sorted)
      | inr later ↦ rw later (
        insert-All (λ y. Beats x.score.score y.score.score) e xs
            (worse-Beats e.score.score x.score.score proper all.0 later) sorted.0,
        insert-IsSorted e xs proper all.1 sorted.1,
      )
    ]

pub ranked-All :
    (P : DirectoryEntry → Type 0) (es : List DirectoryEntry) → All P es → All P (ranked es)
ranked-All P [] all = tt
ranked-All P (e ∷ es) all = insert-All P e (ranked es) all.0 (ranked-All P es all.1)

pub ranked-IsSorted : (es : List DirectoryEntry) → All IsProper es → IsSorted (ranked es)
ranked-IsSorted [] all = tt
ranked-IsSorted (e ∷ es) all =
    insert-IsSorted e (ranked es) all.0 (ranked-All IsProper es all.1) (ranked-IsSorted es all.1)

insert-Perm : (e : DirectoryEntry) (es : List DirectoryEntry) → Perm (insert e es) (e ∷ es)
insert-Perm e [] = Perm.refl _
insert-Perm e (x ∷ xs) = elim (Bool-cases (is_at_least e.score.score x.score.score)) [
  | inl first ↦ rw first (Perm.refl _)
  | inr later ↦ rw later (Perm.trans (Perm.cons x (insert-Perm e xs)) (Perm.swap e x xs))
]

pub ranked-Perm : (es : List DirectoryEntry) → Perm (ranked es) es
ranked-Perm [] = Perm.refl _
ranked-Perm (e ∷ es) = Perm.trans (insert-Perm e (ranked es)) (Perm.cons e (ranked-Perm es))

-- The entries with a score that is not high enough.
abbrev pub below : Ratio → List DirectoryEntry → List DirectoryEntry
below least [] = []
below least (e ∷ es) =
    if is_at_least e.score.score least then below least es else e ∷ below least es

pub below-All :
    (least : Ratio) (es : List DirectoryEntry)
    → All (λ e. is_at_least e.score.score least ≡ false) (below least es)
below-All least [] = tt
below-All least (e ∷ es) = elim (Bool-cases (is_at_least e.score.score least)) [
  | inl good ↦ rw good (below-All least es)
  | inr bad ↦ rw bad (bad, below-All least es)
]

-- Each entry is either kept or left out for its score.
pub qualified-Perm :
    (least : Ratio) (es : List DirectoryEntry) → Perm (qualified least es ++ below least es) es
qualified-Perm least [] = Perm.refl _
qualified-Perm least (e ∷ es) = elim (Bool-cases (is_at_least e.score.score least)) [
  | inl good ↦ rw good (Perm.cons e (qualified-Perm least es))
  | inr bad ↦ rw bad (
      Perm.trans (perm_middle (qualified least es) (below least es))
        (Perm.cons e (qualified-Perm least es)))
]
