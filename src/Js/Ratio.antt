-- ===== src/Js/Ratio.antt =====
-- Quotients of natural numbers, kept exact; JavaScript rounds them to a double. The denominator 0
-- stands for NaN, which the sources get from 0 / 0 alone.
use agentdir_open_agents.Base.{ℕ, ◌*◌, ◌≤◌, ◌<◌, Bool, ◌&&◌, leb, ltb}

pub record Ratio : Type 0 where
  pub num : ℕ
  pub den : ℕ

abbrev pub ratio : ℕ → ℕ → Ratio
ratio n d = record { num = n; den = d }

infixl 70 ◌*ᵣ◌
abbrev pub ◌*ᵣ◌ : Ratio → Ratio → Ratio
p *ᵣ q = ratio (p.num * q.num) (p.den * q.den)

-- `p >= q`, which is false of NaN.
abbrev pub is_at_least : Ratio → Ratio → Bool
is_at_least p q = ltb 0 (p.den * q.den) && leb (q.num * p.den) (p.num * q.den)

-- The number lies between 0 and 1.
abbrev pub IsUnit : Ratio → Type 0
IsUnit p = (0 < p.den) × (p.num ≤ p.den)
