-- ===== src/Sdk/Rep/Scores.antt =====
-- The scores of packages/sdk/src/rep.ts.
use agentdir_open_agents.Base.{
  ℕ, Bool, zero, suc, ◌*◌, ◌≤◌, ◌<◌, ◌≡◌, min, Option, List, [], ◌∷◌, String, arith, length,
  length-take,
}
use agentdir_open_agents.Js.Value.{Json}
use agentdir_open_agents.Js.Ratio.{IsUnit}
use agentdir_open_agents.Sdk.Rep.{filter, score_for, is_ok, success, lookback_of, window}

length-filter-le : (p : Json → Bool) (atts : List Json) → length (filter p atts) ≤ length atts
length-filter-le p [] = omega arith
length-filter-le p (a ∷ atts) = ground (arith, length-filter-le p atts)

success-IsUnit : (passed n : ℕ) → passed ≤ n → IsUnit (success passed n)
success-IsUnit passed zero h = omega arith
success-IsUnit passed (suc n) h = omega arith

mul_le_mul : (a b c d : ℕ) → a ≤ b → c ≤ d → a * c ≤ b * d
mul_le_mul a b c d h k = grind arith

min_eq : (n l : ℕ) → n ≤ l → min n l ≡ n
min_eq n l h = omega arith

weighted-IsUnit :
    (passed n l : ℕ)
    → passed ≤ n
    → n ≤ l
    → 0 < l
    → ((success passed n).num * min n l ≤ (success passed n).den * l)
      × (0 < (success passed n).den * l)
weighted-IsUnit passed zero l h k p = (omega arith, omega arith)
weighted-IsUnit passed (suc n) l h k p =
    (mul_le_mul passed (suc n) (min (suc n) l) l h (omega arith), grind arith)

weighted_share :
    (passed n l : ℕ)
    → passed ≤ n
    → n ≤ l
    → (success passed n).num * min n l * l ≡ passed * ((success passed n).den * l)
weighted_share passed zero l h k = let e : passed ≡ 0 = omega arith in rw e (omega arith)
weighted_share passed (suc n) l h k = rw (min_eq (suc n) l k) (omega arith)

module _ (atts : List Json) (target : String) (skill : Option String) (lookback : Option ℕ) where
  ok-le-n : (score_for atts target skill lookback).ok ≤ (score_for atts target skill lookback).n
  unfolding score_for
  ok-le-n = length-filter-le is_ok (window atts target skill (lookback_of lookback))

  n-le-lookback : (score_for atts target skill lookback).n ≤ lookback_of lookback
  unfolding score_for
  n-le-lookback = omega (arith, length-take {0})

  -- With a window of at least one attestation, the ranked score counts at most the window, at most
  -- its attestations as successes, and both the ratio and the score lie between 0 and 1.
  pub score_for_bounds :
      0 < lookback_of lookback
      → let s = score_for atts target skill lookback in
        (s.ok ≤ s.n) × (s.n ≤ lookback_of lookback) × IsUnit s.ratio × IsUnit s.score
  unfolding score_for
  score_for_bounds some_room =
      let few = ok-le-n in
      let fits = n-le-lookback in
      let (below, pos_den) = weighted-IsUnit _ _ _ few fits some_room in
      (few, fits, success-IsUnit _ _ few, (pos_den, below))

  -- The ranked score is the number of successes in the window over the size of the window, so the
  -- failures in the window do not lower it.
  pub score_for_share :
      let s = score_for atts target skill lookback in
      s.score.num * lookback_of lookback ≡ s.ok * s.score.den
  unfolding score_for
  score_for_share = weighted_share _ _ _ ok-le-n n-le-lookback
