-- ===== src/Web/RateLimit/Window.antt =====
-- How many calls `rateLimit` of Frontend/lib/rate-limit.ts allows within a window.
use agentdir_open_agents.Base.{
  ℕ, ◌+◌, ◌-◌, ◌≤◌, ◌<◌, ◌≡◌, refl, ◌⊎◌, inl, inr, String, true, Option, none, some, List, [], ◌∷◌,
  ◌==◌, eq_iff, eq_refl, leb, leb→le, Bool-cases, if◌then◌else◌, arith,
}
use agentdir_open_agents.Js.Map
use agentdir_open_agents.Js.Map.{IsMap, get-set, get-set_self, set-IsMap}
use agentdir_open_agents.Web.RateLimit.{Bucket, Buckets, rate_limit, opened, made_room}
use agentdir_open_agents.Web.RateLimit.Sweep.{Swept, made_room-Swept}
use agentdir_open_agents.Web.RateLimit.Open.{
  Call, one_if, allowed_count, left, Within, rate_limit-IsMap, other-Swept, own_live,
  open_count_bounds,
}

-- No bucket, or one whose window is over at the time.
abbrev IsOver : ℕ → Option Bucket → Type 0
IsOver now o = (o ≡ none) ⊎ ((b : Bucket) × (o ≡ some b) × (b.reset_at ≤ now))

-- What is left of a window that is open at the time.
abbrev pub room : ℕ → ℕ → Option Bucket → ℕ
room limit at none = 0
room limit at (some b) = if leb b.reset_at at then 0 else limit - b.count

module _ (key : String) (limit window start : ℕ) where
  counted_more :
      (b : Bucket) (rest : ℕ)
      → rest ≤ limit - (b.count + 1) + limit
      → one_if (leb (b.count + 1) limit) + rest ≤ limit - b.count + limit
  counted_more b rest h = ground arith

  own_opened :
      (now : ℕ) (m : Buckets)
      → IsOver now (Map.get key m)
      → rate_limit key limit window now m ≡ opened key limit window now m
  unfolding rate_limit
  own_opened now m (inl absent) = rw absent refl
  own_opened now m (inr (b, there, over)) =
      let late : leb b.reset_at now ≡ true = ground arith in rw (there, late) refl

  Swept-left :
      (now : ℕ) (before after : Option Bucket)
      → Swept now before after
      → left limit after ≤ left limit before
  Swept-left now before after (inl same) = rw same (omega arith)
  Swept-left now before after (inr (gone, b, had, over)) = rw gone (omega arith)

  one_opened : (rest : ℕ) → 0 < limit → rest ≤ limit - 1 → one_if true + rest ≤ limit
  one_opened rest h k = omega arith

  -- A call of the key that opens a window, with the calls after it.
  opened_count_bounds :
      (now : ℕ) (cs : List Call) (m : Buckets)
      → IsMap m
      → start ≤ now
      → Within key limit window start cs
      → 0 < limit
      → IsOver now (Map.get key m)
      → let (r, next) = rate_limit key limit window now m in
        one_if r.allowed + allowed_count key cs next ≤ limit
  opened_count_bounds now cs m u from within some_calls over =
      let fresh : Bucket = record { count = 1; reset_at = now + window } in
      let u' = set-IsMap key fresh (made_room now m) (made_room-Swept now key m u).1 in
      let rest =
        open_count_bounds key limit window start cs fresh (Map.set key fresh (made_room now m)) u'
          within (get-set_self key fresh (made_room now m)) (omega arith) in
      rw (own_opened now m over) (one_opened _ some_calls rest)

  Swept-IsOver :
      (now : ℕ) (before after : Option Bucket)
      → Swept now before after
      → IsOver start before
      → IsOver start after
  Swept-IsOver now before after (inl same) over = rw same over
  Swept-IsOver now before after (inr (gone, b, had, late)) over = inl gone

  IsOver-later : (now : ℕ) (o : Option Bucket) → start ≤ now → IsOver start o → IsOver now o
  IsOver-later now o from (inl absent) = inl absent
  IsOver-later now o from (inr (b, there, over)) = inr (b, there, omega arith)

  -- The calls of a key that had no window open at the start.
  over_count_bounds :
      (cs : List Call) (m : Buckets)
      → IsMap m
      → Within key limit window start cs
      → 0 < limit
      → IsOver start (Map.get key m)
      → allowed_count key cs m ≤ limit
  unfolding allowed_count
  over_count_bounds [] m u within some_calls over = omega arith
  over_count_bounds ((k, l, w, now) ∷ cs) m u (from, until, same, within) some_calls over =
      elim (Bool-cases (k == key)) [
        | inl own ↦
            let is_key = (eq_iff k key).0 own in
            let (is_limit, is_window) = same is_key in
            rw (is_key, is_limit, is_window, eq_refl key)
              (opened_count_bounds now cs m u from within some_calls (IsOver-later now _ from over))
        | inr other ↦
            let next = (rate_limit k l w now m).1 in
            let still =
              Swept-IsOver now _ _ (other-Swept key limit window start k l w now m u other) over in
            let rest =
              over_count_bounds cs next (rate_limit-IsMap key limit window start k l w now m u)
                within some_calls still in
            rw other (omega arith)
      ]

  more : (a n : ℕ) → a ≤ limit → a ≤ n + limit
  more a n h = omega arith

  -- A call of the key itself, where the later calls are bounded.
  own_count_bounds :
      (now : ℕ) (cs : List Call) (m : Buckets) (o : Option Bucket)
      → IsMap m
      → start ≤ now
      → Within key limit window start cs
      → 0 < limit
      → Map.get key m ≡ o
      → ((next : Buckets)
          → IsMap next
          → allowed_count key cs next ≤ left limit (Map.get key next) + limit)
      → let (r, next) = rate_limit key limit window now m in
        one_if r.allowed + allowed_count key cs next ≤ left limit o + limit
  own_count_bounds now cs m none u from within some_calls there later =
      more _ 0 (opened_count_bounds now cs m u from within some_calls (inl there))
  own_count_bounds now cs m (some b) u from within some_calls there later =
      elim (Bool-cases (leb b.reset_at now)) [
        | inl over ↦ more _ (limit - b.count) (
            opened_count_bounds now cs m u from within some_calls (inr (b, there, leb→le _ _ over)))
        | inr live ↦
            let used : Bucket = record { count = b.count + 1; reset_at = b.reset_at } in
            let rest = later (Map.set key used m) (set-IsMap key used m u) in
            let rest' : allowed_count key cs (Map.set key used m) ≤ limit - (b.count + 1) + limit =
              rw (get-set_self key used m) at rest in
            rw (own_live key limit window start now b m there (ground arith))
              (counted_more b _ rest')
      ]

  -- The calls of the key that are allowed within one window are at most what is left of the bucket
  -- that the window finds, and one limit more.
  any_count_bounds :
      (cs : List Call) (m : Buckets)
      → IsMap m
      → Within key limit window start cs
      → 0 < limit
      → allowed_count key cs m ≤ left limit (Map.get key m) + limit
  unfolding allowed_count
  any_count_bounds [] m u within some_calls = omega arith
  any_count_bounds ((k, l, w, now) ∷ cs) m u (from, until, same, within) some_calls =
      elim (Bool-cases (k == key)) [
        | inl own ↦
            let is_key = (eq_iff k key).0 own in
            let (is_limit, is_window) = same is_key in
            rw (is_key, is_limit, is_window, eq_refl key)
              (own_count_bounds now cs m (Map.get key m) u from within some_calls refl
                (λ next v. any_count_bounds cs next v within some_calls))
        | inr other ↦
            let next = (rate_limit k l w now m).1 in
            let fewer =
              Swept-left now _ _ (other-Swept key limit window start k l w now m u other) in
            let rest =
              any_count_bounds cs next (rate_limit-IsMap key limit window start k l w now m u)
                within some_calls in
            rw other (omega arith)
      ]

  room_bounds :
      (n : ℕ) (o : Option Bucket)
      → n ≤ left limit o + limit
      → (IsOver start o → n ≤ limit)
      → (n ≤ room limit start o + limit) × (n ≤ limit + limit)
  room_bounds n none h over = (omega arith, omega arith)
  room_bounds n (some b) h over = elim (Bool-cases (leb b.reset_at start)) [
    | inl late ↦
        let few = over (inr (b, refl, leb→le _ _ late)) in rw late (omega arith, omega arith)
    | inr live ↦ rw live (h, omega arith)
  ]

  -- Where the limit is not 0, the calls of a key within one window that are allowed are at most the
  -- limit and what is left of a window of the key that is open at the start: the limit alone where
  -- the key has no bucket then or one whose window is over, and twice the limit at most. This holds
  -- whatever the calls of other keys are and in whatever order the times come.
  pub allowed_count_bounds :
      (cs : List Call) (m : Buckets)
      → IsMap m
      → Within key limit window start cs
      → 0 < limit
      → (allowed_count key cs m ≤ room limit start (Map.get key m) + limit)
        × (allowed_count key cs m ≤ limit + limit)
  allowed_count_bounds cs m u within some_calls =
      room_bounds (allowed_count key cs m) (Map.get key m)
        (any_count_bounds cs m u within some_calls) (over_count_bounds cs m u within some_calls)
