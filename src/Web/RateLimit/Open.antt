-- ===== src/Web/RateLimit/Open.antt =====
-- The calls of a window that is open, for `rateLimit` of Frontend/lib/rate-limit.ts.
use agentdir_open_agents.Base.{
  ℕ, ◌+◌, ◌-◌, ◌≤◌, ◌<◌, ◌≡◌, refl, inl, inr, String, Bool, true, false, Option, none, some, List,
  [], ◌∷◌, ◌==◌, eq_iff, eq_refl, leb, Bool-cases, Option-cases, if◌then◌else◌, arith,
}
use agentdir_open_agents.Js.Map
use agentdir_open_agents.Js.Map.{IsMap, get-set, get-set_self, set-IsMap}
use agentdir_open_agents.Web.RateLimit.{
  Bucket, Buckets, RateLimitResult, rate_limit, counted, made_room,
}
use agentdir_open_agents.Web.RateLimit.Sweep.{Swept, Swept-live, made_room-Swept}

-- The key, the limit, the window and the time of a call.
abbrev pub Call : Type 0
Call = String × ℕ × ℕ × ℕ

abbrev pub one_if : Bool → ℕ
one_if true = 1
one_if false = 0

-- What is left of a bucket.
abbrev pub left : ℕ → Option Bucket → ℕ
left limit none = 0
left limit (some b) = limit - b.count

module _ (key : String) where
  abbrev pub allowed_one : String → RateLimitResult → ℕ
  allowed_one k r = if k == key then one_if r.allowed else 0

  -- How many of the calls of the key are allowed, one call after another.
  unfoldable pub allowed_count : List Call → Buckets → ℕ
  allowed_count [] m = 0
  allowed_count ((k, l, w, now) ∷ cs) m =
      let (r, next) = rate_limit k l w now m in allowed_one k r + allowed_count cs next

  module _ (limit window start : ℕ) where
    -- The calls of the key have the limit and the window, and all calls come within one window.
    abbrev pub Within : List Call → Type 0
    Within [] = Unit
    Within ((k, l, w, now) ∷ cs) =
        (start ≤ now) × (now < start + window) × (k ≡ key → (l ≡ limit) × (w ≡ window)) × Within cs

    pub rate_limit-IsMap :
        (k : String) (l w now : ℕ) (m : Buckets) → IsMap m → IsMap (rate_limit k l w now m).1
    unfolding rate_limit
    rate_limit-IsMap k l w now m u = elim (Option-cases (Map.get k m)) [
      | inl absent ↦ rw absent (set-IsMap k _ _ (made_room-Swept now k m u).1)
      | inr (b, there) ↦ elim (Bool-cases (leb b.reset_at now)) [
        | inl over ↦ rw (there, over) (set-IsMap k _ _ (made_room-Swept now k m u).1)
        | inr live ↦ rw (there, live) (set-IsMap k _ m u)
      ]
    ]

    -- A call of another key sweeps the bucket of the key at most.
    pub other-Swept :
        (k : String) (l w now : ℕ) (m : Buckets)
        → IsMap m
        → (k == key) ≡ false
        → Swept now (Map.get key m) (Map.get key (rate_limit k l w now m).1)
    unfolding rate_limit
    other-Swept k l w now m u other = elim (Option-cases (Map.get k m)) [
      | inl absent ↦
          rw (absent, get-set k key _ (made_room now m), other) (made_room-Swept now key m u).0
      | inr (b, there) ↦ elim (Bool-cases (leb b.reset_at now)) [
        | inl over ↦
            rw (there, over, get-set k key _ (made_room now m), other)
              (made_room-Swept now key m u).0
        | inr live ↦ rw (there, live, get-set k key _ m, other) (inl refl)
      ]
    ]

    pub own_live :
        (now : ℕ) (b : Bucket) (m : Buckets)
        → Map.get key m ≡ some b
        → now < b.reset_at
        → rate_limit key limit window now m ≡ counted key limit b m
    unfolding rate_limit
    own_live now b m there live =
        let early : leb b.reset_at now ≡ false = ground arith in rw (there, early) refl

    counted_one :
        (b : Bucket) (rest : ℕ)
        → rest ≤ limit - (b.count + 1)
        → one_if (leb (b.count + 1) limit) + rest ≤ limit - b.count
    counted_one b rest h = ground arith

    -- A window that ends after all the calls allows what is left of it.
    pub open_count_bounds :
        (cs : List Call) (b : Bucket) (m : Buckets)
        → IsMap m
        → Within cs
        → Map.get key m ≡ some b
        → start + window ≤ b.reset_at
        → allowed_count cs m ≤ limit - b.count
    unfolding allowed_count
    open_count_bounds [] b m u within there late = omega arith
    open_count_bounds ((k, l, w, now) ∷ cs) b m u (from, until, same, within) there late =
        elim (Bool-cases (k == key)) [
          | inl own ↦
              let is_key = (eq_iff k key).0 own in
              let (is_limit, is_window) = same is_key in
              let used : Bucket = record { count = b.count + 1; reset_at = b.reset_at } in
              let rest =
                open_count_bounds cs used (Map.set key used m) (set-IsMap key used m u) within
                  (get-set_self key used m) late in
              rw (is_key, is_limit, is_window, eq_refl key, own_live now b m there (omega arith))
                (counted_one b (allowed_count cs (Map.set key used m)) rest)
          | inr other ↦
              let next = (rate_limit k l w now m).1 in
              let stays =
                Swept-live now _ _ b (other-Swept k l w now m u other) there (omega arith) in
              let rest =
                open_count_bounds cs b next (rate_limit-IsMap k l w now m u) within stays late in
              rw other (omega arith)
        ]
