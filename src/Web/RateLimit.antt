-- ===== src/Web/RateLimit.antt =====
-- Frontend/lib/rate-limit.ts: a limiter with one fixed window for each key. The map of the module is
-- the state.
pub mod Sweep
pub mod Open
pub mod Window
use agentdir_open_agents.Base.{
  ℕ, ◌+◌, ◌-◌, String, Bool, true, false, ◌||◌, Option, none, some, List, [], ◌∷◌, leb, ltb,
  if◌then◌else◌,
}
use agentdir_open_agents.Base.Int.{ℤ, pos, ◌-ℤ◌}
use agentdir_open_agents.Js.Map
use agentdir_open_agents.Js.Map.{Map, size}
use agentdir_open_agents.Js.Text.{is_filled}
use agentdir_open_agents.Js.Text.Parts.{split, trim, first_part}

pub record Bucket : Type 0 where
  pub count : ℕ
  pub reset_at : ℕ

abbrev pub Buckets : Type 0
Buckets = Map Bucket

abbrev pub max_buckets : ℕ
max_buckets = 5000

pub record RateLimitResult : Type 0 where
  pub allowed : Bool
  pub remaining : ℤ
  pub reset_at : ℕ

-- The loop of `gc` over the entries, which deletes only the one that it is at.
unfoldable pub gc_loop : ℕ → List (String × Bucket) → Buckets → Buckets
gc_loop now [] m = m
gc_loop now ((k, b) ∷ rest) m =
    let next = if leb b.reset_at now then Map.delete k m else m in
    let last = gc_loop now rest next in if ltb (size next) 2500 then next else last

unfoldable pub gc : ℕ → Buckets → Buckets
unfolding gc_loop
gc now m = gc_loop now m m

abbrev pub made_room : ℕ → Buckets → Buckets
made_room now m = if leb max_buckets (size m) then gc now m else m

-- A call that finds no bucket, or one whose window is over.
abbrev pub opened : String → ℕ → ℕ → ℕ → Buckets → RateLimitResult × Buckets
opened key limit window now m = (
  record { allowed = true; remaining = pos limit -ℤ pos 1; reset_at = now + window },
  Map.set key (record { count = 1; reset_at = now + window }) (made_room now m),
)

abbrev pub counted : String → ℕ → Bucket → Buckets → RateLimitResult × Buckets
counted key limit b m =
    let count = b.count + 1 in
    (
      record { allowed = leb count limit; remaining = pos (limit - count); reset_at = b.reset_at },
      Map.set key (record { count = count; reset_at = b.reset_at }) m,
    )

abbrev pub on_bucket : String → ℕ → ℕ → ℕ → Option Bucket → Buckets → RateLimitResult × Buckets
on_bucket key limit window now none m = opened key limit window now m
on_bucket key limit window now (some b) m =
    if leb b.reset_at now then opened key limit window now m else counted key limit b m

-- `now` is `Date.now()`.
unfoldable pub rate_limit : String → ℕ → ℕ → ℕ → Buckets → RateLimitResult × Buckets
unfolding gc
rate_limit key limit window now m = on_bucket key limit window now (Map.get key m) m

-- The address of a client: the first of `x-forwarded-for`, or `x-real-ip`.
abbrev pub real_ip : Option String → String
real_ip none = "unknown"
real_ip (some ip) = if is_filled ip then ip else "unknown"

abbrev pub forwarded_ip : Option String → Option String → String
forwarded_ip none real = real_ip real
forwarded_ip (some xff) real =
    if is_filled xff then trim (first_part (split b',' xff)) else real_ip real

unfoldable pub client_ip : (String → Option String) → String
unfolding trim split
client_ip header = forwarded_ip (header "x-forwarded-for") (header "x-real-ip")
