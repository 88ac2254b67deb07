-- ===== src/Web/RateLimit/Sweep.antt =====
-- `gc` of Frontend/lib/rate-limit.ts deletes only windows that are over.
use agentdir_open_agents.Base.{
  ℕ, ◌≤◌, ◌<◌, ◌≡◌, refl, ◌∙◌, ◌⊎◌, inl, inr, String, true, Option, none, some, List, [], ◌∷◌, ◌==◌,
  eq_iff, leb, ltb, leb→le, Bool-cases, arith,
}
use agentdir_open_agents.Js.Map
use agentdir_open_agents.Js.Map.{IsMap, Fresh, get-set, get-delete, delete-IsMap, set-IsMap}
use agentdir_open_agents.Web.RateLimit.{Bucket, Buckets, gc_loop, gc, made_room, max_buckets}

-- What a sweep leaves of the bucket of a key: the bucket, or nothing where its window is over.
abbrev pub Swept : ℕ → Option Bucket → Option Bucket → Type 0
Swept now before after =
    (after ≡ before) ⊎ ((after ≡ none) × (b : Bucket) × (before ≡ some b) × (b.reset_at ≤ now))

-- The entries stand in the map.
abbrev pub Stand : List (String × Bucket) → Buckets → Type 0
Stand [] m = Unit
Stand ((k, b) ∷ rest) m = (Map.get k m ≡ some b) × Stand rest m

Stand-delete :
    (k : String) (rest : List (String × Bucket)) (m : Buckets)
    → IsMap m
    → Fresh k rest
    → Stand rest m
    → Stand rest (Map.delete k m)
Stand-delete k [] m u f h = tt
Stand-delete k ((j, b) ∷ rest) m u f h =
    (ground (arith, get-delete k j m u, eq_iff j k, eq_iff k j), Stand-delete k rest m u f.1 h.1)

Stand-cons :
    (k : String) (b : Bucket) (rest : List (String × Bucket)) (m : Buckets)
    → Fresh k rest
    → Stand rest m
    → Stand rest ((k, b) ∷ m)
unfolding Map.get
Stand-cons k b [] m f h = tt
Stand-cons k b ((j, c) ∷ rest) m f h =
    (ground (arith, eq_iff j k, eq_iff k j), Stand-cons k b rest m f.1 h.1)

Stand-self : (m : Buckets) → IsMap m → Stand m m
unfolding Map.get
Stand-self [] u = tt
Stand-self ((k, b) ∷ m) u = (ground (arith, eq_iff k k), Stand-cons k b m m u.0 (Stand-self m u.1))

Swept-trans : (now : ℕ) (a b c : Option Bucket) → Swept now a b → Swept now b c → Swept now a c
Swept-trans now a b c (inl same) h = rw (← same) h
Swept-trans now a b c (inr (gone, bucket, had, over)) (inl same) =
    inr (same ∙ gone, bucket, had, over)
Swept-trans now a b c (inr (gone, bucket, had, over)) (inr (later, other, there, late)) = cc

gc_loop-Swept :
    (now : ℕ) (j : String) (rest : List (String × Bucket)) (m : Buckets)
    → IsMap m
    → IsMap rest
    → Stand rest m
    → Swept now (Map.get j m) (Map.get j (gc_loop now rest m)) × IsMap (gc_loop now rest m)
unfolding gc_loop
gc_loop-Swept now j [] m u v h = (inl refl, u)
gc_loop-Swept now j ((k, b) ∷ rest) m u v h = elim (Bool-cases (leb b.reset_at now)) [
  | inr live ↦
      let (swept, kept) = gc_loop-Swept now j rest m u v.1 h.1 in
      elim (Bool-cases (ltb (Map.size m) 2500)) [
        | inl enough ↦ rw (live, enough) (inl refl, u)
        | inr more ↦ rw (live, more) (swept, kept)
      ]
  | inl over ↦
      let next = Map.delete k m in
      let u' = delete-IsMap k m u in
      let (swept, kept) = gc_loop-Swept now j rest next u' v.1 (Stand-delete k rest m u v.0 h.1) in
      let first : Swept now (Map.get j m) (Map.get j next) = deleted over in
      elim (Bool-cases (ltb (Map.size next) 2500)) [
        | inl enough ↦ rw (over, enough) (first, u')
        | inr more ↦ rw (over, more) (Swept-trans now _ _ _ first swept, kept)
      ]
]
  where
    deleted : leb b.reset_at now ≡ true → Swept now (Map.get j m) (Map.get j (Map.delete k m))
    deleted over = elim (Bool-cases (k == j)) [
      | inr other ↦ inl (rw (get-delete k j m u, other) refl)
      | inl same ↦
          inr
            (rw (get-delete k j m u, same) refl, b, rw (← (eq_iff k j).0 same) h.0, leb→le _ _ over)
    ]

pub made_room-Swept :
    (now : ℕ) (j : String) (m : Buckets)
    → IsMap m
    → Swept now (Map.get j m) (Map.get j (made_room now m)) × IsMap (made_room now m)
unfolding gc
made_room-Swept now j m u = elim (Bool-cases (leb max_buckets (Map.size m))) [
  | inl full ↦ rw full (gc_loop-Swept now j m m u u (Stand-self m u))
  | inr room ↦ rw room (inl refl, u)
]

-- A bucket whose window is not over stays.
pub Swept-live :
    (now : ℕ) (before after : Option Bucket) (b : Bucket)
    → Swept now before after
    → before ≡ some b
    → now < b.reset_at
    → after ≡ some b
Swept-live now before after b (inl stays) had live = stays ∙ had
Swept-live now before after b (inr (gone, other, there, over)) had live =
    let equal : other ≡ b = cc in
    let late : b.reset_at ≤ now = rw equal at over in absurd (omega arith)
