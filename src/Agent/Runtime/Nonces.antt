-- ===== src/Agent/Runtime/Nonces.antt =====
-- The nonces that `rejectStale` of packages/agent/src/agent.ts has seen, oldest first.
use Prim.Native.String.{◌++◌}
use agentdir_open_agents.Base.{
  ℕ, suc, ◌+◌, ◌≤◌, ◌<◌, ◌≡◌, ◌⊎◌, inl, inr, String, true, false, none, some, [], ◌∷◌, arith, ltb,
  ◌==◌, eq_refl, Bool-cases,
}
use agentdir_open_agents.Base.Int.{pos, ◌-ℤ◌, abs}
use agentdir_open_agents.Js.Map
use agentdir_open_agents.Js.Map.{Map, size, size-set}
use agentdir_open_agents.Js.Number.{number_text}
use agentdir_open_agents.Agent.Protocol.{SkillRequest}
use agentdir_open_agents.Agent.Runtime.{AgentOpts, Times}
use agentdir_open_agents.Agent.Runtime.Admit.{evict, max_request_age, nonce_cap, reject_stale}

-- The nonce stands in the map, with at most `k` nonces after it.
abbrev pub Held : ℕ → String → Map ℕ → Type 0
Held k n [] = ⊥
Held k n ((j, t) ∷ seen) = ((j == n) ≡ true) × (size seen ≤ k) ⊎ Held k n seen

pub Held-has : (k : ℕ) (n : String) (seen : Map ℕ) → Held k n seen → Map.has n seen ≡ true
unfolding Map.has
Held-has k n [] h = absurd h
Held-has k n ((j, t) ∷ seen) (inl h) = ground arith
Held-has k n ((j, t) ∷ seen) (inr h) = ground (arith, Held-has k n seen h)

pub Held-le : (k l : ℕ) (n : String) (seen : Map ℕ) → k ≤ l → Held k n seen → Held l n seen
Held-le k l n [] p h = h
Held-le k l n ((j, t) ∷ seen) p (inl (e, f)) = inl (e, omega arith)
Held-le k l n ((j, t) ∷ seen) p (inr h) = inr (Held-le k l n seen p h)

pub Held-set_self :
    (n : String) (t : ℕ) (seen : Map ℕ) → Map.has n seen ≡ false → Held 0 n (Map.set n t seen)
unfolding Map.has Map.set
Held-set_self n t [] h = inl (eq_refl n, omega arith)
Held-set_self n t ((j, u) ∷ seen) h = elim (Bool-cases (j == n)) [
  | inl same ↦ cc (rw same at h)
  | inr other ↦ rw other (inr (Held-set_self n t seen (rw other at h)))
]

pub Held-set :
    (k : ℕ) (n r : String) (t : ℕ) (seen : Map ℕ)
    → Map.has r seen ≡ false
    → Held k n seen
    → Held (suc k) n (Map.set r t seen)
unfolding Map.has Map.set
Held-set k n r t [] f h = absurd h
Held-set k n r t ((j, u) ∷ seen) f (inl (e, fits)) = elim (Bool-cases (j == r)) [
  | inl same ↦ cc (rw same at f)
  | inr other ↦ let new = rw other at f in rw other (inl (e, ground (arith, size-set r t seen)))
]
Held-set k n r t ((j, u) ∷ seen) f (inr h) = elim (Bool-cases (j == r)) [
  | inl same ↦ cc (rw same at f)
  | inr other ↦ rw other (inr (Held-set k n r t seen (rw other at f) h))
]

pub Held-evict :
    (k cap : ℕ) (n : String) (seen : Map ℕ) → k < cap → Held k n seen → Held k n (evict cap seen)
unfolding evict Map.delete
Held-evict k cap n [] p h = absurd h
Held-evict k cap n ((j, t) ∷ seen) p (inl (e, fits)) =
    let small : ltb cap (suc (size seen)) ≡ false = ground arith in rw small (inl (e, fits))
Held-evict k cap n ((j, t) ∷ seen) p (inr h) = elim (Bool-cases (ltb cap (suc (size seen)))) [
  | inl full ↦ rw (full, eq_refl j) h
  | inr room ↦ rw room (inr h)
]

pub size-evict : (cap : ℕ) (seen : Map ℕ) → size seen ≤ cap + 1 → size (evict cap seen) ≤ cap
unfolding evict Map.delete
size-evict cap [] h = ground arith
size-evict cap ((j, t) ∷ seen) h = ground (arith, eq_refl j)

module _ (opts : AgentOpts) (times : Times) (req : SkillRequest) where
  pub reject_stale-Held :
      (k : ℕ) (n : String) (seen : Map ℕ)
      → suc k < nonce_cap opts
      → Held k n seen
      → Held (suc k) n (reject_stale opts times req seen).1
  unfolding reject_stale
  reject_stale-Held k n seen room h =
      let older = Held-le k (suc k) n seen (omega arith) h in
      elim (Bool-cases (ltb (max_request_age opts) (abs (pos times.checked -ℤ req.ts)))) [
        | inl stale ↦ rw stale older
        | inr fresh ↦ elim (Bool-cases (Map.has req.nonce seen)) [
          | inl old ↦ rw (fresh, old) older
          | inr new ↦
              rw (fresh, new)
                (Held-evict (suc k) _ n _ room (Held-set k n req.nonce times.noted seen new h))
        ]
      ]

  pub reject_stale-Held_self :
      (seen : Map ℕ)
      → 0 < nonce_cap opts
      → (reject_stale opts times req seen).0 ≡ none
      → Held 0 req.nonce (reject_stale opts times req seen).1
  unfolding reject_stale
  reject_stale-Held_self seen room passed =
      elim (Bool-cases (ltb (max_request_age opts) (abs (pos times.checked -ℤ req.ts)))) [
        | inl stale ↦ cc (rw stale at passed)
        | inr fresh ↦ elim (Bool-cases (Map.has req.nonce seen)) [
          | inl old ↦ cc (rw (fresh, old) at passed)
          | inr new ↦
              rw (fresh, new)
                (Held-evict 0 _ req.nonce _ room (Held-set_self req.nonce times.noted seen new))
        ]
      ]

  pub reject_stale-size :
      (seen : Map ℕ)
      → size seen ≤ nonce_cap opts
      → size (reject_stale opts times req seen).1 ≤ nonce_cap opts
  unfolding reject_stale
  reject_stale-size seen h =
      let next = Map.set req.nonce times.noted seen in
      ground (arith, size-evict (nonce_cap opts) next, size-set req.nonce times.noted seen)

  -- A nonce that is held is never let through a second time.
  pub reject_stale-again :
      (k : ℕ) (seen : Map ℕ)
      → Held k req.nonce seen
      → (why : String) × (reject_stale opts times req seen ≡ (some why, seen))
  unfolding reject_stale
  reject_stale-again k seen h =
      elim (Bool-cases (ltb (max_request_age opts) (abs (pos times.checked -ℤ req.ts)))) [
        | inl stale ↦ ("stale: " ++ (number_text (pos times.checked -ℤ req.ts) ++ "ms"), rw stale)
        | inr fresh ↦ ("replay", rw (fresh, Held-has k req.nonce seen h))
      ]
