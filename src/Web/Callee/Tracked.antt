-- ===== src/Web/Callee/Tracked.antt =====
-- The runtimes of Frontend/lib/call-server.ts against the agents that run.

use agentdir_open_agents.Base.{
  ℕ, suc, ◌≤◌, String, true, false, none, some, List, [], ◌∷◌, ◌++◌, ◌==◌, ◌≡◌, refl, sym, ap, inl,
  inr, eqb, Bool-cases, arith,
}
use agentdir_open_agents.Js.Map
use agentdir_open_agents.Js.Map.{Map, IsMap, get-set, get-delete, set-IsMap, delete-IsMap}
use agentdir_open_agents.Web.Callee.{CalleeRuntime, without}

abbrev pub agents : Map CalleeRuntime → List ℕ
agents [] = []
agents ((k, rt) ∷ m) = rt.agent ∷ agents m

-- Numbers that rise, from the first bound on and below the second.
abbrev pub Rising : ℕ → ℕ → List ℕ → Type 0
Rising low high [] = low ≤ high
Rising low high (n ∷ ns) = (low ≤ n) × Rising (suc n) high ns

Rising-lower :
    (low mid high : ℕ) (ns : List ℕ) → low ≤ mid → Rising mid high ns → Rising low high ns
Rising-lower low mid high [] h r = omega (arith, h, r)
Rising-lower low mid high (n ∷ ns) h (first, r) = (omega (arith, h, first), r)

pub Rising-append :
    (low high : ℕ) (ns : List ℕ) → Rising low high ns → Rising low (suc high) (ns ++ high ∷ [])
Rising-append low high [] r = (r, omega arith)
Rising-append low high (n ∷ ns) (first, r) = (first, Rising-append (suc n) high ns r)

pub without-Rising :
    (n low high : ℕ) (ns : List ℕ) → Rising low high ns → Rising low high (without n ns)
unfolding without
without-Rising n low high [] r = r
without-Rising n low high (m ∷ ms) (first, r) = elim (Bool-cases (eqb m n)) [
  | inl same ↦ rw same (
      Rising-lower low (suc m) high (without n ms) (omega (arith, first))
        (without-Rising n (suc m) high ms r))
  | inr other ↦ rw other (first, without-Rising n (suc m) high ms r)
]

without_below :
    (n low high : ℕ) (ns : List ℕ) → suc n ≤ low → Rising low high ns → without n ns ≡ ns
unfolding without
without_below n low high [] h r = refl
without_below n low high (m ∷ ms) h (first, r) =
    let apart : eqb m n ≡ false = ground arith in
    rw apart (ap (λ t. m ∷ t) (without_below n (suc m) high ms (omega (arith, h, first)) r))

pub agents-set :
    (k : String) (rt : CalleeRuntime) (m : Map CalleeRuntime)
    → Map.get k m ≡ none
    → agents (Map.set k rt m) ≡ agents m ++ rt.agent ∷ []
unfolding Map.get Map.set
agents-set k rt [] absent = refl
agents-set k rt ((j, v) ∷ m) absent = elim (Bool-cases (j == k)) [
  | inl here ↦ cc (rw here at absent)
  | inr other ↦ rw other (ap (λ t. v.agent ∷ t) (agents-set k rt m (rw other at absent)))
]

get-agent :
    (k : String) (rt : CalleeRuntime) (m : Map CalleeRuntime) (low high : ℕ)
    → Map.get k m ≡ some rt
    → Rising low high (agents m)
    → low ≤ rt.agent
unfolding Map.get
get-agent k rt [] low high there r = cc there
get-agent k rt ((j, v) ∷ m) low high there (first, r) = elim (Bool-cases (j == k)) [
  | inl here ↦
      let found : some v ≡ some rt = rw here at there in
      let same : v ≡ rt = cc found in rw (← ap (λ x. x.agent) same) first
  | inr other ↦
      let later = get-agent k rt m (suc v.agent) high (rw other at there) r in
      omega (arith, first, later)
]

pub agents-delete :
    (k : String) (rt : CalleeRuntime) (m : Map CalleeRuntime) (low high : ℕ)
    → Map.get k m ≡ some rt
    → Rising low high (agents m)
    → agents (Map.delete k m) ≡ without rt.agent (agents m)
unfolding Map.get Map.delete without
agents-delete k rt [] low high there r = cc
agents-delete k rt ((j, v) ∷ m) low high there (first, r) = elim (Bool-cases (j == k)) [
  | inl here ↦
      let found : some v ≡ some rt = rw here at there in
      let whole : v ≡ rt = cc found in
      let same : v.agent ≡ rt.agent = ap (λ (x : CalleeRuntime). x.agent) whole in
      let equal : eqb v.agent rt.agent ≡ true = ground arith in
      let kept = without_below v.agent (suc v.agent) high (agents m) (omega arith) r in
      rw (here, equal) (sym (rw same at kept))
  | inr other ↦
      let later = get-agent k rt m (suc v.agent) high (rw other at there) r in
      let apart : eqb v.agent rt.agent ≡ false = ground arith in
      rw (other, apart)
        (ap (λ t. v.agent ∷ t) (agents-delete k rt m (suc v.agent) high (rw other at there) r))
]
