-- ===== src/Web/Auth/Once/Bound.antt =====
-- A nonce of Frontend/lib/wallet-auth.ts is accepted at most once, however the requests interleave.
use agentdir_open_agents.Base.{
  ℕ, ◌+◌, ◌≤◌, ◌≡◌, refl, inl, inr, String, Bool, true, false, List, [], ◌∷◌, Bool-cases, arith,
}
use agentdir_open_agents.Js.Map
use agentdir_open_agents.Js.Map.{IsMap, get-set, get-delete, set-IsMap, delete-IsMap}
use agentdir_open_agents.Js.Result.{Result}
use agentdir_open_agents.Web.Auth.Once.{Event, World, run}
use agentdir_open_agents.Web.Auth.Once.Single.{count, issued_nonce, IsSingle, uses}
use agentdir_open_agents.Web.Auth.Once.Steps.{or_false, happens-IsSingle}

abbrev pub no_world : World
no_world = record { rows = []; waiting = []; accepted = [] }

abbrev pub one_if : Bool → ℕ
one_if true = 1
one_if false = 0

module _ (n : String) where
  -- How many of the events issue the nonce.
  abbrev pub issue_count : List Event → ℕ
  issue_count [] = 0
  issue_count (e ∷ es) = one_if (issued_nonce n e) + issue_count es

module _ (is_address : String → Bool) (verify_message : String → String → String → Result Bool)
    (n : String) where
  run-IsSingle :
      (es : List Event) (known : Bool) (w : World)
      → one_if known + issue_count n es ≤ 1
      → IsSingle n known w
      → uses n (run is_address verify_message es w) ≤ 1
  unfolding run
  run-IsSingle [] known w h s = s.single
  run-IsSingle (e ∷ es) known w h s = elim (Bool-cases (issued_nonce n e)) [
    | inl now ↦
        let new : known ≡ false = elim (Bool-cases known) [
          | inr k ↦ k
          | inl k ↦ let twice : ⊥ = omega (arith, rw (now, k) at h) in absurd twice
        ] in
        run-IsSingle es true _ (omega (arith, rw (now, new) at h))
          (rw (now, new) at (happens-IsSingle is_address verify_message n known e w (λ _. new) s))
    | inr other ↦ run-IsSingle es known _ (omega (arith, rw other at h)) (
        rw (other, or_false known) at
          (happens-IsSingle is_address verify_message n known e w (λ y. absurd (cc y)) s))
  ]

  -- If a sequence of challenges, beginnings and ends of requests, and deletions of rows that are over
  -- issues the nonce at most once, then from no rows at all the sequence accepts the nonce at most
  -- once, in any order of the steps.
  pub run-accepted_once :
      (es : List Event)
      → issue_count n es ≤ 1
      → count n (run is_address verify_message es no_world).accepted ≤ 1
  unfolding Map.get
  run-accepted_once es h =
      let total = run-IsSingle es false no_world (omega (arith, h)) (record {
        is_map = tt;
        single = omega arith;
        shut = inl refl;
        unknown = λ _. (refl, refl);
      }) in
      omega (arith, total)
