-- ===== src/Web/Callee/Boots.antt =====
-- Sequences of boots and evictions of Frontend/lib/call-server.ts.
use text.Mathlib.TextLemmas.{append_cancel_right}
use agentdir_open_agents.Base.{
  String, Bool, true, false, not, none, List, [], ◌∷◌, ◌==◌, ◌≡◌, refl, inl, inr, eq_iff,
  Bool-cases, Option-cases, arith,
}
use agentdir_open_agents.Js.Map
use agentdir_open_agents.Js.Map.{Map, IsMap, get-set, get-delete, set-IsMap, delete-IsMap}
use agentdir_open_agents.Js.Result.{Result, ok, Result-cases}
use agentdir_open_agents.Agent.Bus.{Buses}
use agentdir_open_agents.Agent.Skills.{Compute, PromptSkillInput}
use agentdir_open_agents.Web.Identity.Store.{AgentIdentity}
use agentdir_open_agents.Web.Callee.{
  CalleeRuntime, World, Env, tee_key, key_of, stop_key, evict_runtime, boot_callee, ens_to_handle,
  build_compute, with_identity, switched, runtime_for, started_with,
}
use agentdir_open_agents.Web.Callee.Tracked.{agents, Rising-append, agents-set}
use agentdir_open_agents.Web.Callee.Variants.{
  has_colon, IsTracked, OneVariant, stop_key-IsTracked, stop_key-none, stop_key-still,
  tee_key_apart, plain_apart,
}

pub data Event : Type 0 where
  boots : String → Bool → Event
  evicts : String → Event

-- The names that are booted have no colon.
abbrev pub ArePlain : List Event → Type 0
ArePlain [] = Unit
ArePlain (boots ens tee ∷ es) = (has_colon ens ≡ false) × ArePlain es
ArePlain (evicts ens ∷ es) = ArePlain es

set-still :
    (k j : String) (rt : CalleeRuntime) (m : Map CalleeRuntime)
    → (k == j) ≡ false
    → Map.get j m ≡ none
    → Map.get j (Map.set k rt m) ≡ none
set-still k j rt m apart absent = rw (get-set k j rt m, apart) absent

-- A runtime that is set under a key of the name, where neither key was there.
set-OneVariant :
    (ens : String) (tee : Bool) (rt : CalleeRuntime) (m : Map CalleeRuntime)
    → has_colon ens ≡ false
    → Map.get (key_of ens (not tee)) m ≡ none
    → ((e : String) → has_colon e ≡ false → OneVariant m e)
    → (e : String) → has_colon e ≡ false
    → OneVariant (Map.set (key_of ens tee) rt m) e
set-OneVariant ens false rt m plain other one e e_plain = elim (Bool-cases (ens == e)) [
  | inl own ↦ inr (
      rw (← (eq_iff ens e).0 own)
        (set-still ens (tee_key ens) rt m (plain_apart ens ens plain) other))
  | inr apart ↦ elim (one e e_plain) [
    | inl absent ↦ inl (set-still ens e rt m apart absent)
    | inr absent ↦ inr (set-still ens (tee_key e) rt m (plain_apart ens e plain) absent)
  ]
]
set-OneVariant ens true rt m plain other one e e_plain =
    elim (Bool-cases (tee_key ens == tee_key e)) [
      | inl own ↦
          let same : ens ≡ e =
            append_cancel_right ens e ":tee" ((eq_iff (tee_key ens) (tee_key e)).0 own) in
          inl (set-still (tee_key ens) e rt m (tee_key_apart e ens e_plain) (rw same at other))
      | inr apart ↦ elim (one e e_plain) [
        | inl absent ↦ inl (set-still (tee_key ens) e rt m (tee_key_apart e ens e_plain) absent)
        | inr absent ↦ inr (set-still (tee_key ens) (tee_key e) rt m apart absent)
      ]
    ]

-- The keys of the two variants of a name differ.
keys_apart :
    (ens : String) (tee : Bool)
    → has_colon ens ≡ false
    → (key_of ens (not tee) == key_of ens tee) ≡ false
keys_apart ens false plain = tee_key_apart ens ens plain
keys_apart ens true plain = plain_apart ens ens plain

module _ (load_identity : String → Result AgentIdentity)
    (list_prompt_skills : String → Result (List PromptSkillInput)) (env : Env) (router : Compute)
    (direct : Result Compute) where
  start-IsTracked :
      (ens handle : String) (tee : Bool) (identity : AgentIdentity) (compute : Compute) (w : World)
      → has_colon ens ≡ false
      → Map.get (key_of ens tee) w.runtimes ≡ none
      → Map.get (key_of ens (not tee)) w.runtimes ≡ none
      → IsTracked w
      → IsTracked
          (started_with load_identity list_prompt_skills env router direct ens handle tee identity
            compute w).1
  start-IsTracked ens handle tee identity compute w plain absent other t =
      let rt =
        runtime_for load_identity list_prompt_skills env router direct ens handle tee identity
          compute w.started in
      let more = agents-set (key_of ens tee) rt w.runtimes absent in
      record {
        is_map = set-IsMap (key_of ens tee) rt w.runtimes t.is_map;
        tracked = rw (more, t.tracked) refl;
        rising = rw more (Rising-append 0 w.started (agents w.runtimes) t.rising);
        one = set-OneVariant ens tee rt w.runtimes plain other t.one;
      }

  connected-IsTracked :
      (w : World) (buses : Buses) → IsTracked w → IsTracked (record w { buses = buses })
  connected-IsTracked w buses t = record {
    is_map = t.is_map;
    tracked = t.tracked;
    rising = t.rising;
    one = t.one;
  }

  identity-IsTracked :
      (ens handle : String) (tee : Bool) (identity : AgentIdentity) (w : World)
      → has_colon ens ≡ false
      → Map.get (key_of ens tee) w.runtimes ≡ none
      → IsTracked w
      → IsTracked
          (with_identity load_identity list_prompt_skills env router direct ens handle tee
            (ok identity)
            w).1
  identity-IsTracked ens handle tee identity w plain absent t =
      let ready = switched load_identity list_prompt_skills env router direct ens tee identity w in
      let torn = stop_key (key_of ens (not tee)) w in
      let torn_t = stop_key-IsTracked (key_of ens (not tee)) w t in
      let ready_t : IsTracked ready = connected-IsTracked torn ready.buses torn_t in
      elim (Result-cases (build_compute env router direct tee)) [
        | inl (compute, built) ↦ rw built (
            start-IsTracked ens handle tee identity compute ready plain
              (stop_key-still (key_of ens (not tee)) (key_of ens tee) w t.is_map absent)
              (stop_key-none (key_of ens (not tee)) w t.is_map) ready_t)
        | inr (e, failed) ↦ rw failed ready_t
      ]

  boot_callee-IsTracked :
      (ens : String) (tee : Bool) (w : World)
      → has_colon ens ≡ false
      → IsTracked w
      → IsTracked (boot_callee load_identity list_prompt_skills env router direct ens tee w).1
  unfolding boot_callee
  boot_callee-IsTracked ens tee w plain t =
      elim (Option-cases (Map.get (key_of ens tee) w.runtimes)) [
        | inr (cached, there) ↦ rw there t
        | inl absent ↦ elim (Result-cases (ens_to_handle ens)) [
          | inr (e, failed) ↦ rw (absent, failed) t
          | inl (handle, named) ↦ elim (Result-cases (load_identity handle)) [
            | inr (e, failed) ↦ rw (absent, named, failed) t
            | inl (identity, loaded) ↦
                rw (absent, named, loaded)
                  (identity-IsTracked ens handle tee identity w plain absent t)
          ]
        ]
      ]

  evict_runtime-IsTracked :
      (ens : String) (w : World) → IsTracked w → IsTracked (evict_runtime ens w)
  unfolding evict_runtime
  evict_runtime-IsTracked ens w t =
      stop_key-IsTracked (tee_key ens) (stop_key ens w) (stop_key-IsTracked ens w t)

  unfoldable pub happens : Event → World → World
  happens (boots ens tee) w =
      (boot_callee load_identity list_prompt_skills env router direct ens tee w).1
  happens (evicts ens) w = evict_runtime ens w

  unfoldable pub run : List Event → World → World
  unfolding happens
  run [] w = w
  run (e ∷ es) w = run es (happens e w)

  run-IsTracked_from :
      (es : List Event) (w : World) → ArePlain es → IsTracked w → IsTracked (run es w)
  unfolding run
  run-IsTracked_from [] w plain t = t
  run-IsTracked_from (boots ens tee ∷ es) w (plain, rest) t =
      run-IsTracked_from es _ rest (boot_callee-IsTracked ens tee w plain t)
  run-IsTracked_from (evicts ens ∷ es) w rest t =
      run-IsTracked_from es _ rest (evict_runtime-IsTracked ens w t)

  -- From a process without runtimes, after any boots and evictions, one after another and some of them
  -- failing, of names without a colon: the agents that run are those of the runtimes that are kept,
  -- each once and in the order of their starts; and no name without a colon has the variant with
  -- attestation and the one without it at once.
  pub run-IsTracked :
      (es : List Event) (buses : Buses)
      → ArePlain es
      → IsTracked (run es (record { runtimes = []; buses = buses; running = []; started = 0 }))
  unfolding Map.get
  run-IsTracked es buses plain =
      run-IsTracked_from es (record { runtimes = []; buses = buses; running = []; started = 0 })
        plain
        (record { is_map = tt; tracked = refl; rising = omega arith; one = λ ens p. inl refl })
