-- ===== src/Web/Callee.antt =====
-- Frontend/lib/call-server.ts: the runtimes of the agents that the server hosts. An agent is known by
-- the number of its start. The identities, the compute clients and the rows of prompt skills are
-- parameters, each call with what it gives. A boot is taken whole: the source awaits within it, and
-- the model has no second boot in between. The mark of a boot and the storage are left out.
pub mod Tracked
pub mod Variants
pub mod Boots
use Prim.Native.String.{◌++◌ as append}
use agentdir_open_agents.Base.{
  ℕ, suc, String, Bool, true, false, not, Option, none, some, List, [], ◌∷◌, ◌++◌, ◌==◌, eqb,
  if◌then◌else◌,
}
use agentdir_open_agents.Js.Map
use agentdir_open_agents.Js.Map.{Map}
use agentdir_open_agents.Js.Text.{is_filled}
use agentdir_open_agents.Js.Text.Parts.{split, first_part}
use agentdir_open_agents.Js.Result.{Result, ok, throw, ◌>>=◌}
use agentdir_open_agents.Agent.Bus.{Buses, connect}
use agentdir_open_agents.Agent.Skills.{
  Compute, SkillRegistry, PromptSkillInput, add, summarize, sentiment, make_prompt_skill,
}
use agentdir_open_agents.Web.Identity.Store.{AgentIdentity}

pub record CalleeRuntime : Type 0 where
  pub handle : String
  pub ens : String
  pub agent : ℕ
  pub identity : AgentIdentity
  pub skills : SkillRegistry
  pub compute : Compute
  pub tee : Bool

-- `runtimes`, the buses of the process, and the agents that run, the oldest first.
pub record World : Type 0 where
  pub runtimes : Map CalleeRuntime
  pub buses : Buses
  pub running : List ℕ
  pub started : ℕ

-- `${ens}:tee`
abbrev pub tee_key : String → String
tee_key ens = append ens ":tee"

abbrev pub key_of : String → Bool → String
key_of ens tee = if tee then tee_key ens else ens

unfoldable pub ens_to_handle : String → Result String
unfolding split
ens_to_handle ens =
    let first = first_part (split b'.' ens) in
    if is_filled first then ok first else throw "invalid ens"

-- The variables of the environment.
pub record Env : Type 0 where
  pub zerog_api_key : Option String
  pub private_key : Option String
  pub zerog_provider : Option String

abbrev pub is_set : Option String → Bool
is_set none = false
is_set (some t) = is_filled t

-- `router` and `direct` are what `new Compute` and `DirectCompute.create` give.
unfoldable pub build_compute : Env → Compute → Result Compute → Bool → Result Compute
build_compute env router direct use_tee =
    if not (is_set env.zerog_api_key)
    then throw "ZEROG_API_KEY missing on server"
    else if not use_tee
    then ok router
    else if not (is_set env.private_key)
    then throw "PRIVATE_KEY missing — needed for DirectCompute broker auth"
    else if not (is_set env.zerog_provider)
    then throw "ZEROG_PROVIDER env missing for TEE mode"
    else direct

-- `agent.stop`
unfoldable pub without : ℕ → List ℕ → List ℕ
without n [] = []
without n (m ∷ ms) = let rest = without n ms in if eqb m n then rest else m ∷ rest

abbrev pub stopped_if : String → Option CalleeRuntime → World → World
stopped_if key none w = w
stopped_if key (some rt) w = record w {
  runtimes = Map.delete key w.runtimes;
  running = without rt.agent w.running;
}

-- The runtime of the key is stopped and deleted, if there is one.
unfoldable pub stop_key : String → World → World
unfolding without
stop_key key w = stopped_if key (Map.get key w.runtimes) w

-- Stops both variants.
unfoldable pub evict_runtime : String → World → World
unfolding stop_key
evict_runtime ens w = stop_key (tee_key ens) (stop_key ens w)

-- The skills that an agent starts with; rows that cannot be read are no skills.
abbrev pub customs_of : Result (List PromptSkillInput) → List PromptSkillInput
customs_of (ok cs) = cs
customs_of (throw e) = []

abbrev pub add_customs : List PromptSkillInput → SkillRegistry → SkillRegistry
add_customs [] skills = skills
add_customs (c ∷ cs) skills = add_customs cs (add (make_prompt_skill c) skills)

unfoldable pub skills_of : Result (List PromptSkillInput) → SkillRegistry
skills_of customs = add_customs (customs_of customs) (add sentiment (add summarize []))

module _ (load_identity : String → Result AgentIdentity)
    (list_prompt_skills : String → Result (List PromptSkillInput)) (env : Env) (router : Compute)
    (direct : Result Compute) where
  abbrev pub runtime_for : String → String → Bool → AgentIdentity → Compute → ℕ → CalleeRuntime
  runtime_for ens handle tee identity compute agent = record {
    handle = handle;
    ens = ens;
    agent = agent;
    identity = identity;
    skills = skills_of (list_prompt_skills handle);
    compute = compute;
    tee = tee;
  }

  -- The agent is made, started and kept.
  abbrev pub started_with :
      String → String → Bool → AgentIdentity → Compute → World → Result CalleeRuntime × World
  started_with ens handle tee identity compute w =
      let rt = runtime_for ens handle tee identity compute w.started in
      (
        ok rt,
        record w {
          runtimes = Map.set (key_of ens tee) rt w.runtimes;
          running = w.running ++ w.started ∷ [];
          started = suc w.started;
        },
      )

  abbrev pub with_compute :
      String → String → Bool → AgentIdentity → Result Compute → World → Result CalleeRuntime × World
  with_compute ens handle tee identity (ok compute) w =
      started_with ens handle tee identity compute w
  with_compute ens handle tee identity (throw e) w = (throw e, w)

  -- The other variant of the name is torn down, and the bus of the key is there.
  abbrev pub switched : String → Bool → AgentIdentity → World → World
  switched ens tee identity w =
      let torn = stop_key (key_of ens (not tee)) w in
      record torn { buses = connect identity.axl_pubkey_hex torn.buses }

  abbrev pub with_identity :
      String → String → Bool → Result AgentIdentity → World → Result CalleeRuntime × World
  with_identity ens handle tee (ok identity) w =
      with_compute ens handle tee identity (build_compute env router direct tee)
        (switched ens tee identity w)
  with_identity ens handle tee (throw e) w = (throw e, w)

  abbrev pub with_handle : String → Bool → Result String → World → Result CalleeRuntime × World
  with_handle ens tee (ok handle) w = with_identity ens handle tee (load_identity handle) w
  with_handle ens tee (throw e) w = (throw e, w)

  abbrev pub boot_key : String → Bool → Option CalleeRuntime → World → Result CalleeRuntime × World
  boot_key ens tee (some cached) w = (ok cached, w)
  boot_key ens tee none w = with_handle ens tee (ens_to_handle ens) w

  unfoldable pub boot_callee : String → Bool → World → Result CalleeRuntime × World
  unfolding stop_key skills_of build_compute ens_to_handle
  boot_callee ens tee w = boot_key ens tee (Map.get (key_of ens tee) w.runtimes) w
