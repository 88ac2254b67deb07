-- ===== src/Agent/Skills/Route/Ends.antt =====
-- A request to a router of packages/agent/src/skills.ts makes at most as many calls as its budget,
-- however the routing tables run in circles.
use agentdir_open_agents.Base.{
  ℕ, zero, suc, ◌+◌, ◌≤◌, String, true, false, Option, none, some, [], ◌∷◌, ◌==◌, ◌≡◌, refl, sym,
  ap, ◌∙◌, length, leb, arith, Bool-cases, inl, inr,
}
use agentdir_open_agents.Base.Int.{ℤ, pos, ◌-ℤ◌}
use agentdir_open_agents.Js.Map
use agentdir_open_agents.Js.Map.{Map}
use agentdir_open_agents.Js.Value.{Json, num, str, Value, prop?, prop}
use agentdir_open_agents.Js.Result.{Result, ok, throw}
use agentdir_open_agents.Sdk.Cards.Built.{find_field-set_field}
use agentdir_open_agents.Agent.Act.{Act}
use agentdir_open_agents.Agent.Caller.{CallSkillArgs}
use agentdir_open_agents.Agent.Runtime.Admit.{validate_input}
use agentdir_open_agents.Agent.Skills.Route.{
  RouteSkillInput, RoutingEntry, Swarm, route_def, route_handler, budget_of, hop_args, spread,
  routed, forward, forwarded_input,
}
use agentdir_open_agents.Agent.Skills.Route.Network.{
  Peer, Calls, as_input, typed_tag, replied, swarm_of, routes, handled, validated, at_peer,
  admitted, network_call,
}

-- The input of a call to a router has the budget.
abbrev Carries : ℕ → Value → Type 0
Carries n v = (i : RouteSkillInput) → as_input v ≡ some i → budget_of i.hop_budget ≡ pos n

abbrev budget_in : ℕ → Option RouteSkillInput → ℤ
budget_in n none = pos n
budget_in n (some i) = budget_of i.hop_budget

typed_tag-Carries :
    (n : ℕ) (tag v : Value)
    → prop? "hopBudget" v ≡ some (num (pos n))
    → (i : RouteSkillInput) → typed_tag tag v ≡ some i
    → budget_of i.hop_budget ≡ pos n
typed_tag-Carries n (some (str tag)) v h i e =
    let same : some (record { tag = tag; payload = prop? "payload" v; hop_budget = some (pos n) })
        ≡ some i =
      rw h at e in
    sym (ap (budget_in n) same)
typed_tag-Carries n (some _) v h i e = cc e
typed_tag-Carries n none v h i e = cc e

forwarded-Carries :
    (n : ℕ) (payload : Value) → Carries n (forwarded_input "route" payload (pos (suc n)))
unfolding prop ◌-ℤ◌
forwarded-Carries n payload i e =
    let v = forwarded_input "route" payload (pos (suc n)) in
    let fs = spread payload in
    let left : pos (suc n) -ℤ pos 1 ≡ pos n = ground arith in
    let there : prop? "hopBudget" v ≡ some (num (pos n)) =
      find_field-set_field "hopBudget" "hopBudget" (num (pos (suc n) -ℤ pos 1)) fs
      ∙ ap (λ b. some (num b)) left in
    typed_tag-Carries n (prop? "tag" v) v there i e

-- Two ways of calling that agree on the calls of one budget, and make few calls.
abbrev Agree : ℕ → (CallSkillArgs → Act Calls Json) → (CallSkillArgs → Act Calls Json) → Type 0
Agree n c d =
    (args : CallSkillArgs) (s : Calls)
    → ((args.skill == "route") ≡ true → Carries n args.input)
    → (c args s ≡ d args s) × (length (c args s).1 ≤ n + suc (length s))

none_below : (n : ℕ) → suc n ≤ zero → ⊥
none_below n h = omega (arith, h)

module _ (peers : Map Peer) (clock : Calls → ℕ) (refuses : CallSkillArgs → Option String)
    (leaf : CallSkillArgs → Result Json) where
  abbrev call : ℕ → CallSkillArgs → Act Calls Json
  call f = network_call peers clock refuses leaf f

  abbrev request : ℕ → Peer → RouteSkillInput → Act Calls Value
  request f peer i = routes peers clock refuses leaf (call f) peer i

  -- The answer of a router, in two ways that agree, with few calls.
  abbrev pub Same : {A : Type 0} → ℕ → Calls → Result A × Calls → Result A × Calls → Type 0
  Same most s one other = (one ≡ other) × (length one.1 ≤ most + length s)

  routed-calls :
      (w : Swarm Calls) (route : RoutingEntry) (t0 : ℕ) (r : Result Json) (s : Calls)
      → ((t : Calls) → w.now t ≡ (ok (clock t), t))
      → (routed w route t0 r s).1 ≡ s
  routed-calls w route t0 (ok res) s still = rw (still s) refl
  routed-calls w route t0 (throw e) s still = rw (still s) refl

  module _ (n : ℕ) (c d : CallSkillArgs → Act Calls Json) (agree : Agree n c d) where
    abbrev w : Peer → Swarm Calls
    w peer = swarm_of peers clock refuses leaf c peer

    forward-Same :
        (peer : Peer) (tag : String) (payload : Value) (o : Option RoutingEntry) (s : Calls)
        → Same
            (suc n)
            s
            (forward (w peer) tag payload (pos (suc n)) o s)
            (forward (swarm_of peers clock refuses leaf d peer) tag payload (pos (suc n)) o s)
    forward-Same peer tag payload none s = (refl, omega arith)
    forward-Same peer tag payload (some route) s =
        let args = hop_args (w peer) route payload (pos (suc n)) in
        let carries : (route.skill == "route") ≡ true → Carries n args.input =
          λ own. rw own (forwarded-Carries n payload) in
        let (same, few) = agree args s carries in
        let kept = routed-calls (w peer) route (clock s) (c args s).0 (c args s).1 (λ t. refl) in
        (ap (λ r. routed (w peer) route (clock s) r.0 r.1) same, rw kept (omega (arith, few)))

    routes-Same :
        (peer : Peer) (i : RouteSkillInput) (s : Calls)
        → budget_of i.hop_budget ≡ pos (suc n)
        → Same
            (suc n)
            s
            (routes peers clock refuses leaf c peer i s)
            (routes peers clock refuses leaf d peer i s)
    unfolding route_handler
    routes-Same peer i s budget =
        let live : leb (suc n) 0 ≡ false = ground arith in
        rw (budget, live) (forward-Same peer i.tag i.payload (Map.get i.tag peer.table) s)

  routes-spent :
      (c d : CallSkillArgs → Act Calls Json) (peer : Peer) (i : RouteSkillInput) (s : Calls)
      → budget_of i.hop_budget ≡ pos 0
      → Same 0 s
          (routes peers clock refuses leaf c peer i s)
          (routes peers clock refuses leaf d peer i s)
  unfolding route_handler
  routes-spent c d peer i s budget = rw budget (refl, omega arith)

  -- A call that reaches a router with a budget, where every router keeps to it.
  module _ (n : ℕ) (c d : CallSkillArgs → Act Calls Json)
      (keeps : (peer : Peer) (i : RouteSkillInput) (s : Calls)
        → budget_of i.hop_budget ≡ pos n
        → Same n s
            (routes peers clock refuses leaf c peer i s)
            (routes peers clock refuses leaf d peer i s)) where
    handled-Same :
        (peer : Peer) (args : CallSkillArgs) (o : Option RouteSkillInput) (s : Calls)
        → ((i : RouteSkillInput) → o ≡ some i → budget_of i.hop_budget ≡ pos n)
        → Same n s
            (handled peers clock refuses leaf c peer args o s)
            (handled peers clock refuses leaf d peer args o s)
    handled-Same peer args none s carries = (refl, omega arith)
    handled-Same peer args (some i) s carries =
        let (same, few) = keeps peer i s (carries i refl) in
        (ap (λ r. (replied r.0, r.1)) same, few)

    validated-Same :
        (peer : Peer) (args : CallSkillArgs) (o : Option String) (s : Calls)
        → Carries n args.input
        → Same n s
            (validated peers clock refuses leaf c peer args o s)
            (validated peers clock refuses leaf d peer args o s)
    validated-Same peer args none s carries = handled-Same peer args (as_input args.input) s carries
    validated-Same peer args (some why) s carries = (refl, omega arith)

    at_peer-Same :
        (args : CallSkillArgs) (o : Option Peer) (s : Calls)
        → Carries n args.input
        → Same n s
            (at_peer peers clock refuses leaf c args o s)
            (at_peer peers clock refuses leaf d args o s)
    at_peer-Same args none s carries = (refl, omega arith)
    at_peer-Same args (some peer) s carries =
        validated-Same peer args (validate_input route_def.input_schema args.input) s carries

    admitted-Same :
        (args : CallSkillArgs) (o : Option String) (s : Calls)
        → ((args.skill == "route") ≡ true → Carries n args.input)
        → Same n s
            (admitted peers clock refuses leaf c args o s)
            (admitted peers clock refuses leaf d args o s)
    admitted-Same args (some e) s carries = (refl, omega arith)
    admitted-Same args none s carries = elim (Bool-cases (args.skill == "route")) [
      | inl own ↦ rw own (at_peer-Same args (Map.get args.dest_pubkey peers) s (carries own))
      | inr other ↦ rw other (refl, omega arith)
    ]

  network_call-Agree :
      (n f g : ℕ)
      → ((peer : Peer) (i : RouteSkillInput) (s : Calls)
          → budget_of i.hop_budget ≡ pos n
          → Same n s (request f peer i s) (request g peer i s))
      → Agree n (call (suc f)) (call (suc g))
  unfolding network_call
  network_call-Agree n f g keeps args s carries =
      let (same, few) =
        admitted-Same n (call f) (call g) keeps args (refuses args) (args ∷ s) carries in
      (same, omega (arith, few))

  request-Same :
      (n f g : ℕ)
      → n ≤ f
      → n ≤ g
      → (peer : Peer) (i : RouteSkillInput) (s : Calls) → budget_of i.hop_budget ≡ pos n
      → Same n s (request f peer i s) (request g peer i s)
  request-Same zero f g hf hg peer i s budget = routes-spent (call f) (call g) peer i s budget
  request-Same (suc n) zero g hf hg peer i s budget = absurd (none_below n hf)
  request-Same (suc n) (suc f) zero hf hg peer i s budget = absurd (none_below n hg)
  request-Same (suc n) (suc f) (suc g) hf hg peer i s budget =
      routes-Same n (call (suc f)) (call (suc g))
        (network_call-Agree n f g (request-Same n f g (omega (arith, hf)) (omega (arith, hg)))) peer
        i s budget

  -- A request with a budget that is not below 0 makes at most as many calls as its budget, and its
  -- answer and its calls are the same at every fuel from the budget on, whatever the tables of the
  -- routers are.
  pub routes-calls_bounded :
      (n fuel : ℕ) (peer : Peer) (i : RouteSkillInput)
      → budget_of i.hop_budget ≡ pos n
      → n ≤ fuel
      → (length (request fuel peer i []).1 ≤ n) × (request fuel peer i [] ≡ request n peer i [])
  routes-calls_bounded n fuel peer i budget enough =
      let (same, few) = request-Same n fuel n enough (omega arith) peer i [] budget in
      (omega (arith, few), same)
