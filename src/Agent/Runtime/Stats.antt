-- ===== src/Agent/Runtime/Stats.antt =====
-- The statistics of packages/agent/src/agent.ts.
use agentdir_open_agents.Base.{
  ℕ, ◌+◌, ◌≤◌, ◌≡◌, String, Bool, true, false, Option, List, [], ◌∷◌, arith, Bool-cases,
  Option-cases, inl, inr, ◌∙◌, ap, if◌then◌else◌,
}
use agentdir_open_agents.Crypto.{Crypto}
use agentdir_open_agents.Js.Map
use agentdir_open_agents.Js.Map.{Map}
use agentdir_open_agents.Js.Value.{Json}
use agentdir_open_agents.Sdk.Storage.{Storage}
use agentdir_open_agents.Agent.Act.{Keeps}
use agentdir_open_agents.Agent.Protocol.{is_skill_request, request_of}
use agentdir_open_agents.Agent.Runtime.{AgentOpts, Agent, Times, SkillStat}
use agentdir_open_agents.Agent.Runtime.Handle.{
  Link, Inbound, bump_stats, bumped, stat_of, handle_inbound, receive_all,
}
use agentdir_open_agents.Agent.Runtime.Frame.{IsStable, handle_skill_request-Keeps}

abbrev pub sum_calls : Map SkillStat → ℕ
sum_calls [] = 0
sum_calls ((k, stat) ∷ stats) = stat.calls + sum_calls stats

abbrev pub sum_ok : Map SkillStat → ℕ
sum_ok [] = 0
sum_ok ((k, stat) ∷ stats) = stat.ok + sum_ok stats

abbrev pub Within : Map SkillStat → Type 0
Within [] = Unit
Within ((k, stat) ∷ stats) = (stat.ok ≤ stat.calls) × Within stats

-- The totals are the sums over the skills, and no count of successes passes its count of calls.
pub record IsCounted (total passed : ℕ) (stats : Map SkillStat) : Type 0 where
  pub calls : sum_calls stats ≡ total
  pub oks : sum_ok stats ≡ passed
  pub within : Within stats

module _ (C : Crypto) (S : Storage) (opts : AgentOpts) (link : Link) (times : Times) where
  abbrev put_stat : String → Bool → Map SkillStat → Map SkillStat
  put_stat k passed stats =
      Map.set k (bumped C S opts link times passed (stat_of C S opts link times (Map.get k stats)))
        stats

  sum_calls-bump :
      (k : String) (passed : Bool) (stats : Map SkillStat)
      → sum_calls (put_stat k passed stats) ≡ sum_calls stats + 1
  unfolding Map.set Map.get
  sum_calls-bump k passed [] = ground arith
  sum_calls-bump k passed ((j, stat) ∷ stats) = ground (arith, sum_calls-bump k passed stats)

  sum_ok-bump :
      (k : String) (passed : Bool) (stats : Map SkillStat)
      → sum_ok (put_stat k passed stats) ≡ (if passed then sum_ok stats + 1 else sum_ok stats)
  unfolding Map.set Map.get
  sum_ok-bump k true [] = ground arith
  sum_ok-bump k false [] = ground arith
  sum_ok-bump k true ((j, stat) ∷ stats) = ground (arith, sum_ok-bump k true stats)
  sum_ok-bump k false ((j, stat) ∷ stats) = ground (arith, sum_ok-bump k false stats)

  Within-bump :
      (k : String) (passed : Bool) (stats : Map SkillStat)
      → Within stats
      → Within (put_stat k passed stats)
  unfolding Map.set Map.get
  Within-bump k true [] h = ground arith
  Within-bump k false [] h = ground arith
  Within-bump k true ((j, stat) ∷ stats) h = ground (arith, Within-bump k true stats h.1)
  Within-bump k false ((j, stat) ∷ stats) h = ground (arith, Within-bump k false stats h.1)

  abbrev Counted : Agent S → Type 0
  Counted s = IsCounted s.calls_total s.ok_total s.skill_stats

  bump_stats-Counted :
      (skill : String) (passed : Bool) → Keeps Counted (bump_stats C S opts link times skill passed)
  unfolding bump_stats
  bump_stats-Counted skill passed = record {
    at = λ s h. record {
      calls = sum_calls-bump skill passed s.skill_stats ∙ ap (λ n. n + 1) h.calls;
      oks = sum_ok-bump skill passed s.skill_stats ∙ ap (λ n. if passed then n + 1 else n) h.oks;
      within = Within-bump skill passed s.skill_stats h.within;
    };
  }

  stable : IsStable C S opts link times Counted
  stable = record {
    sends = λ s sent h. h;
    late = record { attests = λ s c store h. h; bumps = bump_stats-Counted; snapshots = λ s h. h };
  }

ok-le-calls : (stats : Map SkillStat) → Within stats → sum_ok stats ≤ sum_calls stats
ok-le-calls [] h = omega arith
ok-le-calls ((k, stat) ∷ stats) h = omega (arith, ok-le-calls stats h.1)

module _ (C : Crypto) (S : Storage) (opts : AgentOpts) (link : Link)
    (parse : String → Option Json) where
  inbound-IsCounted :
      (m : Inbound) (s : Agent S)
      → IsCounted s.calls_total s.ok_total s.skill_stats
      → let t = (handle_inbound C S opts link m.times parse m.from m.body s).1 in
        IsCounted t.calls_total t.ok_total t.skill_stats
  unfolding handle_inbound
  inbound-IsCounted m s h = elim (Option-cases (parse m.body)) [
    | inl garbled ↦ rw garbled h
    | inr (v, read) ↦ elim (Bool-cases (is_skill_request v)) [
      | inl request ↦
          rw (read, request)
            (handle_skill_request-Keeps C S opts link m.times (Counted C S opts link m.times)
              (stable C S opts link m.times) m.from (request_of v) s h)
      | inr other ↦ rw (read, other) h
    ]
  ]

  counted-all :
      (ms : List Inbound) (s : Agent S)
      → IsCounted s.calls_total s.ok_total s.skill_stats
      → let t = receive_all C S opts link parse ms s in
        IsCounted t.calls_total t.ok_total t.skill_stats
  unfolding receive_all
  counted-all [] s h = h
  counted-all (m ∷ ms) s h = counted-all ms _ (inbound-IsCounted m s h)

  -- Whatever messages come in, the totals stay the sums of the counts of the skills, no skill has
  -- more successes than calls, and the agent has no more successes than calls.
  pub receive_all-IsCounted :
      (ms : List Inbound) (s : Agent S)
      → IsCounted s.calls_total s.ok_total s.skill_stats
      → let t = receive_all C S opts link parse ms s in
        IsCounted t.calls_total t.ok_total t.skill_stats × (t.ok_total ≤ t.calls_total)
  receive_all-IsCounted ms s h =
      let c = counted-all ms s h in
      let few = ok-le-calls _ c.within in (c, omega (arith, c.calls, c.oks))
