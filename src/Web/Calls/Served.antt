-- ===== src/Web/Calls/Served.antt =====
-- What a call of Frontend/lib/call-server.ts that succeeds has checked.
use agentdir_open_agents.Base.{
  ℕ, ◌+◌, String, Bool, true, false, ◌&&◌, Option, some, List, [], ◌≡◌, refl, ap, eq_iff,
  Bool-cases, Option-cases, ◌⊎◌, inl, inr,
}
use agentdir_open_agents.Js.Map
use agentdir_open_agents.Js.Map.{Map}
use agentdir_open_agents.Js.Text.{to_lower, is_filled}
use agentdir_open_agents.Js.Value.{Json, prop}
use agentdir_open_agents.Js.Result.{Result, ok, throw, Result-cases}
use agentdir_open_agents.Sdk.Ens.{EnsClient, get_record_bundle, verify_identity}
use agentdir_open_agents.Sdk.Cards.{parse_agent_card}
use agentdir_open_agents.Agent.Caller.{CallSkillArgs}
use agentdir_open_agents.Web.Callee.{CalleeRuntime, World}
use agentdir_open_agents.Web.Trace.{CallResult, Opts, Variant, Readings, Log, is_hard_fail}
use agentdir_open_agents.Web.Calls.{
  served, args_for, is_same_key, on_callee, on_card, run_call, plain, call_agent_skill,
}
use agentdir_open_agents.Crypto.{Crypto}
use agentdir_open_agents.Agent.Caller.{Poll}
use agentdir_open_agents.Agent.Caller.Loop.{Outcome, settled, waiting, SendJson, call_skill}
use agentdir_open_agents.Agent.Caller.Sound.{Any, Came}
use agentdir_open_agents.Agent.Caller.Calls.{call_skill-Came}

module _ (v : Variant) (r : Readings) (opts : Opts)
    (boot : String → Bool → World → Result CalleeRuntime × World) (client : EnsClient)
    (stringify : Json → String) (parse : String → Option Json) (w : World) where
  -- The checks behind a result: the records are there and the card is good; the identity was checked
  -- and nothing mismatches; the runtime has the key of the record; and the call gave the output.
  pub record IsServed (result : CallResult) : Type 0 where
    pub bundle : Map String
    pub card_json : String
    pub axl_pub : String
    pub card : Json
    pub fault : Option String
    pub callee : CalleeRuntime
    pub after : World
    pub answer : Json
    pub read : get_record_bundle client opts.ens ≡ ok bundle
    pub has_card : Map.get "org.a2a.agent-card" bundle ≡ some card_json
    pub has_key : Map.get "network.axl.pubkey" bundle ≡ some axl_pub
    pub is_card : parse_agent_card stringify parse card_json ≡ ok card
    pub identified : verify_identity client stringify parse opts.ens axl_pub ≡ ok fault
    pub no_mismatch : is_hard_fail fault ≡ false
    pub booted : boot opts.ens opts.tee w ≡ (ok callee, after)
    pub keyed : to_lower callee.identity.axl_pubkey_hex ≡ to_lower axl_pub
    pub answered : (v.call (args_for v r opts callee)).1 ≡ ok answer
    pub gives : result.output ≡ prop "output" answer

  -- The end of a call that has passed the check of the key.
  abbrev Answered : CalleeRuntime → CallResult → Type 0
  Answered callee result =
      (answer : Json) × ((v.call (args_for v r opts callee)).1 ≡ ok answer)
      × (result.output ≡ prop "output" answer)

  served-Answered :
      (callee : CalleeRuntime) (answer : Result Json) (log : Log) (after : World)
      → (served v r opts callee answer log after).0.is_ok ≡ true
      → (res : Json) × (answer ≡ ok res)
        × ((served v r opts callee answer log after).0.output ≡ prop "output" res)
  served-Answered callee (throw e) log after h = cc h
  served-Answered callee (ok res) log after h = (res, refl, refl)

  on_callee-Answered :
      (axl_pub : String) (log : Log) (callee : CalleeRuntime) (after : World)
      → (on_callee v r opts axl_pub log (ok callee, after)).0.is_ok ≡ true
      → (to_lower callee.identity.axl_pubkey_hex ≡ to_lower axl_pub)
        × Answered callee (on_callee v r opts axl_pub log (ok callee, after)).0
  on_callee-Answered axl_pub log callee after h =
      elim (Bool-cases (is_same_key v r opts callee axl_pub)) [
        | inr other ↦ cc (rw other at h)
        | inl same ↦
            let key =
              (eq_iff (to_lower callee.identity.axl_pubkey_hex) (to_lower axl_pub)).0 same in
            (
              key,
              rw same (
                  served-Answered callee (v.call (args_for v r opts callee)).1 _ after
                    (rw same at h)),
            )
      ]

  Result-pair :
      (p : Result CalleeRuntime × World)
      → ((callee : CalleeRuntime) × (after : World) × (p ≡ (ok callee, after)))
        ⊎ ((e : String) × (after : World) × (p ≡ (throw e, after)))
  Result-pair (ok callee, after) = inl (callee, after, refl)
  Result-pair (throw e, after) = inr (e, after, refl)

  on_card-IsServed :
      (bundle : Map String) (card_json axl_pub : String) (card : Json) (log : Log)
      → get_record_bundle client opts.ens ≡ ok bundle
      → Map.get "org.a2a.agent-card" bundle ≡ some card_json
      → Map.get "network.axl.pubkey" bundle ≡ some axl_pub
      → parse_agent_card stringify parse card_json ≡ ok card
      → (on_card v r opts boot client stringify parse bundle axl_pub (ok card) log w).0.is_ok ≡ true
      → IsServed (on_card v r opts boot client stringify parse bundle axl_pub (ok card) log w).0
  on_card-IsServed bundle card_json axl_pub card log read has_card has_key is_card h =
      elim (Result-cases (verify_identity client stringify parse opts.ens axl_pub)) [
        | inr (e, failed) ↦ cc (rw failed at h)
        | inl (fault, identified) ↦ elim (Bool-cases (is_hard_fail fault)) [
          | inl hard ↦ cc (rw (identified, hard) at h)
          | inr soft ↦ elim (Result-pair (boot opts.ens opts.tee w)) [
            | inr (e, after, failed) ↦ cc (rw (identified, soft, failed) at h)
            | inl (callee, after, booted) ↦
                let (keyed, (answer, answered, gives)) =
                  on_callee-Answered axl_pub _ callee after (rw (identified, soft, booted) at h) in
                record {
                  bundle = bundle;
                  card_json = card_json;
                  axl_pub = axl_pub;
                  card = card;
                  fault = fault;
                  callee = callee;
                  after = after;
                  answer = answer;
                  read = read;
                  has_card = has_card;
                  has_key = has_key;
                  is_card = is_card;
                  identified = identified;
                  no_mismatch = soft;
                  booted = booted;
                  keyed = keyed;
                  answered = answered;
                  gives = rw (identified, soft, booted) gives;
                }
          ]
        ]
      ]

  run_call-IsServed :
      (run_call v r opts boot client stringify parse w).0.is_ok ≡ true
      → IsServed (run_call v r opts boot client stringify parse w).0
  unfolding run_call
  run_call-IsServed h = elim (Result-cases (get_record_bundle client opts.ens)) [
    | inr (e, failed) ↦ cc (rw failed at h)
    | inl (bundle, read) ↦ elim (Option-cases (Map.get "org.a2a.agent-card" bundle)) [
      | inl absent ↦ cc (rw (read, absent) at h)
      | inr (card_json, has_card) ↦ elim (Option-cases (Map.get "network.axl.pubkey" bundle)) [
        | inl absent ↦ cc (rw (read, has_card, absent) at h)
        | inr (axl_pub, has_key) ↦ elim (Bool-cases (is_filled card_json && is_filled axl_pub)) [
          | inr empty ↦ cc (rw (read, has_card, has_key, empty) at h)
          | inl filled ↦ elim (Result-cases (parse_agent_card stringify parse card_json)) [
            | inr (e, failed) ↦ cc (rw (read, has_card, has_key, filled, failed) at h)
            | inl (card, is_card) ↦
                rw (read, has_card, has_key, filled, is_card)
                  (on_card-IsServed bundle card_json axl_pub card
                    (record { trace = []; events = [] }) read has_card has_key is_card
                    (rw (read, has_card, has_key, filled, is_card) at h))
          ]
        ]
      ]
    ]
  ]

-- `callSkill`, over the polls that it makes; polls that end before its deadline give its error.
abbrev pub returned : Outcome → Result Json
returned (settled result) = result
returned waiting = throw "call timeout"

returned-ok : (o : Outcome) (v : Json) → returned o ≡ ok v → o ≡ settled (ok v)
returned-ok (settled result) v h = ap settled h
returned-ok waiting v h = cc h

module _ (C : Crypto) (send_json : SendJson) (id nonce : String) (sent_at started : ℕ)
    (ps : List Poll) (parse : String → Option Json) where
  abbrev pub call_over : CallSkillArgs → Result Json
  call_over args = returned (call_skill C args parse send_json id nonce sent_at started ps).0

  -- A call of `callAgentSkill` over `callSkill` that succeeds has read a card and a key from the
  -- records of the name; the card is good and the identity check found no mismatch; the runtime has
  -- the key of the record, in upper or lower case; and the output is that of a response that came in
  -- time, bound to the call, and signed under the key of that runtime.
  pub call_agent_skill-IsServed :
      (r : Readings) (opts : Opts) (boot : String → Bool → World → Result CalleeRuntime × World)
      (client : EnsClient) (stringify : Json → String) (w : World)
      → (call_agent_skill r opts boot client stringify parse call_over w).0.is_ok ≡ true
      → let v = plain r opts boot client stringify parse call_over in
        (s : IsServed v r opts boot client stringify parse w
          (call_agent_skill r opts boot client stringify parse call_over w).0)
        × Any (Came C (args_for v r opts s.callee) parse id (started + 90000) s.answer) ps
  unfolding call_agent_skill
  call_agent_skill-IsServed r opts boot client stringify w h =
      let v = plain r opts boot client stringify parse call_over in
      let s = run_call-IsServed v r opts boot client stringify parse w h in
      let args = args_for v r opts s.callee in
      (
        s,
        call_skill-Came C args parse send_json id nonce sent_at started ps s.answer (
            returned-ok (call_skill C args parse send_json id nonce sent_at started ps).0 s.answer
              s.answered),
      )
