-- ===== src/Sdk/Cards/Valid.antt =====
-- What `validateAgentCard` of packages/sdk/src/agent-card.ts lets pass.
use mathlib.Core.Path.{subst}
use agentdir_open_agents.Base.{
  String, Bool, true, false, ◌&&◌, not, ◌≡◌, ◌↔◌, refl, ap, ◌∙◌, Option, none, some,
}
use agentdir_open_agents.Js.Value.{
  Json, null, str, arr, obj, Items, nil, cons, Value, prop, prop?, truthy, is_text, is_text_eq_iff,
  is_object,
}
use agentdir_open_agents.Js.Result.{Result, ok, throw, ◌>>=◌, read, reject_if}
use agentdir_open_agents.Sdk.Cards.{
  is_dotted, is_array, is_key, check_skill, or_next, check_skills, check_skill_list,
  validate_agent_card, unless_invalid, parsed_card, parse_agent_card,
}

-- A skill as a card lists it.
pub record IsSkill (s : Json) : Type 0 where
  pub named : (truthy (prop "id" s) && truthy (prop "name" s)) ≡ true
  pub tagged : is_array (prop "tags" s) ≡ true
  pub typed : is_object (prop "inputSchema" s) ≡ true

abbrev pub AllSkills : Items → Type 0
AllSkills nil = Unit
AllSkills (cons s ss) = IsSkill s × AllSkills ss

pub record IsCard (c : Json) : Type 0 where
  pub version_of_protocol : prop "protocolVersion" c ≡ some (str "0.2.5")
  pub name : is_dotted (prop "name" c) ≡ ok true
  pub version : (truthy (prop "version" c) && is_text (prop "version" c)) ≡ true
  pub capabilities : is_object (prop "capabilities" c) ≡ true
  pub input_modes : is_array (prop "defaultInputModes" c) ≡ true
  pub output_modes : is_array (prop "defaultOutputModes" c) ≡ true
  pub key : is_key (prop? "axlPubkey" (prop "identity" c)) ≡ true
  pub skills : (ss : Items) × (prop "skills" c ≡ some (arr ss)) × AllSkills ss

reject_unless :
    (b : Bool) (e : String) (k : Result (Option String))
    → reject_if (not b) e k ≡ ok none
    → (b ≡ true) × (k ≡ ok none)
reject_unless true e k h = (refl, h)
reject_unless false e k h = cc

keep : (b : Bool) (e : String) (k : Result (Option String)) → b ≡ true → reject_if (not b) e k ≡ k
keep b e k h = rw h refl

or_next-pass :
    (r next : Result (Option String)) → or_next r next ≡ ok none → (r ≡ ok none) × (next ≡ ok none)
or_next-pass (ok none) next h = (refl, h)
or_next-pass (ok (some e)) next h = cc
or_next-pass (throw e) next h = cc

unbind :
    (r : Result Bool) (k : Bool → Result (Option String))
    → (r >>= k) ≡ ok none
    → (b : Bool) × (r ≡ ok b) × (k b ≡ ok none)
unbind (ok b) k h = (b, refl, h)
unbind (throw e) k h = cc

module _ (stringify : Json → String) where
  check_skill-IsSkill : (s : Json) → check_skill stringify s ≡ ok none → IsSkill s
  unfolding check_skill read
  check_skill-IsSkill null h = cc
  check_skill-IsSkill s h =
      let (named, h₁) = reject_unless _ _ _ h in
      let (tagged, h₂) = reject_unless _ _ _ h₁ in
      let (typed, h₃) = reject_unless _ _ _ h₂ in
      record { named = named; tagged = tagged; typed = typed }

  null_lem : (truthy (prop "id" null) && truthy (prop "name" null)) ≡ false
  unfolding prop
  null_lem = refl

  IsSkill-check_skill : (s : Json) → IsSkill s → check_skill stringify s ≡ ok none
  unfolding check_skill read
  IsSkill-check_skill null i = let no = null_lem in let yes_named = i.named in cc
  IsSkill-check_skill s i = keep _ _ _ i.named ∙ (keep _ _ _ i.tagged ∙ keep _ _ _ i.typed)

  check_skills-AllSkills : (ss : Items) → check_skills stringify ss ≡ ok none → AllSkills ss
  unfolding check_skills
  check_skills-AllSkills nil h = tt
  check_skills-AllSkills (cons s ss) h =
      let (first, others) = or_next-pass _ _ h in
      (check_skill-IsSkill s first, check_skills-AllSkills ss others)

  AllSkills-check_skills : (ss : Items) → AllSkills ss → check_skills stringify ss ≡ ok none
  unfolding check_skills
  AllSkills-check_skills nil all = refl
  AllSkills-check_skills (cons s ss) all =
      rw (IsSkill-check_skill s all.0) (AllSkills-check_skills ss all.1)

  check_skill_list-skills :
      (v : Value)
      → check_skill_list stringify v ≡ ok none
      → (ss : Items) × (v ≡ some (arr ss)) × AllSkills ss
  check_skill_list-skills (some (arr ss)) h = (ss, refl, check_skills-AllSkills ss h)
  check_skill_list-skills none h = cc
  check_skill_list-skills (some null) h = cc
  check_skill_list-skills (some _) h = cc

  object_of :
      (c : Json) (t : String) → prop "protocolVersion" c ≡ some (str t) → is_object (some c) ≡ true
  unfolding prop
  object_of (obj fs) t h = refl
  object_of null t h = cc
  object_of _ t h = cc

  -- A value passes exactly when it is a card: its protocol is 0.2.5, its name is dotted, its version is
  -- a text that is not empty, its capabilities are an object, its modes are arrays, its key has 64
  -- hexadecimal digits, and each of its skills has an id, a name, an array of tags and an input schema.
  pub validate_agent_card_iff : (c : Json) → (validate_agent_card stringify c ≡ ok none) ↔ IsCard c
  unfolding validate_agent_card
  validate_agent_card_iff c = (
    (λ h.
        let (isobj, h₁) = reject_unless _ _ _ h in
        let (protocol, h₂) = reject_unless _ _ _ h₁ in
        let (dotted, name, h₃) = unbind _ _ h₂ in
        let (is_name, h₄) = reject_unless _ _ _ h₃ in
        let (version, h₅) = reject_unless _ _ _ h₄ in
        let (capabilities, h₆) = reject_unless _ _ _ h₅ in
        let (input_modes, h₇) = reject_unless _ _ _ h₆ in
        let (output_modes, h₈) = reject_unless _ _ _ h₇ in
        let (key, h₉) = reject_unless _ _ _ h₈ in
        record {
          version_of_protocol = (is_text_eq_iff _ _).0 protocol;
          name = name ∙ ap ok is_name;
          version = version;
          capabilities = capabilities;
          input_modes = input_modes;
          output_modes = output_modes;
          key = key;
          skills = check_skill_list-skills _ h₉;
        }),
    λ i.
        let (ss, listed, all) = i.skills in
        keep _ _ _ (object_of c _ i.version_of_protocol)
        ∙ (keep _ _ _ ((is_text_eq_iff _ _).1 i.version_of_protocol)
            ∙ rw i.name (
                keep _ _ _ i.version
                ∙ (keep _ _ _ i.capabilities
                    ∙ (keep _ _ _ i.input_modes
                        ∙ (keep _ _ _ i.output_modes
                            ∙ (keep _ _ _ i.key ∙ rw listed (AllSkills-check_skills ss all))))))),
  )

  -- What `parseAgentCard` returns is what the text is parsed to, and a card.
  pub parse_agent_card-IsCard :
      (parse : String → Option Json) (json : String) (c : Json)
      → parse_agent_card stringify parse json ≡ ok c
      → (parse json ≡ some c) × IsCard c
  unfolding parse_agent_card
  parse_agent_card-IsCard parse json c h = parsed-IsCard (parse json) c h
    where
      valid-IsCard :
          (x c : Json) (r : Result (Option String))
          → validate_agent_card stringify x ≡ r
          → (r >>= unless_invalid stringify x) ≡ ok c
          → (x ≡ c) × IsCard x
      valid-IsCard x c (ok none) e h = (cc h, (validate_agent_card_iff x).0 e)
      valid-IsCard x c (ok (some why)) e h = cc
      valid-IsCard x c (throw why) e h = cc

      parsed-IsCard :
          (o : Option Json) (c : Json) → parsed_card stringify o ≡ ok c → (o ≡ some c) × IsCard c
      parsed-IsCard none c h = cc
      parsed-IsCard (some x) c h =
          let (same, card) = valid-IsCard x c _ refl h in (ap some same, subst IsCard same card)
