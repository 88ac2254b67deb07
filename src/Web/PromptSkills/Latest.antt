-- ===== src/Web/PromptSkills/Latest.antt =====
-- The rows of Frontend/lib/prompt-skills.ts against a map from handles and ids to skills.
use agentdir_open_agents.Base.{
  ℕ, suc, String, Bool, true, false, ◌&&◌, Option, none, some, List, [], ◌∷◌, ◌==◌, ◌≡◌, refl, sym,
  ap, ◌∙◌, eq_iff, eq_refl, Bool-cases, inl, inr, length, if◌then◌else◌, arith,
}
use agentdir_open_agents.Web.PromptSkills.{
  SkillFields, PromptSkillRow, list_prompt_skills, is_match, owned, inserted_row,
  upsert_prompt_skill, delete_prompt_skill, count_active_skills,
}

-- The skills with the id in a list of rows.
abbrev pub with_id : String → List PromptSkillRow → List SkillFields
with_id skill_id [] = []
with_id skill_id (r ∷ rows) =
    if r.skill_id == skill_id then r.fields ∷ with_id skill_id rows else with_id skill_id rows

abbrev pub listed : String → String → List PromptSkillRow → List SkillFields
listed handle skill_id rows = with_id skill_id (list_prompt_skills handle rows)

pub data Change : Type 0 where
  upserts : String → String → SkillFields → ℕ → Change
  deletes : String → String → ℕ → Change

unfoldable pub change : Change → List PromptSkillRow → List PromptSkillRow
change (upserts handle skill_id fields now) rows =
    upsert_prompt_skill handle skill_id fields now rows
change (deletes handle skill_id now) rows = (delete_prompt_skill handle skill_id now rows).1

unfoldable pub run : List Change → List PromptSkillRow → List PromptSkillRow
unfolding change
run [] rows = rows
run (c ∷ cs) rows = run cs (change c rows)

-- The skill that the changes leave under the handle and the id, if they leave one.
abbrev pub latest_after : String → String → Change → Option SkillFields → Option SkillFields
latest_after handle skill_id (upserts h i fields now) before =
    if h == handle && i == skill_id then some (owned fields) else before
latest_after handle skill_id (deletes h i now) before =
    if h == handle && i == skill_id then none else before

abbrev pub latest : String → String → List Change → Option SkillFields → Option SkillFields
latest handle skill_id [] before = before
latest handle skill_id (c ∷ cs) before =
    latest handle skill_id cs (latest_after handle skill_id c before)

abbrev pub as_list : Option SkillFields → List SkillFields
as_list none = []
as_list (some f) = f ∷ []

-- A row of the list, in front of the others.
listed-row :
    (handle skill_id : String) (r : PromptSkillRow) (rows : List PromptSkillRow)
    → listed handle skill_id (r ∷ rows) ≡ (
        if is_match handle skill_id r
        then r.fields ∷ listed handle skill_id rows
        else listed handle skill_id rows)
unfolding list_prompt_skills
listed-row handle skill_id r rows = elim (Bool-cases (r.handle == handle && r.is_active)) [
  | inl theirs ↦ rw theirs refl
  | inr other ↦ rw other refl
]

abbrev tail : List SkillFields → List SkillFields
tail [] = []
tail (f ∷ fs) = fs

matched :
    (handle skill_id : String) (r : PromptSkillRow) (rows : List PromptSkillRow)
    → is_match handle skill_id r ≡ true
    → listed handle skill_id (r ∷ rows) ≡ r.fields ∷ listed handle skill_id rows
matched handle skill_id r rows m = listed-row handle skill_id r rows ∙ rw m refl

unmatched :
    (handle skill_id : String) (r : PromptSkillRow) (rows : List PromptSkillRow)
    → is_match handle skill_id r ≡ false
    → listed handle skill_id (r ∷ rows) ≡ listed handle skill_id rows
unmatched handle skill_id r rows m = listed-row handle skill_id r rows ∙ rw m refl

first_and_last : (a b c : Bool) → ((a && b) && c) ≡ true → (a ≡ true) × (c ≡ true)
first_and_last true true c h = (refl, h)
first_and_last true false c h = cc h
first_and_last false b c h = cc h

one_false : (a b c : Bool) → (a && c) ≡ false → ((a && b) && c) ≡ false
one_false true true c h = h
one_false true false c h = refl
one_false false b c h = refl

-- A row under one handle and id is not under another.
other_key :
    (h i handle skill_id rh ri : String) (is_active : Bool)
    → (h == handle && i == skill_id) ≡ false
    → ((rh == h && is_active) && ri == i) ≡ true
    → (b : Bool) → ((rh == handle && b) && ri == skill_id) ≡ false
other_key h i handle skill_id rh ri is_active apart m b =
    let (own, same) = first_and_last (rh == h) is_active (ri == i) m in
    rw ((eq_iff rh h).0 own, (eq_iff ri i).0 same) (one_false (h == handle) b (i == skill_id) apart)

upsert-same :
    (h i : String) (f : SkillFields) (now : ℕ) (rows : List PromptSkillRow)
    → listed h i (upsert_prompt_skill h i f now rows) ≡ owned f ∷ tail (listed h i rows)
unfolding upsert_prompt_skill list_prompt_skills
upsert-same h i f now [] = rw (eq_refl h, eq_refl i) refl
upsert-same h i f now (r ∷ rows) = elim (Bool-cases (is_match h i r)) [
  | inl here ↦
      let set : PromptSkillRow = record r { fields = owned f; updated_at = now } in
      rw (here, matched h i r rows here) (matched h i set rows here)
  | inr later ↦
      rw (later, unmatched h i r rows later)
        (unmatched h i r (upsert_prompt_skill h i f now rows) later ∙ upsert-same h i f now rows)
]

delete-same :
    (h i : String) (now : ℕ) (rows : List PromptSkillRow)
    → listed h i (delete_prompt_skill h i now rows).1 ≡ tail (listed h i rows)
unfolding delete_prompt_skill list_prompt_skills
delete-same h i now [] = refl
delete-same h i now (r ∷ rows) = elim (Bool-cases (is_match h i r)) [
  | inl here ↦
      let gone : PromptSkillRow = record r { is_active = false; updated_at = now } in
      rw (here, matched h i r rows here) (unmatched h i gone rows (ground arith))
  | inr later ↦
      rw (later, unmatched h i r rows later)
        (unmatched h i r (delete_prompt_skill h i now rows).1 later ∙ delete-same h i now rows)
]

module _ (handle skill_id h i : String) (apart : (h == handle && i == skill_id) ≡ false) where
  upsert-other :
      (f : SkillFields) (now : ℕ) (rows : List PromptSkillRow)
      → listed handle skill_id (upsert_prompt_skill h i f now rows) ≡ listed handle skill_id rows
  unfolding upsert_prompt_skill
  upsert-other f now [] =
      unmatched handle skill_id (inserted_row h i f now) []
        (one_false (h == handle) true (i == skill_id) apart)
  upsert-other f now (r ∷ rows) = elim (Bool-cases (is_match h i r)) [
    | inl here ↦
        let set : PromptSkillRow = record r { fields = owned f; updated_at = now } in
        let not_theirs = other_key h i handle skill_id r.handle r.skill_id r.is_active apart here in
        rw here (
          unmatched handle skill_id set rows (not_theirs r.is_active)
          ∙ sym (unmatched handle skill_id r rows (not_theirs r.is_active)))
    | inr later ↦ rw later (same_head r _ rows (upsert-other f now rows))
  ]
    where
      same_head :
          (r : PromptSkillRow) (new old : List PromptSkillRow)
          → listed handle skill_id new ≡ listed handle skill_id old
          → listed handle skill_id (r ∷ new) ≡ listed handle skill_id (r ∷ old)
      same_head r new old e =
          listed-row handle skill_id r new ∙ rw e refl ∙ sym (listed-row handle skill_id r old)

  delete-other :
      (now : ℕ) (rows : List PromptSkillRow)
      → listed handle skill_id (delete_prompt_skill h i now rows).1 ≡ listed handle skill_id rows
  unfolding delete_prompt_skill
  delete-other now [] = refl
  delete-other now (r ∷ rows) = elim (Bool-cases (is_match h i r)) [
    | inl here ↦
        let gone : PromptSkillRow = record r { is_active = false; updated_at = now } in
        let not_theirs = other_key h i handle skill_id r.handle r.skill_id r.is_active apart here in
        rw here (
          unmatched handle skill_id gone rows (not_theirs false)
          ∙ sym (unmatched handle skill_id r rows (not_theirs r.is_active)))
    | inr later ↦ rw later (
        listed-row handle skill_id r (delete_prompt_skill h i now rows).1
        ∙ rw (delete-other now rows) refl
        ∙ sym (listed-row handle skill_id r rows))
  ]

both_true : (a b : Bool) → (a && b) ≡ true → (a ≡ true) × (b ≡ true)
both_true true b h = (refl, h)
both_true false b h = cc h

no_tail : (before : Option SkillFields) → tail (as_list before) ≡ []
no_tail none = refl
no_tail (some f) = refl

counted :
    (handle : String) (rows : List PromptSkillRow)
    → count_active_skills handle rows ≡ length (list_prompt_skills handle rows)
unfolding count_active_skills list_prompt_skills
counted handle [] = refl
counted handle (r ∷ rows) = elim (Bool-cases (r.handle == handle && r.is_active)) [
  | inl theirs ↦ rw theirs (ap suc (counted handle rows))
  | inr other ↦ rw other (counted handle rows)
]

module _ (handle skill_id : String) where
  change-listed :
      (c : Change) (before : Option SkillFields) (rows : List PromptSkillRow)
      → listed handle skill_id rows ≡ as_list before
      → listed handle skill_id (change c rows) ≡ as_list (latest_after handle skill_id c before)
  unfolding change
  change-listed (upserts h i f now) before rows e =
      elim (Bool-cases (h == handle && i == skill_id)) [
        | inr apart ↦ rw apart (upsert-other handle skill_id h i apart f now rows ∙ e)
        | inl own ↦
            let (theirs, same) = both_true (h == handle) (i == skill_id) own in
            rw own (
              rw ((eq_iff h handle).0 theirs, (eq_iff i skill_id).0 same)
                (upsert-same handle skill_id f now rows
                  ∙ ap (λ t. owned f ∷ t) (ap tail e ∙ no_tail before)))
      ]
  change-listed (deletes h i now) before rows e = elim (Bool-cases (h == handle && i == skill_id)) [
    | inr apart ↦ rw apart (delete-other handle skill_id h i apart now rows ∙ e)
    | inl own ↦
        let (theirs, same) = both_true (h == handle) (i == skill_id) own in
        rw own (
          rw ((eq_iff h handle).0 theirs, (eq_iff i skill_id).0 same)
            (delete-same handle skill_id now rows ∙ ap tail e ∙ no_tail before))
  ]

  run-listed :
      (cs : List Change) (before : Option SkillFields) (rows : List PromptSkillRow)
      → listed handle skill_id rows ≡ as_list before
      → listed handle skill_id (run cs rows) ≡ as_list (latest handle skill_id cs before)
  unfolding run
  run-listed [] before rows e = e
  run-listed (c ∷ cs) before rows e =
      run-listed cs (latest_after handle skill_id c before) (change c rows)
        (change-listed c before rows e)

-- The collection is a map from handles and ids to skills: after any upserts and deletions, the list of
-- a handle has the skill that was last set under an id, once, where it was not deleted since, and no
-- skill under the id otherwise; and the number that is counted is the length of the list.
pub run-latest :
    (cs : List Change) (handle skill_id : String)
    → (listed handle skill_id (run cs []) ≡ as_list (latest handle skill_id cs none))
      × (count_active_skills handle (run cs []) ≡ length (list_prompt_skills handle (run cs [])))
unfolding list_prompt_skills
run-latest cs handle skill_id =
    (run-listed handle skill_id cs none [] refl, counted handle (run cs []))
