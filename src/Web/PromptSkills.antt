-- ===== src/Web/PromptSkills.antt =====
-- Frontend/lib/prompt-skills.ts: the collection `prompt_skills`, where a row that is deleted stays.
pub mod Latest
use agentdir_open_agents.Base.{
  ℕ, String, Bool, true, false, ◌&&◌, Option, none, some, List, [], ◌∷◌, ◌++◌, ◌==◌, length,
  if◌then◌else◌,
}
use agentdir_open_agents.Js.Text.{to_lower}
use agentdir_open_agents.Js.Value.{Value}

-- The fields that an update sets, but the time.
pub record SkillFields : Type 0 where
  pub ens : String
  pub owner_address : String
  pub name : String
  pub description : String
  pub tags : List String
  pub prompt : String
  pub max_tokens : ℕ
  pub pricing : Value

-- `status` is "active" or "deleted".
pub record PromptSkillRow : Type 0 where
  pub handle : String
  pub skill_id : String
  pub fields : SkillFields
  pub is_active : Bool
  pub created_at : ℕ
  pub updated_at : ℕ

unfoldable pub list_prompt_skills : String → List PromptSkillRow → List PromptSkillRow
list_prompt_skills handle [] = []
list_prompt_skills handle (r ∷ rows) =
    let rest = list_prompt_skills handle rows in
    if r.handle == handle && r.is_active then r ∷ rest else rest

-- The filter of the updates.
abbrev pub is_match : String → String → PromptSkillRow → Bool
is_match handle skill_id r = (r.handle == handle && r.is_active) && r.skill_id == skill_id

abbrev pub owned : SkillFields → SkillFields
owned f = record f { owner_address = to_lower f.owner_address }

abbrev pub inserted_row : String → String → SkillFields → ℕ → PromptSkillRow
inserted_row handle skill_id fields now = record {
  handle = handle;
  skill_id = skill_id;
  fields = owned fields;
  is_active = true;
  created_at = now;
  updated_at = now;
}

-- `updateOne` with `upsert`: the first row of the filter is set, or a new one is inserted.
unfoldable pub upsert_prompt_skill :
    String → String → SkillFields → ℕ → List PromptSkillRow → List PromptSkillRow
upsert_prompt_skill handle skill_id fields now [] = inserted_row handle skill_id fields now ∷ []
upsert_prompt_skill handle skill_id fields now (r ∷ rows) =
    let rest = upsert_prompt_skill handle skill_id fields now rows in
    if is_match handle skill_id r
    then record r { fields = owned fields; updated_at = now } ∷ rows
    else r ∷ rest

-- `updateOne`: the first row of the filter, with whether there was one.
unfoldable pub delete_prompt_skill :
    String → String → ℕ → List PromptSkillRow → Bool × List PromptSkillRow
delete_prompt_skill handle skill_id now [] = (false, [])
delete_prompt_skill handle skill_id now (r ∷ rows) =
    let (found, rest) = delete_prompt_skill handle skill_id now rows in
    if is_match handle skill_id r
    then (true, record r { is_active = false; updated_at = now } ∷ rows)
    else (found, r ∷ rest)

unfoldable pub count_active_skills : String → List PromptSkillRow → ℕ
count_active_skills handle [] = 0
count_active_skills handle (r ∷ rows) =
    let rest = count_active_skills handle rows in
    if r.handle == handle && r.is_active then ℕ.suc rest else rest
