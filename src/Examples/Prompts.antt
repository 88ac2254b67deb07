-- ===== src/Examples/Prompts.antt =====
-- Changes of the skills of two agents.
use agentdir_open_agents.Base.{◌≡◌, String, none, List, [], ◌∷◌, length}
use agentdir_open_agents.Web.PromptSkills.{SkillFields, list_prompt_skills, count_active_skills}
use agentdir_open_agents.Web.PromptSkills.Latest.{
  Change, upserts, deletes, listed, run, latest, as_list, run-latest,
}

abbrev joke : String → SkillFields
joke prompt = record {
  ens = "alice.agents.eth";
  owner_address = "0xAB";
  name = "joke";
  description = "tells a joke";
  tags = [];
  prompt = prompt;
  max_tokens = 80;
  pricing = none;
}

abbrev changes : List Change
changes =
    upserts "alice" "joke" (joke "A joke.") 1
    ∷ upserts "bob" "joke" (joke "A pun.") 2
    ∷ deletes "alice" "joke" 3
    ∷ upserts "alice" "joke" (joke "A long joke.") 4
    ∷ upserts "alice" "joke" (joke "A short joke.") 5
    ∷ []

run-latest_example :
    (listed "alice" "joke" (run changes []) ≡ as_list (latest "alice" "joke" changes none))
    × (count_active_skills "alice" (run changes [])
        ≡ length (list_prompt_skills "alice" (run changes [])))
run-latest_example = run-latest changes "alice" "joke"
