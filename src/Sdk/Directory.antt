-- ===== src/Sdk/Directory.antt =====
-- packages/sdk/src/directory.ts: the ranked agents that serve a skill. The names are read one after
-- another here, in the order of their results. `minScore` is a fraction, `limit` and `lookback` are
-- whole numbers.
pub mod Ranked
pub mod Found
pub mod Answer
use agentdir_open_agents.Base.{
  ℕ, String, Bool, true, false, ◌||◌, Option, none, some, List, [], ◌∷◌, if◌then◌else◌, take,
}
use agentdir_open_agents.Crypto.{Crypto}
use agentdir_open_agents.Js.Map
use agentdir_open_agents.Js.Map.{Map}
use agentdir_open_agents.Js.Value.{Json, arr, Items, nil, cons, Value, prop, is_text_eq}
use agentdir_open_agents.Js.Result.{Result, ok, throw, ◌>>=◌, type_error}
use agentdir_open_agents.Js.Ratio.{Ratio, ratio, is_at_least}
use agentdir_open_agents.Sdk.Storage.{Storage}
use agentdir_open_agents.Sdk.Rep.{RankedScore, walk, score_for}
use agentdir_open_agents.Sdk.Cards.{parse_agent_card}
use agentdir_open_agents.Sdk.Ens.{EnsClient, get_record_bundle}

pub record DirectoryQuery : Type 0 where
  pub skill : String
  pub min_score : Option Ratio
  pub limit : Option ℕ
  pub lookback : Option ℕ

pub record DirectoryEntry : Type 0 where
  pub ens : String
  pub card : Json
  pub inft_token_id : Option String
  pub rep_head : Option String
  pub score : RankedScore

abbrev default_to {ℓ} : {A : Type ℓ} → A → Option A → A
default_to d none = d
default_to d (some a) = a

abbrev pub lookback_of : DirectoryQuery → ℕ
lookback_of q = default_to 50 q.lookback

abbrev pub min_score_of : DirectoryQuery → Ratio
min_score_of q = default_to (ratio 0 1) q.min_score

abbrev pub limit_of : DirectoryQuery → ℕ
limit_of q = default_to 10 q.limit

-- `card.skills.some((s) => s.id === skill)`
abbrev pub some_skill : String → Items → Bool
some_skill skill nil = false
some_skill skill (cons s ss) = is_text_eq skill (prop "id" s) || some_skill skill ss

abbrev pub serves : String → Value → Result Bool
serves skill (some (arr ss)) = ok (some_skill skill ss)
serves skill _ = throw type_error

abbrev pub no_score : RankedScore
no_score = record { n = 0; ok = 0; ratio = ratio 0 1; score = ratio 0 1 }

module _ (C : Crypto) (S : Storage) (client : EnsClient) (stringify : Json → String)
    (parse : String → Option Json) (store : S.Store) where
  abbrev pub scored : String → String → ℕ → Result (List Json) → RankedScore
  scored token skill lookback (ok atts) = score_for atts token (some skill) (some lookback)
  scored token skill lookback (throw e) = no_score

  abbrev pub score_at : Option String → Option String → String → ℕ → RankedScore
  score_at (some head) (some token) skill lookback =
      scored token skill lookback (walk C S head lookback none store)
  score_at (some head) none skill lookback = no_score
  score_at none token skill lookback = no_score

  abbrev pub entry_of : String → Json → Map String → String → ℕ → DirectoryEntry
  entry_of ens card bundle skill lookback =
      let token = Map.get "org.erc7857.tokenId" bundle in
      let head = Map.get "network.agentdir.rep-head" bundle in
      record {
        ens = ens;
        card = card;
        inft_token_id = token;
        rep_head = head;
        score = score_at head token skill lookback;
      }

  abbrev pub listed : Bool → DirectoryEntry → Option DirectoryEntry
  listed true e = some e
  listed false e = none

  -- The card is read; a card that is none is left out.
  abbrev pub with_card :
      String → Map String → String → ℕ → Result Json → Result (Option DirectoryEntry)
  with_card ens bundle skill lookback (throw e) = ok none
  with_card ens bundle skill lookback (ok card) = serves skill (prop "skills" card) >>= λ yes.
      ok (listed yes (entry_of ens card bundle skill lookback))

  abbrev pub with_text :
      String → Map String → String → ℕ → Option String → Result (Option DirectoryEntry)
  with_text ens bundle skill lookback none = ok none
  with_text ens bundle skill lookback (some json) =
      with_card ens bundle skill lookback (parse_agent_card stringify parse json)

  abbrev pub with_bundle :
      String → String → ℕ → Result (Map String) → Result (Option DirectoryEntry)
  with_bundle ens skill lookback (throw e) = ok none
  with_bundle ens skill lookback (ok bundle) =
      with_text ens bundle skill lookback (Map.get "org.a2a.agent-card" bundle)

  unfoldable pub entry_for : String → String → ℕ → Result (Option DirectoryEntry)
  entry_for ens skill lookback = with_bundle ens skill lookback (get_record_bundle client ens)

  abbrev pub and_entry : Option DirectoryEntry → List DirectoryEntry → List DirectoryEntry
  and_entry none es = es
  and_entry (some e) es = e ∷ es

  -- The entries of the names, without those that are null.
  unfoldable pub entries_for : List String → String → ℕ → Result (List DirectoryEntry)
  unfolding entry_for
  entries_for [] skill lookback = ok []
  entries_for (name ∷ names) skill lookback = do
    e ← entry_for name skill lookback
    es ← entries_for names skill lookback
    ok (and_entry e es)

-- `e.score.score >= minScore`
abbrev pub qualified : Ratio → List DirectoryEntry → List DirectoryEntry
qualified least [] = []
qualified least (e ∷ es) =
    if is_at_least e.score.score least then e ∷ qualified least es else qualified least es

-- `sort((a, b) => b.score.score - a.score.score)`, which is stable.
abbrev pub insert : DirectoryEntry → List DirectoryEntry → List DirectoryEntry
insert e [] = e ∷ []
insert e (x ∷ xs) = if is_at_least e.score.score x.score.score then e ∷ x ∷ xs else x ∷ insert e xs

abbrev pub ranked : List DirectoryEntry → List DirectoryEntry
ranked [] = []
ranked (e ∷ es) = insert e (ranked es)

module _ (C : Crypto) (S : Storage) (client : EnsClient) (stringify : Json → String)
    (parse : String → Option Json) (seed : List String) (store : S.Store) where
  unfoldable pub query : DirectoryQuery → Result (List DirectoryEntry)
  unfolding entries_for
  query q = entries_for C S client stringify parse store seed q.skill (lookback_of q) >>= λ es.
      ok (take (limit_of q) (ranked (qualified (min_score_of q) es)))
