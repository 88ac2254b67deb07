-- ===== src/Sdk/Directory/Found.antt =====
-- The entries that packages/sdk/src/directory.ts finds for the names of a seed.
use agentdir_open_agents.Base.{
  ℕ, ◌≡◌, refl, ◌⊎◌, inl, inr, String, true, false, Option, none, some, List, [], ◌∷◌, Bool-cases,
}
use agentdir_open_agents.Crypto.{Crypto}
use agentdir_open_agents.Js.Map
use agentdir_open_agents.Js.Map.{Map}
use agentdir_open_agents.Js.Value.{Json, arr, Items, prop}
use agentdir_open_agents.Js.Result.{Result, ok, throw}
use agentdir_open_agents.Sdk.Storage.{Storage}
use agentdir_open_agents.Sdk.Rep.{RankedScore, walk, score_for}
use agentdir_open_agents.Sdk.Cards.{parse_agent_card}
use agentdir_open_agents.Sdk.Cards.Valid.{IsCard, parse_agent_card-IsCard}
use agentdir_open_agents.Sdk.Ens.{EnsClient, get_record_bundle}
use agentdir_open_agents.Sdk.Directory.{
  DirectoryEntry, some_skill, no_score, score_at, entry_of, with_card, with_text, with_bundle,
  entry_for, and_entry, entries_for,
}

module _ (C : Crypto) (S : Storage) (client : EnsClient) (stringify : Json → String)
    (parse : String → Option Json) (store : S.Store) (skill : String) (lookback : ℕ) where
  -- The score is that of the attestations that are read from the head of the agent's chain, and zero
  -- where the agent has no head or no token, or its chain cannot be read.
  abbrev pub IsScore : Option String → Option String → RankedScore → Type 0
  IsScore (some head) (some token) s =
      ((atts : List Json) × (walk C S head lookback none store ≡ ok atts)
        × (s ≡ score_for atts token (some skill) (some lookback)))
      ⊎ ((e : String) × (walk C S head lookback none store ≡ throw e) × (s ≡ no_score))
  IsScore (some head) none s = s ≡ no_score
  IsScore none token s = s ≡ no_score

  -- The entry is the one of the name: the records of the name are read, the card is the one of its
  -- records, passes the check and lists the skill, and the token, the head and the score are those
  -- of the records.
  pub record IsEntryOf (ens : String) (e : DirectoryEntry) : Type 0 where
    pub named : e.ens ≡ ens
    pub bundle : Map String
    pub read : get_record_bundle client ens ≡ ok bundle
    pub json : String
    pub recorded : Map.get "org.a2a.agent-card" bundle ≡ some json
    pub parsed : parse_agent_card stringify parse json ≡ ok e.card
    pub valid : IsCard e.card
    pub listed :
        (ss : Items) × (prop "skills" e.card ≡ some (arr ss)) × (some_skill skill ss ≡ true)
    pub token : e.inft_token_id ≡ Map.get "org.erc7857.tokenId" bundle
    pub head : e.rep_head ≡ Map.get "network.agentdir.rep-head" bundle
    pub scored : IsScore e.rep_head e.inft_token_id e.score

  -- Why a name has no entry.
  pub data IsLeftOut (ens : String) : Type 0 where
    unread : (e : String) → get_record_bundle client ens ≡ throw e → IsLeftOut ens
    cardless :
        (bundle : Map String)
        → get_record_bundle client ens ≡ ok bundle
        → Map.get "org.a2a.agent-card" bundle ≡ none
        → IsLeftOut ens
    invalid :
        (bundle : Map String) (json e : String)
        → get_record_bundle client ens ≡ ok bundle
        → Map.get "org.a2a.agent-card" bundle ≡ some json
        → parse_agent_card stringify parse json ≡ throw e
        → IsLeftOut ens
    unskilled :
        (bundle : Map String) (json : String) (card : Json) (ss : Items)
        → get_record_bundle client ens ≡ ok bundle
        → Map.get "org.a2a.agent-card" bundle ≡ some json
        → parse_agent_card stringify parse json ≡ ok card
        → prop "skills" card ≡ some (arr ss)
        → some_skill skill ss ≡ false
        → IsLeftOut ens

  -- The entries are those of the names that have one, in the order of the names.
  abbrev pub AreEntriesOf : List String → List DirectoryEntry → Type 0
  AreEntriesOf [] [] = Unit
  AreEntriesOf [] (e ∷ es) = ⊥
  AreEntriesOf (name ∷ names) [] = IsLeftOut name × AreEntriesOf names []
  AreEntriesOf (name ∷ names) (e ∷ es) =
      (IsLeftOut name × AreEntriesOf names (e ∷ es)) ⊎ (IsEntryOf name e × AreEntriesOf names es)

  abbrev IsFound : String → Option DirectoryEntry → Type 0
  IsFound name none = IsLeftOut name
  IsFound name (some e) = IsEntryOf name e

  score_at-IsScore :
      (head token : Option String)
      → IsScore head token (score_at C S client stringify parse store head token skill lookback)
  score_at-IsScore (some head) (some token) = on_walk (walk C S head lookback none store) refl
    where
      on_walk :
          (r : Result (List Json))
          → walk C S head lookback none store ≡ r
          → IsScore
              (some head)
              (some token)
              (score_at C S client stringify parse store (some head) (some token) skill lookback)
      on_walk (ok atts) e = inl (atts, e, rw e refl)
      on_walk (throw why) e = inr (why, e, rw e refl)
  score_at-IsScore (some head) none = refl
  score_at-IsScore none token = refl

  with_card-IsFound :
      (ens json : String) (bundle : Map String) (r : Result Json)
      → get_record_bundle client ens ≡ ok bundle
      → Map.get "org.a2a.agent-card" bundle ≡ some json
      → parse_agent_card stringify parse json ≡ r
      → (o : Option DirectoryEntry) × (with_card C S client stringify parse store ens bundle skill
            lookback r
          ≡ ok o)
        × IsFound ens o
  with_card-IsFound ens json bundle (throw e) h k p = (none, refl, invalid bundle json e h k p)
  with_card-IsFound ens json bundle (ok card) h k p =
      let (_, valid) = parse_agent_card-IsCard stringify parse json card p in
      let (ss, skills, all) = valid.skills in
      elim (Bool-cases (some_skill skill ss)) [
        | inl yes_skill ↦
            let e = entry_of C S client stringify parse store ens card bundle skill lookback in
            let found : IsEntryOf ens e = record {
              named = refl;
              bundle = bundle;
              read = h;
              json = json;
              recorded = k;
              parsed = p;
              valid = valid;
              listed = (ss, skills, yes_skill);
              token = refl;
              head = refl;
              scored = score_at-IsScore e.rep_head e.inft_token_id;
            } in
            (some e, rw (skills, yes_skill) refl, found)
        | inr no_skill ↦
            (none, rw (skills, no_skill) refl, unskilled bundle json card ss h k p skills no_skill)
      ]

  with_text-IsFound :
      (ens : String) (bundle : Map String) (t : Option String)
      → get_record_bundle client ens ≡ ok bundle
      → Map.get "org.a2a.agent-card" bundle ≡ t
      → (o : Option DirectoryEntry) × (with_text C S client stringify parse store ens bundle skill
            lookback t
          ≡ ok o)
        × IsFound ens o
  with_text-IsFound ens bundle none h k = (none, refl, cardless bundle h k)
  with_text-IsFound ens bundle (some json) h k =
      with_card-IsFound ens json bundle (parse_agent_card stringify parse json) h k refl

  with_bundle-IsFound :
      (ens : String) (r : Result (Map String))
      → get_record_bundle client ens ≡ r
      → (o : Option DirectoryEntry) × (with_bundle C S client stringify parse store ens skill
            lookback r
          ≡ ok o)
        × IsFound ens o
  with_bundle-IsFound ens (throw e) h = (none, refl, unread e h)
  with_bundle-IsFound ens (ok bundle) h =
      with_text-IsFound ens bundle (Map.get "org.a2a.agent-card" bundle) h refl

  entry_for-IsFound :
      (ens : String)
      → (o : Option DirectoryEntry) × (entry_for C S client stringify parse store ens skill lookback
          ≡ ok o)
        × IsFound ens o
  unfolding entry_for
  entry_for-IsFound ens = with_bundle-IsFound ens (get_record_bundle client ens) refl

  and_entry-AreEntriesOf :
      (name : String) (names : List String) (o : Option DirectoryEntry) (es : List DirectoryEntry)
      → IsFound name o
      → AreEntriesOf names es
      → AreEntriesOf (name ∷ names) (and_entry C S client stringify parse store o es)
  and_entry-AreEntriesOf name names none [] h all = (h, all)
  and_entry-AreEntriesOf name names none (e ∷ es) h all = inl (h, all)
  and_entry-AreEntriesOf name names (some e) es h all = inr (h, all)

  -- The entries are read, whatever the services do.
  pub entries_for-AreEntriesOf :
      (names : List String)
      → (es : List DirectoryEntry) × (entries_for C S client stringify parse store names skill
            lookback
          ≡ ok es)
        × AreEntriesOf names es
  unfolding entries_for
  entries_for-AreEntriesOf [] = ([], refl, tt)
  entries_for-AreEntriesOf (name ∷ names) =
      let (o, got, found) = entry_for-IsFound name in
      let (es, others, all) = entries_for-AreEntriesOf names in
      (
        and_entry C S client stringify parse store o es,
        rw (got, others) refl,
        and_entry-AreEntriesOf name names o es found all,
      )
