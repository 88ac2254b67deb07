-- ===== src/Sdk/Directory/Answer.antt =====
-- What `query` of packages/sdk/src/directory.ts answers.
use mathlib.Core.List.{Perm}
use mathlib.Core.List.Perm
use agentdir_open_agents.Base.{
  ℕ, ◌≡◌, refl, String, false, Option, List, ◌++◌, min, length, take, drop, length-take,
  take-append-drop,
}
use agentdir_open_agents.Crypto.{Crypto}
use agentdir_open_agents.Js.Value.{Json}
use agentdir_open_agents.Js.Result.{ok}
use agentdir_open_agents.Js.Ratio.{Ratio, is_at_least}
use agentdir_open_agents.Sdk.Storage.{Storage}
use agentdir_open_agents.Sdk.Ens.{EnsClient}
use agentdir_open_agents.Sdk.Directory.{
  DirectoryQuery, DirectoryEntry, lookback_of, min_score_of, limit_of, qualified, ranked, query,
}
use agentdir_open_agents.Sdk.Directory.Ranked.{
  All, Beats, IsSorted, below, below-All, qualified-IsProper, qualified-Beats, qualified-Perm,
  ranked-All, ranked-IsSorted, ranked-Perm,
}
use agentdir_open_agents.Sdk.Directory.Found.{AreEntriesOf, entries_for-AreEntriesOf}

-- The answer, the others and the low ones are together the entries that were found: the low ones are
-- those whose score is below the least one; the answer and the others reach it, and follow each
-- other best first. The answer has all of these that the limit allows.
pub record IsRanking (least : Ratio) (limit : ℕ) (found es : List DirectoryEntry) : Type 0 where
  pub others : List DirectoryEntry
  pub low : List DirectoryEntry
  pub same : Perm ((es ++ others) ++ low) found
  pub too_low : All (λ e. is_at_least e.score.score least ≡ false) low
  pub high : All (λ e. Beats e.score.score least) (es ++ others)
  pub sorted : IsSorted (es ++ others)
  pub size : length es ≡ min limit (length (es ++ others))

take-IsRanking :
    (least : Ratio) (limit : ℕ) (found : List DirectoryEntry)
    → IsRanking least limit found (take limit (ranked (qualified least found)))
take-IsRanking least limit found =
    let good = qualified least found in
    let all = ranked good in
    record {
      others = drop limit all;
      low = below least found;
      same = rw (take-append-drop limit all) (
          Perm.trans (Perm.append_right (below least found) (ranked-Perm good))
            (qualified-Perm least found));
      too_low = below-All least found;
      high = rw (take-append-drop limit all) (ranked-All _ good (qualified-Beats least found));
      sorted =
          rw (take-append-drop limit all) (ranked-IsSorted good (qualified-IsProper least found));
      size = rw (take-append-drop limit all) (length-take limit all);
    }

module _ (C : Crypto) (S : Storage) (client : EnsClient) (stringify : Json → String)
    (parse : String → Option Json) (store : S.Store) where
  -- A query never throws, whatever the services do. It finds one entry for each name of the seed whose
  -- records are read and have a card that passes the check and lists the skill, with the score of the
  -- attestations of its chain, or zero where there are none to read; and it leaves out a name only for
  -- want of these. It answers with those of the entries whose score is at least the least one asked
  -- for, best first and up to the limit: no entry that the limit cuts off has a higher score than one
  -- that is listed.
  pub query-IsRanking :
      (seed : List String) (q : DirectoryQuery)
      → (found es : List DirectoryEntry) × (query C S client stringify parse seed store q ≡ ok es)
        × AreEntriesOf C S client stringify parse store q.skill (lookback_of q) seed found
        × IsRanking (min_score_of q) (limit_of q) found es
  unfolding query
  query-IsRanking seed q =
      let (found, got, all) =
        entries_for-AreEntriesOf C S client stringify parse store q.skill (lookback_of q) seed in
      (
        found,
        take (limit_of q) (ranked (qualified (min_score_of q) found)),
        rw got refl,
        all,
        take-IsRanking (min_score_of q) (limit_of q) found,
      )
