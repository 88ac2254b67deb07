-- ===== src/Examples/Web.antt =====
-- Runs of the server's limiter and of its challenges.
use agentdir_open_agents.Base.{
  ◌+◌, ◌≡◌, ◌≤◌, refl, String, Bool, true, false, List, [], ◌∷◌, arith, ◌==◌, eq_iff,
}
use agentdir_open_agents.Js.Map
use agentdir_open_agents.Js.Text.{to_lower}
use agentdir_open_agents.Js.Result.{Result, ok}
use agentdir_open_agents.Web.RateLimit.{Bucket, Buckets, rate_limit}
use agentdir_open_agents.Web.RateLimit.Open.{Call, allowed_count}
use agentdir_open_agents.Web.RateLimit.Window.{allowed_count_bounds}
use agentdir_open_agents.Web.Auth.{
  AuthInput, build_message, find_nonce, challenge_for, verified, rejected, begin, settle_auth,
  issue_challenge, verify_and_consume,
}
use agentdir_open_agents.Web.Auth.Parse.{issue_challenge-verify_and_consume}
use agentdir_open_agents.Web.Auth.Once.{Event, issues, begins, settles, run}
use agentdir_open_agents.Web.Auth.Once.Single.{count}
use agentdir_open_agents.Web.Auth.Once.Bound.{no_world, run-accepted_once}

-- A bucket whose window is over at the time 4.
abbrev old_bucket : Bucket
old_bucket = record { count = 7; reset_at = 4 }

abbrev buckets : Buckets
buckets = ("a", old_bucket) ∷ []

-- Two calls of one key, and one of another, in a window of 60 seconds.
abbrev calls : List Call
calls = ("a", 1, 60000, 5) ∷ ("b", 3, 60000, 6) ∷ ("a", 1, 60000, 7) ∷ []

allowed_count_bounds_example :
    (allowed_count "a" calls buckets ≤ 1) × (allowed_count "a" calls buckets ≤ 1 + 1)
unfolding Map.get
allowed_count_bounds_example =
    allowed_count_bounds "a" 1 60000 4 calls buckets (tt, tt)
      (
        omega arith,
        omega arith,
        (λ _. (refl, refl)),
        (
          omega arith,
          omega arith,
          (λ e. let equal : false ≡ true = (eq_iff "b" "a").1 e in cc equal),
          (omega arith, omega arith, (λ _. (refl, refl)), tt),
        ),
      )
      (omega arith)

-- Of these two calls one is allowed.
allowed_of_calls : allowed_count "a" calls buckets ≡ 1
unfolding allowed_count rate_limit Map.get Map.set Map.delete
allowed_of_calls = refl

abbrev nonce : String
nonce = "0123456789abcdef0123456789abcdef"

abbrev owner : String
owner = "0xAB"

abbrev every_address : String → Bool
every_address a = true

-- A signature is the text "signed".
abbrev is_signed : String → String → String → Result Bool
is_signed address message signature = ok (signature == "signed")

abbrev answered : AuthInput
answered = record {
  owner_address = owner;
  ens = "a.eth";
  message = build_message "mint" owner "a.eth" nonce;
  signature = "signed";
}

issue_challenge-verify_and_consume_example :
    let (challenge, issued_rows) = issue_challenge every_address "mint" owner "a.eth" nonce 7 [] in
    let (first, first_rows) = verify_and_consume every_address is_signed answered 8 issued_rows in
    (challenge ≡ ok (challenge_for "mint" owner "a.eth" nonce 7))
    × (first ≡ verified)
    × (why : String) × (verify_and_consume every_address is_signed answered 9 first_rows
        ≡ (rejected why, first_rows))
unfolding to_lower Map.has
issue_challenge-verify_and_consume_example =
    issue_challenge-verify_and_consume every_address is_signed "mint" owner "a.eth" nonce "signed" 7
      [] 8 9 answered refl refl refl refl refl refl (omega arith) refl refl

-- A name with a line end that spells a nonce: the challenge is issued, and its answer is refused.
abbrev two_lines : String
two_lines = "a.eth\nnonce: ffffffffffffffffffffffffffffffff"

abbrev two_lines_answer : AuthInput
two_lines_answer = record answered {
  ens = two_lines;
  message = build_message "mint" owner two_lines nonce;
}

two_lines_refused :
    let (challenge, issued_rows) =
      issue_challenge every_address "mint" owner two_lines nonce 7 [] in
    (challenge ≡ ok (challenge_for "mint" owner two_lines nonce 7))
    × ((verify_and_consume every_address is_signed two_lines_answer 8 issued_rows).0
        ≡ rejected "nonce missing, expired, or replayed")
unfolding issue_challenge verify_and_consume begin settle_auth build_message to_lower Map.has
    Map.get Map.set find_nonce
two_lines_refused = (refl, refl)

-- Two answers of one challenge begin before the first of them ends.
abbrev events : List Event
events =
    issues "mint" owner "a.eth" nonce 7
    ∷ begins 0 answered 8
    ∷ begins 1 answered 9
    ∷ settles 1
    ∷ settles 0
    ∷ []

run-accepted_once_example : count nonce (run every_address is_signed events no_world).accepted ≤ 1
run-accepted_once_example = run-accepted_once every_address is_signed nonce events (omega arith)

-- In this run the nonce is accepted.
accepted_run : (run every_address is_signed events no_world).accepted ≡ nonce ∷ []
unfolding run begin build_message to_lower Map.get issue_challenge Map.has Map.set settle_auth
accepted_run = refl
