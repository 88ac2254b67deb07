-- ===== src/Web/Auth/Once.antt =====
-- Requests that answer challenges of Frontend/lib/wallet-auth.ts at the same time. A request makes two
-- steps: the atomic update of the row, and, after the check of its signature, its end, which gives the
-- row back where the signature is none. Rows that are over are deleted at any time.
pub mod Single
pub mod Steps
pub mod Bound
use agentdir_open_agents.Base.{
  ℕ, ◌+◌, ◌≤◌, ◌≡◌, ◌≢◌, refl, sym, ap, ◌∙◌, ◌⊎◌, inl, inr, String, Bool, true, false, ◌&&◌, not,
  Option, none, some, List, [], ◌∷◌, ◌++◌, ◌==◌, eq_iff, eq_refl, eqb, leb, ltb, Bool-cases,
  Option-cases, if◌then◌else◌, arith,
}
use agentdir_open_agents.Js.Map
use agentdir_open_agents.Js.Map.{IsMap, get-set, get-delete, set-IsMap, delete-IsMap}
use agentdir_open_agents.Js.Result.{Result, ok, throw}
use agentdir_open_agents.Web.Auth.{
  Row, Rows, Challenge, AuthInput, VerifyResult, verified, rejected, Begun, refused, held,
  find_nonce, is_open_to, on_nonce, issue_challenge, is_action, begin, is_valid, settle_auth,
  unconsumed, row_for, challenge_for,
}

pub data Event : Type 0 where
  issues : String → String → String → String → ℕ → Event
  begins : ℕ → AuthInput → ℕ → Event
  settles : ℕ → Event
  expires : String → ℕ → Event

abbrev pub Waiting : Type 0
Waiting = ℕ × String × AuthInput

-- The rows, the requests that hold a nonce, and the nonces that were accepted.
pub record World : Type 0 where
  pub rows : Rows
  pub waiting : List Waiting
  pub accepted : List String

abbrev pub expired : ℕ → String → Option Row → Rows → Rows
expired now nonce none rows = rows
expired now nonce (some row) rows = if leb row.expires_at now then Map.delete nonce rows else rows

-- The first request of the number, and the others.
unfoldable pub find_waiting : ℕ → List Waiting → Option Waiting
find_waiting id [] = none
find_waiting id ((i, nonce, input) ∷ ws) =
    if eqb i id then some (i, nonce, input) else find_waiting id ws

unfoldable pub drop_waiting : ℕ → List Waiting → List Waiting
drop_waiting id [] = []
drop_waiting id ((i, nonce, input) ∷ ws) =
    if eqb i id then ws else (i, nonce, input) ∷ drop_waiting id ws

module _ (is_address : String → Bool)
    (verify_message : String → String → String → Result Bool) where
  abbrev pub begun : ℕ → AuthInput → Begun × Rows → World → World
  begun id input (refused why, rows) w = record w { rows = rows }
  begun id input (held nonce, rows) w = record w {
    rows = rows;
    waiting = (id, nonce, input) ∷ w.waiting;
  }

  abbrev pub settled_as : String → VerifyResult × Rows → List Waiting → World → World
  settled_as nonce (verified, rows) rest w = record {
    rows = rows;
    waiting = rest;
    accepted = nonce ∷ w.accepted;
  }
  settled_as nonce (rejected why, rows) rest w = record w { rows = rows; waiting = rest }

  abbrev pub settle_found : Option Waiting → List Waiting → World → World
  settle_found none rest w = w
  settle_found (some (id, nonce, input)) rest w =
      settled_as nonce (settle_auth verify_message nonce input w.rows) rest w

  unfoldable pub happens : Event → World → World
  unfolding find_waiting drop_waiting
  happens (issues action owner ens nonce now) w = record w {
    rows = (issue_challenge is_address action owner ens nonce now w.rows).1;
  }
  happens (begins id input now) w = begun id input (begin is_address input now w.rows) w
  happens (settles id) w = settle_found (find_waiting id w.waiting) (drop_waiting id w.waiting) w
  happens (expires nonce now) w = record w {
    rows = expired now nonce (Map.get nonce w.rows) w.rows;
  }

  unfoldable pub run : List Event → World → World
  unfolding happens
  run [] w = w
  run (e ∷ es) w = run es (happens e w)
