-- ===== src/Web/Auth.antt =====
-- Frontend/lib/wallet-auth.ts: challenges that a wallet signs once. The collection `auth_nonces` is a
-- map from the nonce, its `_id`, to the row; its calls are atomic. `isAddress` and `verifyMessage` of
-- viem are parameters, and the random nonce is an argument.
pub mod Parse
pub mod Once
use Prim.Native.Char.{code}
use Prim.Native.String.{◌++◌}
use agentdir_open_agents.Base.{
  ℕ, zero, suc, ◌+◌, String, Bool, true, false, ◌&&◌, ◌||◌, not, Option, none, some, List, [], ◌∷◌,
  ◌==◌, leb, ltb, eqb, if◌then◌else◌,
}
use agentdir_open_agents.Js.Map
use agentdir_open_agents.Js.Map.{Map}
use agentdir_open_agents.Js.Text.{to_lower}
use agentdir_open_agents.Js.Text.Parts.{join}
use agentdir_open_agents.Js.Result.{Result, ok, throw}

-- NONCE_TTL_SEC is 60.
pub record Row : Type 0 where
  pub owner_address : String
  pub ens : String
  pub action : String
  pub message : String
  pub expires_at : ℕ
  pub consumed_at : Option ℕ

abbrev pub Rows : Type 0
Rows = Map Row

pub record Challenge : Type 0 where
  pub nonce : String
  pub message : String
  pub expires_at : ℕ

unfoldable pub build_message : String → String → String → String → String
unfolding join
build_message action owner ens nonce = join "\n" (
    "agentdir authorization"
    ∷ ("action: " ++ action)
    ∷ ("owner: " ++ to_lower owner)
    ∷ ("ens: " ++ ens)
    ∷ ("nonce: " ++ nonce)
    ∷ "expires: 60s"
    ∷ [])

abbrev pub is_action : String → Bool
is_action t = t == "mint" || (t == "snapshot" || (t == "transfer" || t == "skill-edit"))

-- `insertOne` refuses an `_id` that is there.
abbrev pub insert_one : String → Row → Rows → Result Rows
insert_one nonce row rows =
    if Map.has nonce rows then throw "E11000 duplicate key" else ok (Map.set nonce row rows)

abbrev pub issued : Challenge → Result Rows → Rows → Result Challenge × Rows
issued c (ok rows) before = (ok c, rows)
issued c (throw e) before = (throw e, before)

abbrev pub challenge_for : String → String → String → String → ℕ → Challenge
challenge_for action owner ens nonce now = record {
  nonce = nonce;
  message = build_message action owner ens nonce;
  expires_at = now + 60000;
}

abbrev pub row_for : String → String → String → String → ℕ → Row
row_for action owner ens nonce now = record {
  owner_address = to_lower owner;
  ens = ens;
  action = action;
  message = build_message action owner ens nonce;
  expires_at = now + 60000;
  consumed_at = none;
}

pub record AuthInput : Type 0 where
  pub owner_address : String
  pub ens : String
  pub message : String
  pub signature : String

-- `{ ok: true }`, or `{ ok: false, reason }`.
pub data VerifyResult : Type 0 where
  verified : VerifyResult
  rejected : String → VerifyResult

-- The text after a prefix.
unfoldable pub after_prefix : String → String → Option String
after_prefix String.[] s = some s
after_prefix (String.◌∷◌ c p) String.[] = none
after_prefix (String.◌∷◌ c p) (String.◌∷◌ d s) =
    let rest = after_prefix p s in if eqb (code c) (code d) then rest else none

abbrev pub is_low_hex : ℕ → Bool
is_low_hex c = (leb b'0' c && leb c b'9') || (leb b'a' c && leb c b'f')

abbrev pub with_first : String → Option (String × String) → Option (String × String)
with_first t none = none
with_first t (some (taken, rest)) = some (t ++ taken, rest)

-- [0-9a-f]{n} at the start of the text, and what follows.
unfoldable pub take_hex : ℕ → String → Option (String × String)
take_hex zero s = some ("", s)
take_hex (suc n) String.[] = none
take_hex (suc n) (String.◌∷◌ c s) =
    let more = take_hex n s in
    if is_low_hex (code c) then with_first (String.◌∷◌ c "") more else none

abbrev pub closed_by : String → Option (String × String) → Option String
closed_by end none = none
closed_by end (some (nonce, rest)) = elim (after_prefix end rest) [
  | none ↦ none
  | some _ ↦ some nonce
]

abbrev pub hex_line : Option String → Option String
hex_line none = none
hex_line (some rest) = closed_by "\n" (take_hex 32 rest)

-- The expression at the start of the text.
unfoldable pub nonce_here : String → Option String
unfolding after_prefix take_hex
nonce_here s = hex_line (after_prefix "\nnonce: " s)

abbrev pub or_later : Option String → Option String → Option String
or_later none later = later
or_later (some n) later = some n

-- The first match of /\nnonce: ([0-9a-f]{32})\n/.
unfoldable pub find_nonce : String → Option String
unfolding nonce_here
find_nonce String.[] = nonce_here ""
find_nonce (String.◌∷◌ c s) = or_later (nonce_here (String.◌∷◌ c s)) (find_nonce s)

abbrev pub is_open_to : AuthInput → ℕ → Row → Bool
is_open_to input now row =
    row.owner_address == to_lower input.owner_address
    && (row.ens == input.ens
        && (elim row.consumed_at [ none ↦ true | some _ ↦ false ] && ltb now row.expires_at))

-- `findOneAndUpdate`: the row before, and it is consumed.
abbrev pub consume_row : String → AuthInput → ℕ → Option Row → Rows → Option Row × Rows
consume_row nonce input now none rows = (none, rows)
consume_row nonce input now (some row) rows =
    if is_open_to input now row
    then (some row, Map.set nonce (record row { consumed_at = some now }) rows)
    else (none, rows)

-- The outcome of the first half: a refusal, or the nonce that is held for the check.
pub data Begun : Type 0 where
  refused : String → Begun
  held : String → Begun

abbrev pub on_consumed : String → String → Option Row × Rows → Begun × Rows
on_consumed nonce message (none, rows) = (refused "nonce missing, expired, or replayed", rows)
on_consumed nonce message (some row, rows) =
    (if row.message == message then held nonce else refused "message mismatch", rows)

abbrev pub on_nonce : AuthInput → ℕ → Option String → Rows → Begun × Rows
on_nonce input now none rows = (refused "message missing nonce", rows)
on_nonce input now (some nonce) rows =
    on_consumed nonce input.message (consume_row nonce input now (Map.get nonce rows) rows)

-- `updateOne` of a row that is gone does nothing.
abbrev pub unconsumed : String → Option Row → Rows → Rows
unconsumed nonce none rows = rows
unconsumed nonce (some row) rows = Map.set nonce (record row { consumed_at = none }) rows

module _ (is_address : String → Bool) where
  unfoldable pub issue_challenge :
      String → String → String → String → ℕ → Rows → Result Challenge × Rows
  unfolding build_message
  issue_challenge action owner ens nonce now rows =
      if not (is_address owner)
      then (throw "bad ownerAddress", rows)
      else if not (is_action action)
      then (throw "unsupported action", rows)
      else issued (challenge_for action owner ens nonce now)
          (insert_one nonce (row_for action owner ens nonce now) rows) rows

  -- Up to the atomic update of the row and the test of its message.
  unfoldable pub begin : AuthInput → ℕ → Rows → Begun × Rows
  unfolding find_nonce
  begin input now rows =
      if not (is_address input.owner_address)
      then (refused "bad ownerAddress", rows)
      else on_nonce input now (find_nonce input.message) rows

module _ (verify_message : String → String → String → Result Bool) where
  -- `verifyMessage` that throws is a signature that is not valid.
  abbrev pub is_valid : Result Bool → Bool
  is_valid (ok b) = b
  is_valid (throw e) = false

  -- From the check of the signature on.
  unfoldable pub settle_auth : String → AuthInput → Rows → VerifyResult × Rows
  settle_auth nonce input rows =
      if is_valid (verify_message input.owner_address input.message input.signature)
      then (verified, rows)
      else (rejected "signature did not verify", unconsumed nonce (Map.get nonce rows) rows)

module _ (is_address : String → Bool)
    (verify_message : String → String → String → Result Bool) where
  abbrev pub after_begin : AuthInput → Begun × Rows → VerifyResult × Rows
  after_begin input (refused why, rows) = (rejected why, rows)
  after_begin input (held nonce, rows) = settle_auth verify_message nonce input rows

  unfoldable pub verify_and_consume : AuthInput → ℕ → Rows → VerifyResult × Rows
  unfolding begin settle_auth
  verify_and_consume input now rows = after_begin input (begin is_address input now rows)
