-- ===== src/Web/Auth/Parse.antt =====
-- The nonce in a message of Frontend/lib/wallet-auth.ts is found again, and the challenge is accepted.
use Prim.Native.Char.{Char, code}
use text.Mathlib.TextLemmas.{nil-append, cons-append}
use agentdir_open_agents.Js.Text.Glue.{glue, append-glue}
use agentdir_open_agents.Base.{
  ℕ, zero, suc, ◌+◌, ◌<◌, ◌≡◌, refl, ◌∙◌, ap, String, Bool, true, false, ◌&&◌, not, none, some, eqb,
  ltb, ◌==◌, eq_refl, eq_iff, Bool-cases, inl, inr, arith,
}
use agentdir_open_agents.Js.Map
use agentdir_open_agents.Js.Map.{get-set_self}
use agentdir_open_agents.Js.Text.{to_lower}
use agentdir_open_agents.Js.Text.Parts.{join}
use agentdir_open_agents.Js.Result.{Result, ok}
use agentdir_open_agents.Web.Auth.{
  Row, Rows, AuthInput, verified, rejected, build_message, after_prefix, take_hex, is_low_hex,
  nonce_here, find_nonce, is_action, issue_challenge, begin, settle_auth, verify_and_consume,
  row_for, challenge_for,
}

-- The text has no line end.
abbrev pub is_line : String → Bool
is_line String.[] = true
is_line (String.◌∷◌ c s) = not (eqb b'\n' (code c)) && is_line s

-- The text is n lower-case hexadecimal digits.
abbrev pub is_low_hex_of : ℕ → String → Bool
is_low_hex_of zero String.[] = true
is_low_hex_of zero (String.◌∷◌ c s) = false
is_low_hex_of (suc n) String.[] = false
is_low_hex_of (suc n) (String.◌∷◌ c s) = is_low_hex (code c) && is_low_hex_of n s

split_and : (a b : Bool) → (a && b) ≡ true → (a ≡ true) × (b ≡ true)
split_and true b h = (refl, h)
split_and false b h = cc

false_of_not : (a : Bool) → not a ≡ true → a ≡ false
false_of_not true h = cc
false_of_not false h = refl

nonce_here-line :
    (c : Char) (s : String) → eqb b'\n' (code c) ≡ false → nonce_here (String.◌∷◌ c s) ≡ none
unfolding nonce_here after_prefix
nonce_here-line c s h = rw h refl

-- A match starts at no character of a line.
find_nonce-line : (s t : String) → is_line s ≡ true → find_nonce (glue s t) ≡ find_nonce t
unfolding find_nonce
find_nonce-line String.[] t h = refl
find_nonce-line (String.◌∷◌ c s) t h =
    let (first, rest) = split_and _ _ h in
    rw (nonce_here-line c (glue s t) (false_of_not _ first)) (find_nonce-line s t rest)

take_hex-glue :
    (n : ℕ) (s t : String) → is_low_hex_of n s ≡ true → take_hex n (glue s t) ≡ some (s, t)
unfolding take_hex
take_hex-glue zero String.[] t h = refl
take_hex-glue zero (String.◌∷◌ c s) t h = cc
take_hex-glue (suc n) String.[] t h = cc
take_hex-glue (suc n) (String.◌∷◌ c s) t h =
    let (first, rest) = split_and (is_low_hex (code c)) (is_low_hex_of n s) h in
    rw (first, take_hex-glue n s t rest, cons-append c "" s, nil-append s) refl

find_nonce-here :
    (n t : String)
    → is_low_hex_of 32 n ≡ true
    → find_nonce (glue "\n" (glue (glue "nonce: " n) (glue "\n" t))) ≡ some n
unfolding find_nonce nonce_here after_prefix
find_nonce-here n t h = rw (take_hex-glue 32 n (glue "\n" t) h) refl

-- The nonce of a message is found, where neither the action, the owner nor the name has a line end.
pub find_nonce-build_message :
    (action owner ens nonce : String)
    → is_line action ≡ true
    → is_line (to_lower owner) ≡ true
    → is_line ens ≡ true
    → is_low_hex_of 32 nonce ≡ true
    → find_nonce (build_message action owner ens nonce) ≡ some nonce
unfolding build_message join find_nonce nonce_here after_prefix
find_nonce-build_message action owner ens nonce a o e n = simp append-glue (
    find_nonce-line (glue "action: " action) _ a
    ∙ (find_nonce-line (glue "owner: " (to_lower owner)) _ o
        ∙ (find_nonce-line (glue "ens: " ens) _ e ∙ find_nonce-here nonce "expires: 60s" n)))

is_action-is_line : (t : String) → is_action t ≡ true → is_line t ≡ true
is_action-is_line t h = elim (Bool-cases (t == "mint")) [
  | inl is ↦ rw ((eq_iff t "mint").0 is) refl
  | inr no_mint ↦ elim (Bool-cases (t == "snapshot")) [
    | inl is ↦ rw ((eq_iff t "snapshot").0 is) refl
    | inr no_snapshot ↦ elim (Bool-cases (t == "transfer")) [
      | inl is ↦ rw ((eq_iff t "transfer").0 is) refl
      | inr no_transfer ↦ elim (Bool-cases (t == "skill-edit")) [
        | inl is ↦ rw ((eq_iff t "skill-edit").0 is) refl
        | inr no_skill ↦ cc (rw (no_mint, no_snapshot, no_transfer, no_skill) at h)
      ]
    ]
  ]
]

module _ (is_address : String → Bool) (verify_message : String → String → String → Result Bool)
    (action owner ens nonce signature : String) (now : ℕ) (rows : Rows) where
  abbrev pub answer : AuthInput
  answer = record {
    owner_address = owner;
    ens = ens;
    message = build_message action owner ens nonce;
    signature = signature;
  }

  abbrev spent : ℕ → Row
  spent at = record (row_for action owner ens nonce now) { consumed_at = some at }

  -- An answer in time to a challenge that stands, with a signature that verifies.
  answered_in_time :
      (at : ℕ) (issued_rows : Rows)
      → is_address owner ≡ true
      → find_nonce (build_message action owner ens nonce) ≡ some nonce
      → Map.get nonce issued_rows ≡ some (row_for action owner ens nonce now)
      → at < now + 60000
      → verify_message owner (build_message action owner ens nonce) signature ≡ ok true
      → verify_and_consume is_address verify_message answer at issued_rows
        ≡ (verified, Map.set nonce (spent at) issued_rows)
  unfolding verify_and_consume begin settle_auth
  answered_in_time at issued_rows address found stands early signed =
      let in_time : ltb at (now + 60000) ≡ true = ground arith in
      rw
        (
          address,
          found,
          stands,
          eq_refl (to_lower owner),
          eq_refl ens,
          in_time,
          eq_refl (build_message action owner ens nonce),
          signed,
        )
        refl

  and_false : (a b : Bool) → (a && (b && false)) ≡ false
  and_false true true = refl
  and_false true false = refl
  and_false false b = refl

  -- A row that is spent is open to nobody.
  spent_again :
      (at later : ℕ) (later_rows : Rows) (other : AuthInput)
      → other.message ≡ build_message action owner ens nonce
      → find_nonce (build_message action owner ens nonce) ≡ some nonce
      → Map.get nonce later_rows ≡ some (spent at)
      → (why : String) × (verify_and_consume is_address verify_message other later later_rows
          ≡ (rejected why, later_rows))
  unfolding verify_and_consume begin
  spent_again at later later_rows other same found gone =
      elim (Bool-cases (is_address other.owner_address)) [
        | inr bad ↦ ("bad ownerAddress", rw bad refl)
        | inl address ↦ (
          "nonce missing, expired, or replayed",
          rw
              (
                address,
                ap find_nonce same ∙ found,
                gone,
                and_false (to_lower owner == to_lower other.owner_address) (ens == other.ens),
              )
              refl,
        )
      ]

  -- A challenge that is issued is accepted once: an answer before it expires, with a signature that
  -- verifies, is accepted, and after it no input with the message is, whatever its owner, its name,
  -- its signature and its time are. The owner is an address and the action one of the actions; neither
  -- the owner nor the name has a line end, which `issueChallenge` does not test of the name; the nonce
  -- has 32 lower-case hexadecimal digits and is new.
  pub issue_challenge-verify_and_consume :
      (at later : ℕ) (other : AuthInput)
      → is_address owner ≡ true
      → is_action action ≡ true
      → is_line (to_lower owner) ≡ true
      → is_line ens ≡ true
      → is_low_hex_of 32 nonce ≡ true
      → Map.has nonce rows ≡ false
      → at < now + 60000
      → verify_message owner (build_message action owner ens nonce) signature ≡ ok true
      → other.message ≡ build_message action owner ens nonce
      → let (challenge, issued_rows) = issue_challenge is_address action owner ens nonce now rows in
        let (first, first_rows) =
          verify_and_consume is_address verify_message answer at issued_rows in
        (challenge ≡ ok (challenge_for action owner ens nonce now))
        × (first ≡ verified)
        × (why : String) × (verify_and_consume is_address verify_message other later first_rows
            ≡ (rejected why, first_rows))
  unfolding issue_challenge
  issue_challenge-verify_and_consume at later other address act line_owner line_ens hex absent early
        signed same =
      let row : Row = row_for action owner ens nonce now in
      let issued_rows = Map.set nonce row rows in
      let found =
        find_nonce-build_message action owner ens nonce (is_action-is_line action act) line_owner
          line_ens hex in
      let once =
        answered_in_time at issued_rows address found (get-set_self nonce row rows) early signed in
      let (why, again) =
        spent_again at later (Map.set nonce (spent at) issued_rows) other same found
          (get-set_self nonce (spent at) issued_rows) in
      rw (address, act, absent) (refl, ap (λ p. p.0) once, why, rw once again)
