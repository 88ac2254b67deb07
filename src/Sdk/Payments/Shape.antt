-- ===== src/Sdk/Payments/Shape.antt =====
-- What `checkReceiptShape` of packages/sdk/src/payments.ts lets pass.
use agentdir_open_agents.Base.{
  ℕ, ◌≤◌, String, ◌≡◌, ◌↔◌, refl, ◌∙◌, inl, inr, Bool, true, false, ◌||◌, Option, none, some, arith,
  ◌==◌, eq_iff, not, Bool-cases,
}
use agentdir_open_agents.Base.Int.{ℤ, pos, ◌-ℤ◌, ◌*ℤ◌, abs, ltb_ℤ}
use agentdir_open_agents.Js.Text.{to_lower, strip_hex}
use agentdir_open_agents.Js.Value.{Json, num, str, Value, prop, is_text_eq, is_text_eq_iff, null}
use agentdir_open_agents.Js.Coerce.{to_number}
use agentdir_open_agents.Js.Number.{Number, nan, int, minus, times, is_above, is_below}
use agentdir_open_agents.Js.Result.{Result, ok, ◌>>=◌, lower_of, reject_if}
use agentdir_open_agents.Sdk.Payments.{
  PaymentExpectations, max_age, check_receipt_shape, has_amount, negated,
}

-- The property `k` is a text that agrees with `t` up to letter case.
abbrev pub AgreesLower : String → Json → String → Type 0
AgreesLower k receipt t = (s : String) × (prop k receipt ≡ some (str s)) × (to_lower s ≡ to_lower t)

abbrev pub IsRecent : ℤ → Number → ℕ → Type 0
IsRecent now nan max = Unit
IsRecent now (int s) max = abs (now -ℤ (s *ℤ pos 1000)) ≤ max

abbrev pub AgreesAmount : Option String → Json → Type 0
AgreesAmount none receipt = Unit
AgreesAmount (some a) receipt = prop "amount" receipt ≡ some (str a)

-- The amount, the token, the network, the recipient, the caller key and the skill are the expected
-- ones.
pub record HasTerms (receipt : Json) (exp : PaymentExpectations) : Type 0 where
  pub amount : AgreesAmount exp.amount receipt
  pub token : AgreesLower "tokenAddress" receipt exp.token_address
  pub network : prop "network" receipt ≡ some (str exp.network)
  pub recipient : AgreesLower "recipient" receipt exp.recipient
  pub caller : AgreesLower "callerPubkey" receipt (strip_hex exp.caller_pubkey)
  pub skill : prop "skill" receipt ≡ some (str exp.skill)

-- The receipt is the one that is expected, where a `ts` that is NaN counts as recent.
pub record Matches (now : ℤ) (receipt : Json) (exp : PaymentExpectations) : Type 0 where
  pub recent : IsRecent now (to_number (prop "ts" receipt)) (max_age exp)
  pub terms : HasTerms receipt exp

in_window : (a : ℤ) (m : ℕ) → (ltb_ℤ (pos m) a || ltb_ℤ a (negated m)) ≡ false → abs a ≤ m
unfolding ◌-ℤ◌
in_window a m h = ground arith

in_window_of : (a : ℤ) (m : ℕ) → abs a ≤ m → (ltb_ℤ (pos m) a || ltb_ℤ a (negated m)) ≡ false
unfolding ◌-ℤ◌
in_window_of a m h = ground arith

fresh-IsRecent :
    (now : ℤ) (n : Number) (m : ℕ)
    → (is_above (minus now (times n 1000)) (pos m)
        || is_below (minus now (times n 1000)) (negated m))
      ≡ false
    → IsRecent now n m
fresh-IsRecent now nan m h = tt
fresh-IsRecent now (int s) m h = in_window _ m h

IsRecent-fresh :
    (now : ℤ) (n : Number) (m : ℕ)
    → IsRecent now n m
    → (is_above (minus now (times n 1000)) (pos m)
        || is_below (minus now (times n 1000)) (negated m))
      ≡ false
IsRecent-fresh now nan m h = refl
IsRecent-fresh now (int s) m h = in_window_of _ m h

amount-Agrees : (a : Option String) (r : Json) → has_amount a r ≡ true → AgreesAmount a r
amount-Agrees none r h = tt
amount-Agrees (some a) r h = (is_text_eq_iff a _).0 h

Agrees-amount : (a : Option String) (r : Json) → AgreesAmount a r → has_amount a r ≡ true
Agrees-amount none r h = refl
Agrees-amount (some a) r h = (is_text_eq_iff a _).1 h

reject_if-pass :
    (c : Bool) (e : String) (k : Result (Option String))
    → reject_if c e k ≡ ok none
    → (c ≡ false) × (k ≡ ok none)
reject_if-pass true e k h = ground arith
reject_if-pass false e k h = (refl, h)

agrees :
    (v : Value) (t e : String) (next : Result (Option String))
    → (lower_of v >>= λ s. reject_if (not (s == t)) e next) ≡ ok none
    → ((s : String) × (v ≡ some (str s)) × (to_lower s ≡ t)) × (next ≡ ok none)
agrees none t e next h = cc
agrees (some (str s)) t e next h = elim (Bool-cases (to_lower s == t)) [
  | inl same ↦ ((s, refl, (eq_iff _ _).0 same), rw same at h)
  | inr other ↦ cc (rw other at h)
]
agrees (some null) t e next h = cc
agrees (some _) t e next h = cc

agrees_of :
    (v : Value) (t e : String) (next : Result (Option String))
    → ((s : String) × (v ≡ some (str s)) × (to_lower s ≡ t))
    → (lower_of v >>= λ s. reject_if (not (s == t)) e next) ≡ next
agrees_of v t e next (s, found, same) = rw (found, (eq_iff _ _).1 same)

reject_unless-pass :
    (t : String) (v : Value) (e : String) (next : Result (Option String))
    → reject_if (not (is_text_eq t v)) e next ≡ ok none
    → (v ≡ some (str t)) × (next ≡ ok none)
reject_unless-pass t v e next h = elim (Bool-cases (is_text_eq t v)) [
  | inl same ↦ ((is_text_eq_iff t v).0 same, rw same at h)
  | inr other ↦ cc (rw other at h)
]

module _ (now : ℤ) (receipt : Json) (exp : PaymentExpectations) where
  pub passed-Matches : check_receipt_shape now receipt exp ≡ ok none → Matches now receipt exp
  unfolding check_receipt_shape
  passed-Matches h =
      let (recent, h₁) = reject_if-pass _ _ _ h in
      let (amount, h₂) = reject_if-pass _ _ _ h₁ in
      let (token, h₃) = agrees _ _ _ _ h₂ in
      let (network, h₄) = reject_unless-pass _ _ _ _ h₃ in
      let (recipient, h₅) = agrees _ _ _ _ h₄ in
      let (caller, h₆) = agrees _ _ _ _ h₅ in
      let (skill, _) = reject_unless-pass _ _ _ _ h₆ in
      record {
        recent = fresh-IsRecent now _ (max_age exp) recent;
        terms = record {
          amount = amount-Agrees exp.amount receipt (ground arith);
          token = token;
          network = network;
          recipient = recipient;
          caller = caller;
          skill = skill;
        };
      }

  pub Matches-passed : Matches now receipt exp → check_receipt_shape now receipt exp ≡ ok none
  unfolding check_receipt_shape
  Matches-passed m =
      let terms = m.terms in
      rw
        (IsRecent-fresh now _ (max_age exp) m.recent, Agrees-amount exp.amount receipt terms.amount)
        (agrees_of _ _ _ _ terms.token
          ∙ rw ((is_text_eq_iff _ _).1 terms.network) (
              agrees_of _ _ _ _ terms.recipient
              ∙ agrees_of _ _ _ _ terms.caller
              ∙ rw ((is_text_eq_iff _ _).1 terms.skill)))

-- A receipt whose `ts` is an integer passes exactly when that time, in seconds, is not further from
-- now than the age that is allowed, and its amount, token, network, recipient, caller key and skill
-- are the expected ones.
pub check_receipt_shape_iff :
    (now ts : ℤ) (receipt : Json) (exp : PaymentExpectations)
    → prop "ts" receipt ≡ some (num ts)
    → (check_receipt_shape now receipt exp ≡ ok none)
      ↔ ((abs (now -ℤ (ts *ℤ pos 1000)) ≤ max_age exp) × HasTerms receipt exp)
check_receipt_shape_iff now ts receipt exp timed = (
  λ h.
      let m = passed-Matches now receipt exp h in
      let recent = m.recent in
      let near : IsRecent now (int ts) (max_age exp) = rw timed at recent in (near, m.terms),
  λ (near, terms).
      Matches-passed now receipt exp (record { recent = rw timed near; terms = terms }),
)

-- A receipt without a `ts` passes the test of freshness at every time: if it passes at one time, it
-- passes at all times.
pub check_receipt_shape_never_stale :
    (now later : ℤ) (receipt : Json) (exp : PaymentExpectations)
    → prop "ts" receipt ≡ none
    → check_receipt_shape now receipt exp ≡ ok none
    → check_receipt_shape later receipt exp ≡ ok none
check_receipt_shape_never_stale now later receipt exp timeless h =
    let m = passed-Matches now receipt exp h in
    Matches-passed later receipt exp (record { recent = rw timeless tt; terms = m.terms })
