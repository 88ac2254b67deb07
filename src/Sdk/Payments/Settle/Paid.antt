-- ===== src/Sdk/Payments/Settle/Paid.antt =====
-- The receipts that `KhDirectExecuteAdapter.settle` of packages/sdk/src/payments.ts gives out.
use agentdir_open_agents.Base.{
  ℕ, ◌+◌, ◌≡◌, ◌≢◌, refl, ap, ◌∙◌, sym, ◌⊎◌, inl, inr, String, true, Option, none, some, List, [],
  ◌∷◌, Bool-cases, ltb,
}
use agentdir_open_agents.Crypto.{Crypto}
use agentdir_open_agents.Js.Text.{is_filled}
use agentdir_open_agents.Js.Value.{Json}
use agentdir_open_agents.Js.Result.{Result, ok, throw, ◌>>=◌}
use agentdir_open_agents.Sdk.Payments.{sign_receipt}
use agentdir_open_agents.Sdk.Payments.Settle.{
  SettleArgs, KhOpts, Reply, InitBody, StatusBody, StatusPoll, Settling, settled, is_done,
  is_failed, timeout_of, started, Step, leave, stay, told, on_body, on_status, step, poll_loop,
  final_hash, receipt_body, with_hash, finished, after_loop, after_start, settle,
}

unbind :
    {A B : Type 0} (r : Result A) (k : A → Result B) {b : B}
    → (r >>= k) ≡ ok b
    → (a : A) × (r ≡ ok a) × (k a ≡ ok b)
unbind (ok a) k h = (a, refl, h)
unbind (throw e) k h = cc

-- The service has told that the transfer is done: in its first reply, or in one to a poll.
abbrev pub Told : StatusPoll → Type 0
Told p =
    (r : Reply StatusBody) × (b : StatusBody) × (p.reply ≡ ok r)
    × (r.is_ok ≡ true)
    × (r.json ≡ ok b)
    × (is_done b.status ≡ true)

abbrev pub Some : (StatusPoll → Type 0) → List StatusPoll → Type 0
Some P [] = ⊥
Some P (p ∷ ps) = P p ⊎ Some P ps

on_status-Told :
    (st next : Settling) (p : StatusPoll)
    → on_status st p.reply ≡ stay next
    → is_done next.status ≡ true
    → (is_done st.status ≡ true) ⊎ Told p
on_status-Told st next p h done = split p.reply refl h
  where
    with_body :
        (r : Reply StatusBody) (body : Result StatusBody)
        → p.reply ≡ ok r
        → r.is_ok ≡ true
        → r.json ≡ body
        → on_body st body ≡ stay next
        → (is_done st.status ≡ true) ⊎ Told p
    with_body r (throw e) got good read h = cc
    with_body r (ok b) got good read h =
        let same : told st b ≡ next = cc h in
        inr (r, b, got, good, read, rw (ap (λ x. x.status) same) done)

    split :
        (reply : Result (Reply StatusBody))
        → p.reply ≡ reply
        → on_status st reply ≡ stay next
        → (is_done st.status ≡ true) ⊎ Told p
    split (throw e) got h = cc
    split (ok r) got h = elim (Bool-cases r.is_ok) [
      | inl good ↦ with_body r r.json got good refl (rw good at h)
      | inr bad ↦ let same : st ≡ next = cc (rw bad at h) in inl (rw (ap (λ x. x.status) same) done)
    ]

-- To split on a step and keep the equation.
data Which (s : Step) : Type 0 where
  leaves : (outcome : Result Settling) → s ≡ leave outcome → Which s
  stays : (next : Settling) → s ≡ stay next → Which s

which : (s : Step) → Which s
which (leave outcome) = leaves outcome refl
which (stay next) = stays next refl

on_status-leave :
    (st last : Settling) (reply : Result (Reply StatusBody)) → on_status st reply ≢ leave (ok last)
on_status-leave st last (throw e) h = cc
on_status-leave st last (ok r) h = elim (Bool-cases r.is_ok) [
  | inr bad ↦ cc (rw bad at h)
  | inl good ↦ on_body_leave r.json (rw good at h)
]
  where
    on_body_leave : (body : Result StatusBody) → on_body st body ≢ leave (ok last)
    on_body_leave (throw e) h = cc
    on_body_leave (ok b) h = cc

module _ (deadline : ℕ) where
  step-stay :
      (st next : Settling) (p : StatusPoll)
      → step deadline st p ≡ stay next
      → on_status st p.reply ≡ stay next
  step-stay st next p h = elim (Bool-cases (ltb p.now deadline)) [
    | inr late ↦ cc (rw late at h)
    | inl early ↦ elim (Bool-cases (is_done st.status)) [
      | inl done ↦ cc (rw (early, done) at h)
      | inr undone ↦ elim (Bool-cases (is_failed st.status)) [
        | inl failed ↦ cc (rw (early, undone, failed) at h)
        | inr running ↦ rw (early, undone, running) at h
      ]
    ]
  ]

  step-leave :
      (st last : Settling) (p : StatusPoll) → step deadline st p ≡ leave (ok last) → st ≡ last
  step-leave st last p h = elim (Bool-cases (ltb p.now deadline)) [
    | inr late ↦ cc (rw late at h)
    | inl early ↦ elim (Bool-cases (is_done st.status)) [
      | inl done ↦ cc (rw (early, done) at h)
      | inr undone ↦ elim (Bool-cases (is_failed st.status)) [
        | inl failed ↦ cc (rw (early, undone, failed) at h)
        | inr running ↦ absurd (on_status-leave st last p.reply (rw (early, undone, running) at h))
      ]
    ]
  ]

  poll_loop-Told :
      (ps : List StatusPoll) (st last : Settling)
      → poll_loop deadline ps st ≡ some (ok last)
      → is_done last.status ≡ true
      → (is_done st.status ≡ true) ⊎ Some Told ps
  unfolding poll_loop
  poll_loop-Told [] st last h done = cc
  poll_loop-Told (p ∷ ps) st last h done = elim (which (step deadline st p)) [
    | leaves outcome e ↦
        let ended : outcome ≡ ok last = cc (rw (e, poll_loop) at h) in
        let same = step-leave st last p (e ∙ ap leave ended) in
        inl (rw (ap (λ x. x.status) same) done)
    | stays next e ↦ elim (poll_loop-Told ps next last (rw (e, poll_loop) at h) done) [
      | inr later ↦ inr (inr later)
      | inl told_next ↦ elim (on_status-Told st next p (step-stay st next p e) told_next) [
        | inl before ↦ inl before
        | inr now_told ↦ inr (inl now_told)
      ]
    ]
  ]

module _ (C : Crypto) (opts : KhOpts) (args : SettleArgs) (signer : String → String) (now : ℕ) where
  -- The receipt is a signed one of this payment, with a hash that is not empty, and the service has
  -- told that the transfer is done, in its first reply or in one to a poll.
  pub record IsPaid (init : Result (Reply InitBody)) (polls : List StatusPoll) (receipt : Json)
      : Type 0 where
    pub id : String
    pub tx : String
    pub hashed : is_filled tx ≡ true
    pub signed : receipt ≡ sign_receipt C (receipt_body opts args id tx now) signer
    pub begun :
        (st : Settling) × (started init ≡ ok (id, st))
        × ((is_done st.status ≡ true) ⊎ Some Told polls)

  with_hash-signed :
      (id : String) (o : Option String) (receipt : Json)
      → with_hash C opts args signer now id o ≡ ok receipt
      → (tx : String) × (is_filled tx ≡ true)
        × (receipt ≡ sign_receipt C (receipt_body opts args id tx now) signer)
  with_hash-signed id none receipt h = cc
  with_hash-signed id (some tx) receipt h = elim (Bool-cases (is_filled tx)) [
    | inl full ↦ (tx, full, sym (cc (rw full at h)))
    | inr empty ↦ cc (rw empty at h)
  ]

  finished-signed :
      (id : String) (final : Result (Reply StatusBody)) (st : Settling) (receipt : Json)
      → finished C opts args signer now id final st ≡ ok receipt
      → (is_done st.status ≡ true)
        × (o : Option String) × (with_hash C opts args signer now id o ≡ ok receipt)
  unfolding finished
  finished-signed id final st receipt h = elim (Bool-cases (is_done st.status)) [
    | inr undone ↦ cc (rw undone at h)
    | inl done ↦
        let (o, got, rest) = unbind (final_hash st.tx_hash final) _ (rw done at h) in
        (done, o, rest)
  ]

  -- A receipt is given out only for a transfer that the service has told is done, in its first reply
  -- or in one to a poll; it is signed, names the payment, and has a hash that is not empty.
  pub settle-IsPaid :
      (init : Result (Reply InitBody)) (at_start : ℕ) (polls : List StatusPoll)
      (final : Result (Reply StatusBody)) (receipt : Json)
      → settle C opts args signer now init at_start polls final ≡ settled (ok receipt)
      → IsPaid init polls receipt
  unfolding settle
  settle-IsPaid init at_start polls final receipt h = from_start (started init) refl h
    where
      deadline : ℕ
      deadline = at_start + timeout_of opts

      from_loop :
          (id : String) (st : Settling) (looped : Option (Result Settling))
          → started init ≡ ok (id, st)
          → poll_loop deadline polls st ≡ looped
          → after_loop C opts args signer now id final looped ≡ settled (ok receipt)
          → IsPaid init polls receipt
      from_loop id st none begun looped h = cc
      from_loop id st (some (throw e)) begun looped h = cc
      from_loop id st (some (ok last)) begun looped h =
          let (done, o, rest) = finished-signed id final last receipt (cc h) in
          let (tx, hashed, signed) = with_hash-signed id o receipt rest in
          record {
            id = id;
            tx = tx;
            hashed = hashed;
            signed = signed;
            begun = (st, begun, poll_loop-Told deadline polls st last looped done);
          }

      from_start :
          (begin : Result (String × Settling))
          → started init ≡ begin
          → after_start C opts args signer now deadline polls final begin ≡ settled (ok receipt)
          → IsPaid init polls receipt
      from_start (throw e) begun h = cc
      from_start (ok (id, st)) begun h = from_loop id st (poll_loop deadline polls st) begun refl h
