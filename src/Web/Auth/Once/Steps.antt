-- ===== src/Web/Auth/Once/Steps.antt =====
-- Every step of the requests of Frontend/lib/wallet-auth.ts keeps a nonce in one use at most.
use agentdir_open_agents.Base.{
  ℕ, ◌+◌, ◌≡◌, ◌≢◌, refl, sym, ◌∙◌, ◌⊎◌, inl, inr, String, Bool, true, false, ◌||◌, none, some,
  List, ◌∷◌, ◌==◌, eq_iff, leb, Bool-cases, Option-cases, arith,
}
use agentdir_open_agents.Js.Map
use agentdir_open_agents.Js.Map.{IsMap, get-set, get-delete, set-IsMap, delete-IsMap}
use agentdir_open_agents.Js.Result.{Result}
use agentdir_open_agents.Web.Auth.{
  Row, Rows, AuthInput, Begun, refused, held, issue_challenge, begin, is_valid, settle_auth,
  unconsumed, row_for,
}
use agentdir_open_agents.Web.Auth.Once.{
  Event, issues, begins, settles, expires, Waiting, World, expired, find_waiting, drop_waiting,
  begun, happens,
}
use agentdir_open_agents.Web.Auth.Once.Single.{
  one, held_count, IsShut, issued_nonce, IsSingle, uses, no_new_use, same_use, held_count-drop,
  BeginsAs, begin-BeginsAs, issue-cases,
}

first_false : (a b : Bool) → (a || b) ≡ false → a ≡ false
first_false true b h = cc
first_false false b h = refl

pub or_false : (b : Bool) → (b || false) ≡ b
or_false true = refl
or_false false = refl

second_true : (a b : Bool) → b ≡ true → (a || b) ≢ false
second_true true b h k = cc
second_true false b h k = cc

module _ (n : String) (known : Bool) where
  -- The rows change only in the row of another nonce.
  other_row :
      (w : World) (nonce : String) (row : Row)
      → IsSingle n known w
      → (nonce == n) ≡ false
      → IsSingle n known (record w { rows = Map.set nonce row w.rows })
  other_row w nonce row s other =
      same_use n known w (record w { rows = Map.set nonce row w.rows })
        (set-IsMap nonce row w.rows s.is_map) refl (rw (get-set nonce n row w.rows, other) refl) s

  pub issues-IsSingle :
      (w : World) (nonce : String) (rows : Rows) (row : Row)
      → IsSingle n known w
      → ((nonce == n) ≡ true → known ≡ false)
      → (rows ≡ w.rows) ⊎ (rows ≡ Map.set nonce row w.rows)
      → IsSingle n (known || nonce == n) (record w { rows = rows })
  issues-IsSingle w nonce rows row s new (inl same) = rw same (record {
    is_map = s.is_map;
    single = s.single;
    shut = s.shut;
    unknown = λ h. s.unknown (first_false known (nonce == n) h);
  })
  issues-IsSingle w nonce rows row s new (inr made) = elim (Bool-cases (nonce == n)) [
    | inl own ↦
        let (unused, absent) = s.unknown (new own) in
        rw made (record {
          is_map = set-IsMap nonce row w.rows s.is_map;
          single = s.single;
          shut = inl unused;
          unknown = λ h. absurd (second_true known (nonce == n) own h);
        })
    | inr other ↦
        let t = other_row w nonce row s other in
        rw made (record {
          is_map = t.is_map;
          single = t.single;
          shut = t.shut;
          unknown = λ h. t.unknown (first_false known (nonce == n) h);
        })
  ]

  not_shut :
      (w : World) (row : Row)
      → IsSingle n known w
      → Map.get n w.rows ≡ some row
      → row.consumed_at ≡ none
      → uses n w ≡ 0
  not_shut w row s there free = elim s.shut [
    | inl unused ↦ unused
    | inr shut ↦ let closed : row.consumed_at ≢ none = rw there at shut in absurd (closed free)
  ]

  -- One row is shut, and perhaps held.
  shuts-IsSingle :
      (is_address : String → Bool) (verify_message : String → String → String → Result Bool)
      (w : World) (id now : ℕ) (input : AuthInput) (nonce : String) (row : Row) (r : Begun)
      → IsSingle n known w
      → Map.get nonce w.rows ≡ some row
      → row.consumed_at ≡ none
      → (r ≡ held nonce) ⊎ ((why : String) × (r ≡ refused why))
      → IsSingle n known (
          begun is_address verify_message id input
            (r, Map.set nonce (record row { consumed_at = some now }) w.rows)
            w)
  shuts-IsSingle is_address verify_message w id now input nonce row r s there free kind =
      let shut_row : Row = record row { consumed_at = some now } in
      elim (Bool-cases (nonce == n)) [
        | inr other ↦ elim kind [
          | inl holds ↦ rw holds (
              same_use n known (record w { rows = Map.set nonce shut_row w.rows })
                (record {
                  rows = Map.set nonce shut_row w.rows;
                  waiting = (id, nonce, input) ∷ w.waiting;
                  accepted = w.accepted;
                })
                (set-IsMap nonce shut_row w.rows s.is_map) (rw other (omega arith)) refl
                (other_row w nonce shut_row s other))
          | inr (why, refuses) ↦ rw refuses (other_row w nonce shut_row s other)
        ]
        | inl own ↦
            let here : Map.get n w.rows ≡ some row = rw (← (eq_iff nonce n).0 own) there in
            let unused = not_shut w row s here free in
            let absent : known ≡ false → ⊥ =
              λ new. let (_, gone) = s.unknown new in cc (sym here ∙ gone) in
            let now_shut : IsShut n (Map.get n (Map.set nonce shut_row w.rows)) =
              rw (get-set nonce n shut_row w.rows, own) (λ e. cc e) in
            elim kind [
              | inl holds ↦ rw holds (record {
                is_map = set-IsMap nonce shut_row w.rows s.is_map;
                single = rw own (omega arith);
                shut = inr now_shut;
                unknown = λ new. absurd (absent new);
              })
              | inr (why, refuses) ↦ rw refuses (record {
                is_map = set-IsMap nonce shut_row w.rows s.is_map;
                single = s.single;
                shut = inr now_shut;
                unknown = λ new. absurd (absent new);
              })
            ]
      ]

  pub begins-IsSingle :
      (is_address : String → Bool) (verify_message : String → String → String → Result Bool)
      (w : World) (id now : ℕ) (input : AuthInput) (out : Begun × Rows)
      → IsSingle n known w
      → BeginsAs now w.rows out
      → IsSingle n known (begun is_address verify_message id input out w)
  begins-IsSingle is_address verify_message w id now input out s (inl (why, same)) = rw same s
  begins-IsSingle is_address verify_message w id now input out s
        (inr (nonce, row, there, free, made, kind)) =
      rw made
        (shuts-IsSingle is_address verify_message w id now input nonce row out.0 s there free kind)

  pub expires-IsSingle :
      (w : World) (nonce : String) (now : ℕ)
      → IsSingle n known w
      → IsSingle n known (record w { rows = expired now nonce (Map.get nonce w.rows) w.rows })
  expires-IsSingle w nonce now s = elim (Option-cases (Map.get nonce w.rows)) [
    | inl absent ↦ rw absent s
    | inr (row, there) ↦ elim (Bool-cases (leb row.expires_at now)) [
      | inr early ↦ rw (there, early) s
      | inl over ↦ elim (Bool-cases (nonce == n)) [
        | inl own ↦
            let gone : Map.get n (Map.delete nonce w.rows) ≡ none =
              rw (get-delete nonce n w.rows s.is_map, own) refl in
            rw (there, over)
              (record {
                is_map = delete-IsMap nonce w.rows s.is_map;
                single = s.single;
                shut = inr (rw gone tt);
                unknown = λ new. let (unused, absent) = s.unknown new in (unused, gone);
              })
        | inr other ↦
            rw (there, over)
              (same_use n known w (record w { rows = Map.delete nonce w.rows })
                (delete-IsMap nonce w.rows s.is_map) refl
                (rw (get-delete nonce n w.rows s.is_map, other) refl) s)
      ]
    ]
  ]

  verified-IsSingle :
      (w : World) (nonce : String) (rest : List Waiting)
      → IsSingle n known w
      → held_count n w.waiting ≡ one n nonce + held_count n rest
      → IsSingle n known (record { rows = w.rows; waiting = rest; accepted = nonce ∷ w.accepted })
  verified-IsSingle w nonce rest s h =
      same_use n known w (record { rows = w.rows; waiting = rest; accepted = nonce ∷ w.accepted })
        s.is_map (omega (arith, h)) refl s

  -- Giving the row of the nonce back, when its only use ends.
  rejected-IsSingle :
      (w : World) (nonce : String) (rest : List Waiting)
      → IsSingle n known w
      → held_count n w.waiting ≡ one n nonce + held_count n rest
      → IsSingle n known
          (record w { rows = unconsumed nonce (Map.get nonce w.rows) w.rows; waiting = rest })
  rejected-IsSingle w nonce rest s h = elim (Option-cases (Map.get nonce w.rows)) [
    | inl absent ↦
        rw absent
          (no_new_use n known w (record w { waiting = rest }) s.is_map (omega (arith, h)) refl s)
    | inr (row, there) ↦
        let back : Row = record row { consumed_at = none } in
        let rows : Rows = Map.set nonce back w.rows in
        let is_map = set-IsMap nonce back w.rows s.is_map in
        rw there (elim (Bool-cases (nonce == n)) [
          | inr other ↦
              no_new_use n known w (record w { rows = rows; waiting = rest }) is_map
                (omega (arith, h)) (rw (get-set nonce n back w.rows, other) refl) s
          | inl own ↦
              let count : held_count n w.waiting ≡ 1 + held_count n rest = rw own at h in
              let at_most = s.single in
              record {
                is_map = is_map;
                single = omega (arith, count, at_most);
                shut = inl (omega (arith, count, at_most));
                unknown = λ new.
                    let (unused, _) = s.unknown new in
                    let none_left : ⊥ = omega (arith, count, unused) in absurd none_left;
              }
        ])
  ]

  pub settles-IsSingle :
      (is_address : String → Bool) (verify_message : String → String → String → Result Bool)
      (id : ℕ) (w : World)
      → IsSingle n known w
      → IsSingle n known (happens is_address verify_message (settles id) w)
  unfolding happens settle_auth
  settles-IsSingle is_address verify_message id w s =
      elim (Option-cases (find_waiting id w.waiting)) [
        | inl absent ↦ rw absent s
        | inr ((i, nonce, input), there) ↦
            let rest = drop_waiting id w.waiting in
            let drop = held_count-drop n id i nonce input w.waiting there in
            rw there
              (elim (Bool-cases (
                is_valid verify_message
                  (verify_message input.owner_address input.message input.signature))) [
                    | inl good ↦ rw good (verified-IsSingle w nonce rest s drop)
                    | inr bad ↦ rw bad (rejected-IsSingle w nonce rest s drop)
                  ])
      ]

module _ (is_address : String → Bool) (verify_message : String → String → String → Result Bool)
    (n : String) (known : Bool) where
  known_still : (w : World) → IsSingle n known w → IsSingle n (known || false) w
  known_still w s = rw (or_false known) s

  pub happens-IsSingle :
      (e : Event) (w : World)
      → (issued_nonce n e ≡ true → known ≡ false)
      → IsSingle n known w
      → IsSingle n (known || issued_nonce n e) (happens is_address verify_message e w)
  unfolding happens
  happens-IsSingle (issues action owner ens nonce now) w new s =
      issues-IsSingle n known w nonce
        (issue_challenge is_address action owner ens nonce now w.rows).1
        (row_for action owner ens nonce now) s new
        (issue-cases is_address action owner ens nonce now w.rows)
  happens-IsSingle (begins id input now) w new s = known_still _ (
      begins-IsSingle n known is_address verify_message w id now input
        (begin is_address input now w.rows) s (begin-BeginsAs is_address input now w.rows))
  happens-IsSingle (settles id) w new s =
      known_still _ (settles-IsSingle n known is_address verify_message id w s)
  happens-IsSingle (expires nonce now) w new s =
      known_still _ (expires-IsSingle n known w nonce now s)
