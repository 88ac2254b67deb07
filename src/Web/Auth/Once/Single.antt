-- ===== src/Web/Auth/Once/Single.antt =====
-- A nonce of Frontend/lib/wallet-auth.ts is accepted at most once, however the requests interleave.
use agentdir_open_agents.Base.{
  ℕ, ◌+◌, ◌≤◌, ◌≡◌, ◌≢◌, refl, ◌⊎◌, inl, inr, String, Bool, true, false, Option, none, some, List,
  [], ◌∷◌, ◌==◌, eqb, Bool-cases, Option-cases, if◌then◌else◌, arith,
}
use agentdir_open_agents.Js.Map
use agentdir_open_agents.Js.Map.{IsMap, get-set, get-delete, set-IsMap, delete-IsMap}
use agentdir_open_agents.Web.Auth.{
  Row, Rows, AuthInput, Begun, refused, held, find_nonce, is_open_to, on_nonce, issue_challenge,
  is_action, begin, row_for,
}
use agentdir_open_agents.Web.Auth.Once.{
  Event, issues, begins, settles, expires, Waiting, World, find_waiting, drop_waiting,
}

module _ (n : String) where
  abbrev pub one : String → ℕ
  one nonce = if nonce == n then 1 else 0

  abbrev pub count : List String → ℕ
  count [] = 0
  count (nonce ∷ nonces) = one nonce + count nonces

  abbrev pub held_count : List Waiting → ℕ
  held_count [] = 0
  held_count ((id, nonce, input) ∷ ws) = one nonce + held_count ws

  -- The row lets nobody begin.
  abbrev pub IsShut : Option Row → Type 0
  IsShut none = Unit
  IsShut (some row) = row.consumed_at ≢ none

  -- Whether the event issues the nonce.
  abbrev pub issued_nonce : Event → Bool
  issued_nonce (issues action owner ens nonce now) = nonce == n
  issued_nonce (begins id input now) = false
  issued_nonce (settles id) = false
  issued_nonce (expires nonce now) = false

  -- How often the nonce is held or accepted.
  abbrev pub uses : World → ℕ
  uses w = held_count w.waiting + count w.accepted

  -- The nonce is in one use at most, and where it is in use, its row is shut; a nonce that was not
  -- issued is in no use.
  pub record IsSingle (is_known : Bool) (w : World) : Type 0 where
    pub is_map : IsMap w.rows
    pub single : uses w ≤ 1
    pub shut : (uses w ≡ 0) ⊎ IsShut (Map.get n w.rows)
    pub unknown : is_known ≡ false → (uses w ≡ 0) × (Map.get n w.rows ≡ none)

  -- A step that adds no use and keeps the row.
  pub no_new_use :
      (is_known : Bool) (w v : World)
      → IsMap v.rows
      → uses v ≤ uses w
      → Map.get n v.rows ≡ Map.get n w.rows
      → IsSingle is_known w
      → IsSingle is_known v
  no_new_use is_known w v u fewer row s = record {
    is_map = u;
    single = let one_at_most = s.single in omega (arith, fewer, one_at_most);
    shut = elim s.shut [
      | inl unused ↦ inl (omega (arith, fewer, unused))
      | inr shut ↦ inr (rw row shut)
    ];
    unknown = λ new.
        let (unused, absent) = s.unknown new in (omega (arith, fewer, unused), rw row absent);
  }

  pub same_use :
      (is_known : Bool) (w v : World)
      → IsMap v.rows
      → uses v ≡ uses w
      → Map.get n v.rows ≡ Map.get n w.rows
      → IsSingle is_known w
      → IsSingle is_known v
  same_use is_known w v u same row s = no_new_use is_known w v u (omega (arith, same)) row s

  pub held_count-drop :
      (id i : ℕ) (nonce : String) (input : AuthInput) (ws : List Waiting)
      → find_waiting id ws ≡ some (i, nonce, input)
      → held_count ws ≡ one nonce + held_count (drop_waiting id ws)
  unfolding find_waiting drop_waiting
  held_count-drop id i nonce input [] h = cc
  held_count-drop id i nonce input ((j, other, by) ∷ ws) h = elim (Bool-cases (eqb j id)) [
    | inl here ↦
        let same : some (j, other, by) ≡ some (i, nonce, input) = rw here at h in
        let nonces : other ≡ nonce = cc same in rw (here, nonces) refl
    | inr later ↦
        let rest = held_count-drop id i nonce input ws (rw later at h) in
        rw later (omega (arith, rest))
  ]

-- How `begin` leaves the rows: as they were, or with one row shut that was open before.
abbrev pub Shuts : ℕ → Rows → Begun × Rows → Type 0
Shuts now rows (r, rows') =
    (nonce : String) × (row : Row) × (Map.get nonce rows ≡ some row)
    × (row.consumed_at ≡ none)
    × (rows' ≡ Map.set nonce (record row { consumed_at = some now }) rows)
    × ((r ≡ held nonce) ⊎ ((why : String) × (r ≡ refused why)))

abbrev pub BeginsAs : ℕ → Rows → Begun × Rows → Type 0
BeginsAs now rows out = ((why : String) × (out ≡ (refused why, rows))) ⊎ Shuts now rows out

open_free :
    (input : AuthInput) (now : ℕ) (row : Row)
    → is_open_to input now row ≡ true
    → row.consumed_at ≡ none
open_free input now row h = ground arith

on_nonce-BeginsAs :
    (input : AuthInput) (now : ℕ) (o : Option String) (rows : Rows)
    → BeginsAs now rows (on_nonce input now o rows)
on_nonce-BeginsAs input now none rows = inl (_, refl)
on_nonce-BeginsAs input now (some nonce) rows = elim (Option-cases (Map.get nonce rows)) [
  | inl absent ↦ rw absent (inl (_, refl))
  | inr (row, there) ↦ elim (Bool-cases (is_open_to input now row)) [
    | inr closed ↦ rw (there, closed) (inl (_, refl))
    | inl free ↦ elim (Bool-cases (row.message == input.message)) [
      | inl same ↦
          rw (there, free, same)
            (inr (nonce, row, there, open_free input now row free, refl, inl refl))
      | inr other ↦
          rw (there, free, other)
            (inr (nonce, row, there, open_free input now row free, refl, inr (_, refl)))
    ]
  ]
]

pub begin-BeginsAs :
    (is_address : String → Bool) (input : AuthInput) (now : ℕ) (rows : Rows)
    → BeginsAs now rows (begin is_address input now rows)
unfolding begin
begin-BeginsAs is_address input now rows = elim (Bool-cases (is_address input.owner_address)) [
  | inl address ↦ rw address (on_nonce-BeginsAs input now (find_nonce input.message) rows)
  | inr other ↦ rw other (inl (_, refl))
]

-- How `issueChallenge` leaves the rows.
pub issue-cases :
    (is_address : String → Bool) (action owner ens nonce : String) (now : ℕ) (rows : Rows)
    → ((issue_challenge is_address action owner ens nonce now rows).1 ≡ rows)
      ⊎ ((issue_challenge is_address action owner ens nonce now rows).1
          ≡ Map.set nonce (row_for action owner ens nonce now) rows)
unfolding issue_challenge
issue-cases is_address action owner ens nonce now rows = elim (Bool-cases (is_address owner)) [
  | inr other ↦ rw other (inl refl)
  | inl address ↦ elim (Bool-cases (is_action action)) [
    | inr none_such ↦ rw (address, none_such) (inl refl)
    | inl act ↦ elim (Bool-cases (Map.has nonce rows)) [
      | inl there ↦ rw (address, act, there) (inl refl)
      | inr absent ↦ rw (address, act, absent) (inr refl)
    ]
  ]
]
