-- ===== src/Sdk/Ens/Identity.antt =====
-- What `verifyIdentity` of packages/sdk/src/ens.ts lets pass.
use agentdir_open_agents.Base.{
  String, Bool, true, false, not, ◌≡◌, refl, Option, none, some, ◌==◌, eq_iff, if◌then◌else◌, ap,
  ◌∙◌,
}
use agentdir_open_agents.Js.Text.{to_lower}
use agentdir_open_agents.Js.Value.{Json, str, prop, prop?}
use agentdir_open_agents.Js.Result.{Result, ok, throw, ◌>>=◌, lower_of-eq-ok, reject_if}
use agentdir_open_agents.Sdk.Ens.{
  EnsClient, filled, get_address, get_primary_name, get_text, get_agent_card, reverse_fault,
  is_pubkey, card_verdict, text_or_empty, verify_identity,
}

-- The name has no address, or the address has the name for its own.
abbrev pub IsReversed : EnsClient → String → Option String → Type 0
IsReversed client name none = Unit
IsReversed client name (some addr) =
    (own : String) × (get_primary_name client addr ≡ ok (some own)) × (to_lower own ≡ to_lower name)

-- The record of the name has the key, and so has the card of the name.
pub record IsIdentity (client : EnsClient) (stringify : Json → String)
    (parse : String → Option Json) (name expected : String) : Type 0 where
  pub address :
      (addr : Option String) × (get_address client name ≡ ok addr)
      × IsReversed client name (filled addr)
  pub pubkey :
      (key : String) × (get_text client name "network.axl.pubkey" ≡ ok (some key))
      × (filled (some key) ≡ some key)
      × (to_lower key ≡ to_lower expected)
  pub card :
      (c : Json) × (own : String) × (get_agent_card client stringify parse name ≡ ok c)
      × (prop? "axlPubkey" (prop "identity" c) ≡ some (str own))
      × (to_lower own ≡ to_lower expected)

true_of_not : (b : Bool) → not b ≡ false → b ≡ true
true_of_not true h = refl
true_of_not false h = cc

unbind {ℓ κ} :
    {A : Type ℓ} {B : Type κ} (r : Result A) (k : A → Result B) {b : B}
    → (r >>= k) ≡ ok b
    → (a : A) × (r ≡ ok a) × (k a ≡ ok b)
unbind (ok a) k h = (a, refl, h)
unbind (throw e) k h = cc

pass_if :
    (b : Bool) (e : String) (k : Result (Option String))
    → (if b then ok (some e) else k) ≡ ok none
    → (b ≡ false) × (k ≡ ok none)
pass_if true e k h = cc
pass_if false e k h = (refl, h)

pass_unless :
    (b : Bool) (e : String) (k : Result (Option String))
    → reject_if (not b) e k ≡ ok none
    → (b ≡ true) × (k ≡ ok none)
pass_unless true e k h = (refl, h)
pass_unless false e k h = cc

module _ (client : EnsClient) (stringify : Json → String) (parse : String → Option Json)
    (name expected : String) where
  reverse_fault-IsReversed :
      (addr : Option String)
      → reverse_fault client stringify parse name addr ≡ ok false
      → IsReversed client name addr
  unfolding reverse_fault
  reverse_fault-IsReversed none h = tt
  reverse_fault-IsReversed (some addr) h =
      let (own, reverse, same) = unbind _ _ h in shown own reverse same
    where
      shown :
          (own : Option String)
          → get_primary_name client addr ≡ ok own
          → ok (not (elim own [ none ↦ false | some r ↦ to_lower r == to_lower name ])) ≡ ok false
          → IsReversed client name (some addr)
      shown none reverse same = cc
      shown (some own) reverse same = (own, reverse, (eq_iff _ _).0 (true_of_not _ (cc same)))

  card_verdict-own :
      (key : String) (r : Result String)
      → card_verdict client stringify parse key r ≡ ok none
      → r ≡ ok (to_lower key)
  card_verdict-own key (throw e) h = cc
  card_verdict-own key (ok own) h =
      ap ok ((eq_iff own (to_lower key)).0 (pass_unless (own == to_lower key) _ _ h).0)

  pubkey_of :
      (o : Option String)
      → is_pubkey client stringify parse (filled o) expected ≡ true
      → (key : String) × (o ≡ some key)
        × (filled (some key) ≡ some key)
        × (to_lower key ≡ to_lower expected)
  pubkey_of none h = cc
  pubkey_of (some String.[]) h = cc
  pubkey_of (some (String.◌∷◌ c key)) h = (_, refl, refl, (eq_iff _ _).0 h)

  -- An identity that passes has the expected key in its record and in its card, up to letter case, and
  -- an address of the name, where it has one, has the name for its own.
  pub verify_identity-IsIdentity :
      verify_identity client stringify parse name expected ≡ ok none
      → IsIdentity client stringify parse name expected
  unfolding verify_identity
  verify_identity-IsIdentity h =
      let (addr, got_addr, h₁) = unbind (get_address client name) _ h in
      let (fault, reversed, h₂) = unbind _ _ h₁ in
      let (no_fault, h₃) = pass_if fault _ _ h₂ in
      let (o, got_key, h₄) = unbind _ _ h₃ in
      let (is_key, h₅) = pass_unless _ _ _ h₄ in
      let (key, here, full, same) = pubkey_of o is_key in
      let owned = card_verdict-own (text_or_empty client stringify parse o) _ h₅ in
      let (c, got_card, lowered) = unbind _ _ owned in
      let (own, own_here, own_same) = lower_of-eq-ok _ lowered in
      record {
        address =
            (addr, got_addr, reverse_fault-IsReversed (filled addr) (reversed ∙ ap ok no_fault));
        pubkey = (key, got_key ∙ ap ok here, full, same);
        card = (c, own, got_card, own_here, own_same ∙ (rw here same));
      }
