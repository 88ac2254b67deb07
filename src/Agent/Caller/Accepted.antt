-- ===== src/Agent/Caller/Accepted.antt =====
-- What a response or a chunk has shown when packages/agent/src/caller.ts takes it.
use agentdir_open_agents.Base.{
  ℕ, ◌≤◌, ◌≡◌, refl, String, Bool, true, false, none, some, not, ◌==◌, eq_iff, arith,
}
use agentdir_open_agents.Base.Int.{pos, abs, ◌-ℤ◌}
use agentdir_open_agents.Crypto.{Crypto}
use agentdir_open_agents.Signed.{digest_of, verify_digest}
use agentdir_open_agents.Js.Text.{to_lower}
use agentdir_open_agents.Js.Coerce.{to_number}
use agentdir_open_agents.Js.Number.{Number, nan, int, minus, is_abs_above}
use agentdir_open_agents.Js.Value.{
  Json, null, str, num, Value, prop, truthy, is_text_eq_iff, is_number_eq,
}
use agentdir_open_agents.Js.Result.{Result, ok}
use agentdir_open_agents.Agent.Protocol.{response_domain, chunk_domain}
use agentdir_open_agents.Agent.Caller.{CallSkillArgs, expected_pub, max_age}
use agentdir_open_agents.Agent.Caller.Check.{
  throw_if, throw_unless_lower, throw_unless_signed, domain_in, chunk_domain_in, check_response,
  check_chunk,
}

-- The value is a text that is `t` in lower case.
abbrev pub IsLower : Value → String → Type 0
IsLower v t = (s : String) × (v ≡ some (str s)) × (to_lower s ≡ t)

-- A time of a message that is a number lies within the window around now.
abbrev pub IsNear : ℕ → Number → ℕ → Type 0
IsNear now nan max = Unit
IsNear now (int ts) max = abs (pos now -ℤ ts) ≤ max

abbrev pub IsSigned : Crypto → Value → String → String → Type 0
IsSigned C v digest pubkey =
    (sig : String) × (v ≡ some (str sig)) × (verify_digest C sig digest pubkey ≡ true)

-- The message is from the expected responder, for this caller and skill, and is fresh.
pub record IsBound (args : CallSkillArgs) (now : ℕ) (x : Json) : Type 0 where
  pub signer : IsLower (prop "signerPubkey" x) (expected_pub args)
  pub responder : IsLower (prop "responder" x) (expected_pub args)
  pub caller : IsLower (prop "caller" x) (to_lower args.caller_pubkey)
  pub skill : prop "skill" x ≡ some (str args.skill)
  pub fresh : IsNear now (to_number (prop "ts" x)) (max_age args)

module _ {A : Type 0} where
  throw_if-ok :
      (b : Bool) (e : String) (next : Result A) {a : A}
      → throw_if b e next ≡ ok a
      → (b ≡ false) × (next ≡ ok a)
  throw_if-ok true e next h = cc
  throw_if-ok false e next h = (refl, h)

  throw_if-not :
      (b : Bool) (e : String) (next : Result A) {a : A}
      → throw_if (not b) e next ≡ ok a
      → (b ≡ true) × (next ≡ ok a)
  throw_if-not true e next h = (refl, h)
  throw_if-not false e next h = cc

  throw_unless_lower-ok :
      (v : Value) (t e : String) (next : Result A) {a : A}
      → throw_unless_lower v t e next ≡ ok a
      → IsLower v t × (next ≡ ok a)
  throw_unless_lower-ok none t e next h = cc
  throw_unless_lower-ok (some (str s)) t e next h =
      let (same, rest) = throw_if-not (to_lower s == t) e next h in
      ((s, refl, (eq_iff _ _).0 same), rest)
  throw_unless_lower-ok (some null) t e next h = cc
  throw_unless_lower-ok (some _) t e next h = cc

  throw_unless_signed-ok :
      (C : Crypto) (v : Value) (d p e : String) (next : Result A) {a : A}
      → throw_unless_signed C v d p e next ≡ ok a
      → IsSigned C v d p × (next ≡ ok a)
  throw_unless_signed-ok C none d p e next h = cc
  throw_unless_signed-ok C (some (str sig)) d p e next h =
      let (good, rest) = throw_if-not (verify_digest C sig d p) e next h in
      ((sig, refl, good), rest)
  throw_unless_signed-ok C (some null) d p e next h = cc
  throw_unless_signed-ok C (some _) d p e next h = cc

near :
    (now : ℕ) (n : Number) (max : ℕ)
    → is_abs_above (minus (pos now) n) max ≡ false
    → IsNear now n max
near now nan max h = tt
near now (int ts) max h = ground arith

is_number_eq-eq : (n : ℕ) (v : Value) → is_number_eq (pos n) v ≡ true → v ≡ some (num (pos n))
is_number_eq-eq n none h = cc
is_number_eq-eq n (some (num m)) h = ground arith
is_number_eq-eq n (some null) h = cc
is_number_eq-eq n (some _) h = cc

module _ (C : Crypto) (args : CallSkillArgs) (now : ℕ) (x r : Json) where
  -- The response that is returned is the one that came: it is bound to this call, its signature
  -- verifies over the domain of its own fields under the expected key, and it reports success.
  pub check_response-IsBound :
      check_response C args now x ≡ ok r
      → (x ≡ r)
        × IsBound args now x
        × IsSigned C
            (prop "sig" x)
            (digest_of C (response_domain (domain_in x)))
            (expected_pub args)
        × (truthy (prop "ok" x) ≡ true)
  unfolding check_response
  check_response-IsBound h =
      let (signer, h₁) = throw_unless_lower-ok _ _ _ _ h in
      let (responder, h₂) = throw_unless_lower-ok _ _ _ _ h₁ in
      let (caller, h₃) = throw_unless_lower-ok _ _ _ _ h₂ in
      let (skill, h₄) = throw_if-not _ _ _ h₃ in
      let (fresh, h₅) = throw_if-ok _ _ _ h₄ in
      let (signed, h₆) = throw_unless_signed-ok C _ _ _ _ _ h₅ in
      let (passed, h₇) = throw_if-not _ _ _ h₆ in
      (
        cc h₇,
        record {
          signer = signer;
          responder = responder;
          caller = caller;
          skill = (is_text_eq_iff _ _).0 skill;
          fresh = near now _ _ fresh;
        },
        signed,
        passed,
      )

  -- A chunk that is taken is the one that came: it is bound to this call, it is the next one in
  -- order, and its signature verifies over the domain of its own fields under the expected key.
  pub check_chunk-IsBound :
      (next_seq : ℕ)
      → check_chunk C args now x next_seq ≡ ok r
      → (x ≡ r)
        × IsBound args now x
        × (prop "seq" x ≡ some (num (pos next_seq)))
        × IsSigned C
            (prop "sig" x)
            (digest_of C (chunk_domain (chunk_domain_in x)))
            (expected_pub args)
  unfolding check_chunk
  check_chunk-IsBound next_seq h =
      let (signer, h₁) = throw_unless_lower-ok _ _ _ _ h in
      let (responder, h₂) = throw_unless_lower-ok _ _ _ _ h₁ in
      let (caller, h₃) = throw_unless_lower-ok _ _ _ _ h₂ in
      let (skill, h₄) = throw_if-not _ _ _ h₃ in
      let (seq, h₅) = throw_if-not _ _ _ h₄ in
      let (fresh, h₆) = throw_if-ok _ _ _ h₅ in
      let (signed, h₇) = throw_unless_signed-ok C _ _ _ _ _ h₆ in
      (
        cc h₇,
        record {
          signer = signer;
          responder = responder;
          caller = caller;
          skill = (is_text_eq_iff _ _).0 skill;
          fresh = near now _ _ fresh;
        },
        is_number_eq-eq next_seq _ seq,
        signed,
      )
