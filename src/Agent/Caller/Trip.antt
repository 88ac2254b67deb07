-- ===== src/Agent/Caller/Trip.antt =====
-- The runtime's replies of packages/agent/src/agent.ts at the caller of packages/agent/src/caller.ts.
use Prim.Native.String.{◌++◌ as append}
use agentdir_open_agents.Base.{ℕ, ◌≤◌, ◌≡◌, refl, String, true, false, none, some, ap, ◌∙◌}
use agentdir_open_agents.Base.Int.{pos, abs, ◌-ℤ◌}
use agentdir_open_agents.Crypto.{Crypto, IsSound}
use agentdir_open_agents.Signed.{digest_of, sign_digest, verify_digest, verify_digest-sign_digest}
use agentdir_open_agents.Js.Text.{to_lower, strip_hex}
use agentdir_open_agents.Js.Value.{Json, str, num, Value, prop, fields_of, truthy}
use agentdir_open_agents.Js.Result.{ok, throw}
use agentdir_open_agents.Agent.Protocol.{
  Answer, output, error, SkillRequest, response_domain, response_json, chunk_json,
}
use agentdir_open_agents.Agent.Runtime.{AgentOpts, Times}
use agentdir_open_agents.Sdk.Storage.{Storage}
use agentdir_open_agents.Agent.Runtime.Handle.{Link, response, sign_response, chunk}
use agentdir_open_agents.Agent.Caller.{CallSkillArgs, expected_pub, max_age}
use agentdir_open_agents.Agent.Caller.Check.{domain_in, check_response, check_chunk}
use agentdir_open_agents.Agent.Caller.Accepted.{IsSigned, IsBound}
use agentdir_open_agents.Agent.Caller.Exact.{
  check_response-bound, check_chunk-bound, check_response_iff,
}
use agentdir_open_agents.Js.Show.{show_json, show_value}

-- The agent answers the call: its key is the one that the caller expects, and the request has the
-- caller's key and skill.
pub record IsFor (C : Crypto) (opts : AgentOpts) (args : CallSkillArgs) (req : SkillRequest)
    : Type 0 where
  pub responder : to_lower opts.identity.axl_pubkey_hex ≡ expected_pub args
  pub key : strip_hex (expected_pub args) ≡ C.public_key opts.identity.axl_private_key_hex
  pub caller : to_lower req.caller_pubkey ≡ to_lower args.caller_pubkey
  pub skill : req.skill ≡ args.skill

module _ (C : Crypto) (S : Storage) (opts : AgentOpts) (link : Link) (times : Times)
    (args : CallSkillArgs) (req : SkillRequest) (sound : IsSound C)
    (meant : IsFor C opts args req) where
  verified :
      (v : Json)
      → verify_digest C
          (sign_digest C opts.identity.axl_private_key_hex (digest_of C v))
          (digest_of C v)
          (expected_pub args)
        ≡ true
  verified v =
      verify_digest-sign_digest C sound opts.identity.axl_private_key_hex (expected_pub args) v
        meant.key

  abbrev pub reply : ℕ → Answer → Json
  reply ts answer = response C S opts link times ts req answer

  facts-IsBound :
      (now ts : ℕ) (x : Json)
      → prop "signerPubkey" x ≡ some (str opts.identity.axl_pubkey_hex)
      → prop "responder" x ≡ some (str opts.identity.axl_pubkey_hex)
      → prop "caller" x ≡ some (str req.caller_pubkey)
      → prop "skill" x ≡ some (str req.skill)
      → prop "ts" x ≡ some (num (pos ts))
      → abs (pos now -ℤ pos ts) ≤ max_age args
      → IsBound args now x
  facts-IsBound now ts x signer responder caller skill time near = record {
    signer = (_, signer, meant.responder);
    responder = (_, responder, meant.responder);
    caller = (_, caller, meant.caller);
    skill = skill ∙ ap (λ t. some (str t)) meant.skill;
    fresh = rw time near;
  }

  reply-IsBound :
      (now ts : ℕ) (answer : Answer)
      → abs (pos now -ℤ pos ts) ≤ max_age args
      → IsBound args now (reply ts answer)
  unfolding response response_json prop fields_of
  reply-IsBound now ts (output none) near = facts-IsBound now ts _ refl refl refl refl refl near
  reply-IsBound now ts (output (some v)) near = facts-IsBound now ts _ refl refl refl refl refl near
  reply-IsBound now ts (error none) near = facts-IsBound now ts _ refl refl refl refl refl near
  reply-IsBound now ts (error (some v)) near = facts-IsBound now ts _ refl refl refl refl refl near

  reply-IsSigned :
      (ts : ℕ) (answer : Answer)
      → IsSigned C
          (prop "sig" (reply ts answer))
          (digest_of C (response_domain (domain_in (reply ts answer))))
          (expected_pub args)
  unfolding response sign_response response_json prop fields_of
  reply-IsSigned ts (output none) = (_, refl, verified _)
  reply-IsSigned ts (output (some v)) = (_, refl, verified _)
  reply-IsSigned ts (error none) = (_, refl, verified _)
  reply-IsSigned ts (error (some v)) = (_, refl, verified _)

  reply-ok : (ts : ℕ) (out : Value) → truthy (prop "ok" (reply ts (output out))) ≡ true
  unfolding response response_json prop fields_of
  reply-ok ts none = refl
  reply-ok ts (some v) = refl

  reply-error :
      (ts : ℕ) (e : String)
      → (truthy (prop "ok" (reply ts (error (some (str e))))) ≡ false)
        × (show_value (prop "error" (reply ts (error (some (str e))))) ≡ e)
  unfolding response response_json prop fields_of show_value show_json
  reply-error ts e = (refl, refl)

  -- Where the agent that a call is meant for answers a request of the caller, and the answer is read
  -- within the age that the caller allows, the caller returns the response with the output, whatever
  -- it is, and throws `remote:` with the message of an error.
  pub check_response-response :
      (now ts : ℕ)
      → abs (pos now -ℤ pos ts) ≤ max_age args
      → ((out : Value)
          → check_response C args now (response C S opts link times ts req (output out))
            ≡ ok (response C S opts link times ts req (output out)))
        × ((e : String)
            → check_response C args now (response C S opts link times ts req (error (some (str e))))
              ≡ throw (append "remote: " e))
  check_response-response now ts near = (
    (λ out.
        (check_response_iff C args now (reply ts (output out))).1 (
          reply-IsBound now ts (output out) near,
          reply-IsSigned ts (output out),
          reply-ok ts out,
        )),
    λ e.
        let (failed, shown) = reply-error ts e in
        check_response-bound C args now _ (reply-IsBound now ts (error (some (str e))) near)
          (reply-IsSigned ts (error (some (str e))))
        ∙ rw (failed, shown) refl,
  )

  -- Where such an agent emits a chunk, and it is read within the age that the caller allows, the
  -- caller takes it as the chunk of its number.
  pub check_chunk-chunk :
      (now seq : ℕ) (text : String)
      → abs (pos now -ℤ pos (times.chunk seq)) ≤ max_age args
      → check_chunk C args now (chunk C S opts link times req seq text) seq
        ≡ ok (chunk C S opts link times req seq text)
  unfolding chunk chunk_json prop fields_of
  check_chunk-chunk now seq text near =
      check_chunk-bound C args now _ seq
        (facts-IsBound now (times.chunk seq) _ refl refl refl refl refl near) refl
        (_, refl, verified _)
