-- ===== src/Agent/Caller/Check.antt =====
-- The tests of packages/agent/src/caller.ts on a response and on a chunk that bear the call's id.
use Prim.Native.String.{◌++◌}
use agentdir_open_agents.Base.{ℕ, String, Bool, true, false, some, ◌==◌, not, if◌then◌else◌}
use agentdir_open_agents.Base.Int.{pos, abs}
use agentdir_open_agents.Crypto.{Crypto}
use agentdir_open_agents.Signed.{digest_of, verify_digest}
use agentdir_open_agents.Js.Text.{to_lower}
use agentdir_open_agents.Js.Coerce.{to_number}
use agentdir_open_agents.Js.Number.{Number, nan, int, minus, is_abs_above, number_text}
use agentdir_open_agents.Js.Show.{show_value}
use agentdir_open_agents.Js.Value.{Json, str, Value, prop, truthy, is_text_eq, is_number_eq}
use agentdir_open_agents.Js.Result.{Result, ok, throw, ◌>>=◌, lower_of, type_error}
use agentdir_open_agents.Agent.Protocol.{
  Answer, output, error, ResponseSigDomain, response_domain, ChunkSigDomain, chunk_domain,
}
use agentdir_open_agents.Agent.Caller.{CallSkillArgs, expected_pub, max_age}

-- `if (c) throw new Error(message);`
abbrev pub throw_if {ℓ} : {A : Type ℓ} → Bool → String → Result A → Result A
throw_if true message next = throw message
throw_if false message next = next

-- `if (v.toLowerCase() !== t) throw new Error(message);`
abbrev pub throw_unless_lower {ℓ} : {A : Type ℓ} → Value → String → String → Result A → Result A
throw_unless_lower v t message next = lower_of v >>= λ s. throw_if (not (s == t)) message next

-- `Math.abs(now - x)` as the message shows it.
abbrev show_skew : Number → String
show_skew nan = "NaN"
show_skew (int x) = number_text (pos (abs x))

abbrev pub skew_of : ℕ → Json → Number
skew_of now x = minus (pos now) (to_number (prop "ts" x))

-- A signature that is no text makes `stripHex` throw.
abbrev pub throw_unless_signed {ℓ} :
    {A : Type ℓ} → Crypto → Value → String → String → String → Result A → Result A
throw_unless_signed C (some (str sig)) digest pubkey message next =
    throw_if (not (verify_digest C sig digest pubkey)) message next
throw_unless_signed C _ digest pubkey message next = throw type_error

abbrev pub answer_of : Json → Answer
answer_of x = if truthy (prop "ok" x) then output (prop "output" x) else error (prop "error" x)

-- The domain that is recomputed from the fields of a response.
abbrev pub domain_in : Json → ResponseSigDomain
domain_in x = record {
  id = prop "id" x;
  answer = answer_of x;
  responder = prop "responder" x;
  caller = prop "caller" x;
  skill = prop "skill" x;
  ts = prop "ts" x;
}

abbrev pub chunk_domain_in : Json → ChunkSigDomain
chunk_domain_in x = record {
  id = prop "id" x;
  seq = prop "seq" x;
  text = prop "text" x;
  responder = prop "responder" x;
  caller = prop "caller" x;
  skill = prop "skill" x;
  ts = prop "ts" x;
}

module _ (C : Crypto) (args : CallSkillArgs) (now : ℕ) (x : Json) where
  unfoldable pub check_response : Result Json
  check_response =
      throw_unless_lower (prop "signerPubkey" x) (expected_pub args)
        ("responder pubkey mismatch: got " ++ show_value (prop "signerPubkey" x))
        (throw_unless_lower (prop "responder" x) (expected_pub args) "responder field mismatch" (
          throw_unless_lower (prop "caller" x) (to_lower args.caller_pubkey)
            "response not addressed to this caller"
            (throw_if (not (is_text_eq args.skill (prop "skill" x))) "skill mismatch in response" (
              throw_if (is_abs_above (skew_of now x) (max_age args))
                ("stale response: " ++ (show_skew (skew_of now x) ++ "ms"))
                (throw_unless_signed C (prop "sig" x) (digest_of C (response_domain (domain_in x)))
                  (expected_pub args) "response signature invalid"
                  (throw_if (not (truthy (prop "ok" x))) ("remote: " ++ show_value (prop "error" x))
                    (ok x)))))))

  unfoldable pub check_chunk : ℕ → Result Json
  check_chunk next_seq =
      throw_unless_lower (prop "signerPubkey" x) (expected_pub args)
        ("chunk signer mismatch: " ++ show_value (prop "signerPubkey" x))
        (throw_unless_lower (prop "responder" x) (expected_pub args) "chunk responder mismatch" (
          throw_unless_lower (prop "caller" x) (to_lower args.caller_pubkey)
            "chunk not addressed to this caller"
            (throw_if (not (is_text_eq args.skill (prop "skill" x))) "chunk skill mismatch" (
              throw_if (not (is_number_eq (pos next_seq) (prop "seq" x)))
                ("chunk seq out of order: got "
                  ++ (show_value (prop "seq" x) ++ (" expected " ++ number_text (pos next_seq))))
                (throw_if (is_abs_above (skew_of now x) (max_age args))
                  ("stale chunk: " ++ (show_skew (skew_of now x) ++ "ms"))
                  (throw_unless_signed C (prop "sig" x)
                    (digest_of C (chunk_domain (chunk_domain_in x))) (expected_pub args)
                    ("chunk " ++ (show_value (prop "seq" x) ++ " signature invalid")) (ok x)))))))
