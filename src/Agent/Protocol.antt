-- ===== src/Agent/Protocol.antt =====
-- packages/agent/src/protocol.ts: the envelopes of skill calls, and the tests that tell them apart.
use agentdir_open_agents.Base.{String, Bool, true, false, ◌&&◌, some, List, [], ◌∷◌}
use agentdir_open_agents.Base.Int.{ℤ, pos}
use agentdir_open_agents.Js.Value.{
  Json, num, str, bool, Value, prop, truthy, is_text, is_number, is_number_eq, is_text_eq, object,
}

unfoldable pub is_skill_request : Json → Bool
is_skill_request x =
    truthy (some x)
    && is_number_eq (pos 1) (prop "v" x)
    && is_text_eq "skill.req" (prop "type" x)
    && is_text (prop "id" x)
    && is_text (prop "nonce" x)
    && is_number (prop "ts" x)
    && is_text (prop "skill" x)
    && is_text (prop "callerPubkey" x)

unfoldable pub is_skill_response : Json → Bool
is_skill_response x =
    truthy (some x)
    && is_number_eq (pos 1) (prop "v" x)
    && is_text_eq "skill.res" (prop "type" x)
    && is_text (prop "id" x)

unfoldable pub is_skill_chunk : Json → Bool
is_skill_chunk x =
    truthy (some x)
    && is_number_eq (pos 1) (prop "v" x)
    && is_text_eq "skill.chunk" (prop "type" x)
    && is_text (prop "id" x)
    && is_number (prop "seq" x)
    && is_text (prop "text" x)
    && is_text (prop "sig" x)

-- The fields of a request that passed the test.
pub record SkillRequest : Type 0 where
  pub id : String
  pub nonce : String
  pub ts : ℤ
  pub skill : String
  pub input : Value
  pub payment : Value
  pub caller_inft : Value
  pub caller_pubkey : String
  pub stream : Value

abbrev text_of : Value → String
text_of (some (str s)) = s
text_of _ = ""

abbrev number_of : Value → ℤ
number_of (some (num n)) = n
number_of _ = pos 0

unfoldable pub request_of : Json → SkillRequest
request_of x = record {
  id = text_of (prop "id" x);
  nonce = text_of (prop "nonce" x);
  ts = number_of (prop "ts" x);
  skill = text_of (prop "skill" x);
  input = prop "input" x;
  payment = prop "payment" x;
  caller_inft = prop "callerINFT" x;
  caller_pubkey = text_of (prop "callerPubkey" x);
  stream = prop "stream" x;
}

-- The request that `callSkill` and `callSkillStream` send; `stream` is undefined in the first.
unfoldable pub request_json : SkillRequest → Json
request_json r = object (
    ("v", some (num (pos 1)))
    ∷ ("type", some (str "skill.req"))
    ∷ ("id", some (str r.id))
    ∷ ("nonce", some (str r.nonce))
    ∷ ("ts", some (num r.ts))
    ∷ ("skill", some (str r.skill))
    ∷ ("input", r.input)
    ∷ ("callerINFT", r.caller_inft)
    ∷ ("callerPubkey", some (str r.caller_pubkey))
    ∷ ("payment", r.payment)
    ∷ ("stream", r.stream)
    ∷ [])

-- What a response says: its output, or its error.
pub data Answer : Type 0 where
  output : Value → Answer
  error : Value → Answer

pub record ResponseSigDomain : Type 0 where
  pub id : Value
  pub answer : Answer
  pub responder : Value
  pub caller : Value
  pub skill : Value
  pub ts : Value

abbrev pub answer_fields : Answer → List (String × Value) → List (String × Value)
answer_fields (output v) tail = ("ok", some (bool true)) ∷ ("output", v) ∷ tail
answer_fields (error e) tail = ("ok", some (bool false)) ∷ ("error", e) ∷ tail

-- The object that is signed.
unfoldable pub response_domain : ResponseSigDomain → Json
response_domain d = object (
    ("v", some (num (pos 1)))
    ∷ ("id", d.id)
    ∷ answer_fields d.answer (
        ("responder", d.responder) ∷ ("caller", d.caller) ∷ ("skill", d.skill) ∷ ("ts", d.ts) ∷ []))

-- The response that carries the signature.
unfoldable pub response_json : ResponseSigDomain → String → Json
response_json d sig = object (
    ("v", some (num (pos 1)))
    ∷ ("type", some (str "skill.res"))
    ∷ ("id", d.id)
    ∷ answer_fields d.answer (
        ("ts", d.ts)
        ∷ ("responder", d.responder)
        ∷ ("caller", d.caller)
        ∷ ("skill", d.skill)
        ∷ ("sig", some (str sig))
        ∷ ("signerPubkey", d.responder)
        ∷ []))

pub record ChunkSigDomain : Type 0 where
  pub id : Value
  pub seq : Value
  pub text : Value
  pub responder : Value
  pub caller : Value
  pub skill : Value
  pub ts : Value

unfoldable pub chunk_domain : ChunkSigDomain → Json
chunk_domain d = object (
    ("v", some (num (pos 1)))
    ∷ ("id", d.id)
    ∷ ("seq", d.seq)
    ∷ ("text", d.text)
    ∷ ("responder", d.responder)
    ∷ ("caller", d.caller)
    ∷ ("skill", d.skill)
    ∷ ("ts", d.ts)
    ∷ [])

unfoldable pub chunk_json : ChunkSigDomain → String → Json
chunk_json d sig = object (
    ("v", some (num (pos 1)))
    ∷ ("type", some (str "skill.chunk"))
    ∷ ("id", d.id)
    ∷ ("seq", d.seq)
    ∷ ("text", d.text)
    ∷ ("ts", d.ts)
    ∷ ("responder", d.responder)
    ∷ ("caller", d.caller)
    ∷ ("skill", d.skill)
    ∷ ("sig", some (str sig))
    ∷ ("signerPubkey", d.responder)
    ∷ [])
