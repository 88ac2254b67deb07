-- ===== src/Agent/Skills.antt =====
-- packages/agent/src/skills.ts: the registry and the skills that ask a model. The compute client,
-- packages/sdk/src/compute.ts or compute-direct.ts, is a parameter: the answer of `chat`, and the
-- deltas of `stream` with the error that ends them, if one does.
pub mod Streams
pub mod Labels
pub mod Registry
pub mod Route
use Prim.Native.Char.{Char, code}
use Prim.Native.String.{char_at, ◌++◌ as append}
use agentdir_open_agents.Base.{
  ℕ, ◌-◌, String, Bool, true, false, ◌&&◌, ◌||◌, Option, none, some, List, [], ◌∷◌, map, ◌==◌, leb,
  eqb, if◌then◌else◌,
}
use agentdir_open_agents.Base.Int.{pos}
use agentdir_open_agents.Js.Map
use agentdir_open_agents.Js.Map.{Map}
use agentdir_open_agents.Js.Text.{is_filled}
use agentdir_open_agents.Js.Text.Parts.{trim}
use agentdir_open_agents.Js.Value.{Json, num, str, arr, Items, nil, cons, Value, truthy, object}
use agentdir_open_agents.Js.Result.{Result, ok, throw, ◌>>=◌, read}
use agentdir_open_agents.Agent.Runtime.{InputSchema, PropSchema, Stream}

pub record ChatMessage : Type 0 where
  pub role : String
  pub content : Value

pub record ChatOpts : Type 0 where
  pub max_tokens : ℕ
  pub temperature : Option ℕ

pub record Deltas : Type 0 where
  pub deltas : List Value
  pub thrown : Option String

pub record Compute : Type 0 where
  pub chat : List ChatMessage → ChatOpts → Result String
  pub stream : List ChatMessage → ChatOpts → Deltas

pub record Skill : Type 0 where
  pub id : String
  pub name : String
  pub description : String
  pub tags : List String
  pub input_schema : InputSchema
  pub output_schema : Json
  pub pricing : Value

pub record RegisteredSkill : Type 0 where
  pub def : Skill
  pub handler : Compute → Value → Result Value
  pub stream_handler : Option (Compute → Value → Stream)

abbrev pub SkillRegistry : Type 0
SkillRegistry = Map RegisteredSkill

unfoldable pub add : RegisteredSkill → SkillRegistry → SkillRegistry
add skill map = Map.set skill.def.id skill map

unfoldable pub get : String → SkillRegistry → Option RegisteredSkill
get id map = Map.get id map

unfoldable pub list : SkillRegistry → List Skill
list [] = []
list ((id, skill) ∷ map) = skill.def ∷ list map

abbrev pub filled_text : Value → Result String
filled_text (some (str s)) = if is_filled s then ok s else throw "empty text"
filled_text _ = throw "empty text"

-- `const { text } = input`, and its test.
abbrev pub text_input : Value → Result String
text_input input = read "text" input >>= λ v. filled_text v

abbrev pub messages : String → Value → List ChatMessage
messages system text =
    record { role = "system"; content = some (str system) }
    ∷ record { role = "user"; content = text }
    ∷ []

-- The loop over the stream: the text so far, and the deltas that are yielded.
unfoldable pub accumulate : String → List Value → String × List String
accumulate acc [] = (acc, [])
accumulate acc (some (str String.[]) ∷ ds) = accumulate acc ds
accumulate acc (some (str (String.◌∷◌ c s)) ∷ ds) =
    let (text, yielded) = accumulate (append acc (String.◌∷◌ c s)) ds in
    (text, String.◌∷◌ c s ∷ yielded)
accumulate acc (_ ∷ ds) = accumulate acc ds

abbrev pub returned_or : Option String → Value → Result Value
returned_or none v = ok v
returned_or (some e) v = throw e

abbrev pub streamed : Deltas → (String → Value) → Stream
streamed d result =
    let (acc, yielded) = accumulate "" d.deltas in
    record { yielded = yielded; returned = returned_or d.thrown (result acc) }

abbrev pub no_stream : String → Stream
no_stream e = record { yielded = []; returned = throw e }

abbrev pub or_thrown : Result String → (String → Stream) → Stream
or_thrown (ok text) f = f text
or_thrown (throw e) f = no_stream e

-- The object `{ k: out.trim() }`.
unfoldable pub trimmed : String → String → Value
unfolding trim
trimmed k out = some (object ((k, some (str (trim out))) ∷ []))

-- A skill that sends the text after a system prompt, as one call or as a stream.
unfoldable pub ask : String → ChatOpts → String → Compute → Value → Result Value
unfolding trimmed
ask system opts k compute input = text_input input >>= λ text.
    compute.chat (messages system (some (str text))) opts >>= λ out. ok (trimmed k out)

unfoldable pub ask_streaming : String → ChatOpts → String → Compute → Value → Stream
unfolding trimmed accumulate
ask_streaming system opts k compute input =
    or_thrown (text_input input)
      (λ text. streamed (compute.stream (messages system (some (str text))) opts) (trimmed k))

abbrev pub tokens : ℕ → ChatOpts
tokens n = record { max_tokens = n; temperature = none }

-- The input `{ text }` with the longest text that is taken.
abbrev pub text_schema : ℕ → InputSchema
text_schema max = record {
  required = "text" ∷ [];
  properties = some (("text", record { is_string = true; max_length = some max }) ∷ []);
}

abbrev string_type : Value
string_type = some (object (("type", some (str "string")) ∷ []))

abbrev pub output_schema : String → Value → Json
output_schema k property =
    object (("type", some (str "object")) ∷ ("properties", some (object ((k, property) ∷ []))) ∷ [])

abbrev usdc : String → Value
usdc amount = some (
    object (
      (
        "x402",
        some (
            object (
              ("token", some (str "USDC"))
              ∷ ("chainId", some (num (pos 8453)))
              ∷ ("amount", some (str amount))
              ∷ [])),
      )
      ∷ []))

abbrev pub summarize_prompt : String
summarize_prompt = "Summarize the user's text in one sentence."

unfoldable pub summarize : RegisteredSkill
unfolding ask ask_streaming
summarize = record {
  def = record {
    id = "summarize";
    name = "summarize";
    description = "summarize text via 0G Compute (qwen-2.5-7b-instruct)";
    tags = "nlp" ∷ "text" ∷ [];
    input_schema = text_schema 10000;
    output_schema = output_schema "summary" string_type;
    pricing = usdc "0.01";
  };
  handler = ask summarize_prompt (tokens 120) "summary";
  stream_handler = some (ask_streaming summarize_prompt (tokens 120) "summary");
}

abbrev sentiment_prompt : String
sentiment_prompt =
    "Classify the user's text. Reply with exactly one word: \"positive\", \"neutral\", or \"negative\". No punctuation."

-- What `toLowerCase` and the removal of all but a to z leave of a character: two characters beyond
-- ASCII have a lower case with an ASCII letter.
abbrev pub label_char : Char → String → String
label_char c rest =
    let n = code c in
    if leb b'a' n && leb n b'z'
    then String.◌∷◌ c rest
    else if leb b'A' n && leb n b'Z'
    then String.◌∷◌ (char_at "abcdefghijklmnopqrstuvwxyz" (n - b'A')) rest
    else if eqb n 0x130
    then String.◌∷◌ "i" rest
    else if eqb n 0x212A
    then String.◌∷◌ "k" rest
    else rest

-- `s.toLowerCase().replace(/[^a-z]/g, "")`
unfoldable pub label_letters : String → String
label_letters String.[] = ""
label_letters (String.◌∷◌ c s) = label_char c (label_letters s)

abbrev pub label_or_neutral : String → String
label_or_neutral label =
    if label == "positive" || (label == "neutral" || label == "negative") then label else "neutral"

unfoldable pub label_of : String → Value
unfolding label_letters trim
label_of out =
    some (object (("label", some (str (label_or_neutral (label_letters (trim out))))) ∷ []))

unfoldable pub sentiment_handler : Compute → Value → Result Value
unfolding label_of
sentiment_handler compute input = read "text" input >>= λ text.
    compute.chat (messages sentiment_prompt text) (record { max_tokens = 6; temperature = some 0 })
    >>= λ out. ok (label_of out)

abbrev pub sentiment_from : Compute → Result Value → Stream
sentiment_from compute (throw e) = no_stream e
sentiment_from compute (ok text) =
    streamed (compute.stream (messages sentiment_prompt text) (tokens 6)) label_of

unfoldable pub sentiment_streaming : Compute → Value → Stream
unfolding label_of accumulate
sentiment_streaming compute input = sentiment_from compute (read "text" input)

unfoldable pub sentiment : RegisteredSkill
unfolding sentiment_handler sentiment_streaming
sentiment = record {
  def = record {
    id = "sentiment";
    name = "sentiment";
    description = "classify text sentiment as positive | neutral | negative";
    tags = "nlp" ∷ "classification" ∷ [];
    input_schema = text_schema 5000;
    output_schema = output_schema "label" (
        some (
          object (
            ("type", some (str "string"))
            ∷ (
              "enum",
              some (arr (cons (str "positive") (cons (str "neutral") (cons (str "negative") nil)))),
            )
            ∷ [])));
    pricing = usdc "0.005";
  };
  handler = sentiment_handler;
  stream_handler = some sentiment_streaming;
}

pub record PromptSkillInput : Type 0 where
  pub id : String
  pub name : String
  pub description : String
  pub tags : List String
  pub system_prompt : String
  pub max_tokens : ℕ
  pub input_max_length : Option ℕ
  pub pricing : Value

abbrev pub input_max : Option ℕ → ℕ
input_max none = 5000
input_max (some n) = n

unfoldable pub make_prompt_skill : PromptSkillInput → RegisteredSkill
unfolding ask ask_streaming
make_prompt_skill i = record {
  def = record {
    id = i.id;
    name = i.name;
    description = i.description;
    tags = i.tags;
    input_schema = text_schema (input_max i.input_max_length);
    output_schema = output_schema "text" string_type;
    pricing = if truthy i.pricing then i.pricing else none;
  };
  handler = ask i.system_prompt (tokens i.max_tokens) "text";
  stream_handler = some (ask_streaming i.system_prompt (tokens i.max_tokens) "text");
}
