-- ===== src/Agent/Skills/Streams.antt =====
-- The stream handlers of packages/agent/src/skills.ts against the handlers.
use Prim.Native.String.{◌++◌ as append}
use text.Mathlib.TextLemmas.{append_assoc}
use agentdir_open_agents.Base.{
  String, true, none, some, List, [], ◌∷◌, ◌≡◌, refl, sym, ap, ◌∙◌, ◌⊎◌, inl, inr,
}
use agentdir_open_agents.Js.Text.{is_filled}
use agentdir_open_agents.Js.Text.Glue.{append-glue, glue-nil}
use agentdir_open_agents.Js.Value.{str, Value}
use agentdir_open_agents.Js.Result.{Result, ok, throw, ◌>>=◌, Result-cases}
use agentdir_open_agents.Agent.Runtime.{Stream}
use agentdir_open_agents.Agent.Skills.{
  ChatMessage, ChatOpts, Deltas, Compute, RegisteredSkill, PromptSkillInput, text_input, messages,
  accumulate, streamed, trimmed, ask, ask_streaming, tokens, summarize_prompt, summarize,
  make_prompt_skill,
}

abbrev pub all_text : List String → String
all_text [] = ""
all_text (t ∷ ts) = append t (all_text ts)

-- The text of the deltas that are strings.
abbrev pub delta_text : List Value → String
delta_text [] = ""
delta_text (some (str s) ∷ ds) = append s (delta_text ds)
delta_text (_ ∷ ds) = delta_text ds

abbrev pub AllFilled : List String → Type 0
AllFilled [] = Unit
AllFilled (t ∷ ts) = (is_filled t ≡ true) × AllFilled ts

accumulate_lem :
    (acc : String) (ds : List Value)
    → let (text, yielded) = accumulate acc ds in
      (text ≡ append acc (delta_text ds)) × (all_text yielded ≡ delta_text ds) × AllFilled yielded
unfolding accumulate
accumulate_lem acc [] = (rw (append-glue acc "", glue-nil acc) refl, refl, tt)
accumulate_lem acc (some (str String.[]) ∷ ds) =
    let (text, yields, filled) = accumulate_lem acc ds in
    let same : append "" (delta_text ds) ≡ delta_text ds = append-glue "" (delta_text ds) in
    rw same (text, yields, filled)
accumulate_lem acc (some (str (String.◌∷◌ c s)) ∷ ds) =
    let (text, yields, filled) = accumulate_lem (append acc (String.◌∷◌ c s)) ds in
    (
      text ∙ append_assoc acc (String.◌∷◌ c s) (delta_text ds),
      ap (append (String.◌∷◌ c s)) yields,
      (refl, filled),
    )
accumulate_lem acc (none ∷ ds) = accumulate_lem acc ds
accumulate_lem acc (some _ ∷ ds) = accumulate_lem acc ds

-- The stream of a model is its answer in pieces: it ends as the answer does, and its deltas are the
-- text.
abbrev pub Cuts : Deltas → Result String → Type 0
Cuts d (ok text) = (d.thrown ≡ none) × (delta_text d.deltas ≡ text)
Cuts d (throw e) = d.thrown ≡ some e

abbrev pub IsCut : Compute → Type 0
IsCut compute =
    (ms : List ChatMessage) (opts : ChatOpts) → Cuts (compute.stream ms opts) (compute.chat ms opts)

-- A stream that yields texts, none of them empty, and ends as the call does: with the text that was
-- yielded, trimmed, in one field, or with an error.
abbrev pub StreamsAs : String → Stream → Result Value → Type 0
StreamsAs k s called =
    (s.returned ≡ called)
    × AllFilled s.yielded
    × ((called ≡ ok (trimmed k (all_text s.yielded))) ⊎ ((e : String) × (called ≡ throw e)))

streamed-StreamsAs :
    (k : String) (d : Deltas) (answer : Result String)
    → Cuts d answer
    → StreamsAs k (streamed d (trimmed k)) (answer >>= λ out. ok (trimmed k out))
streamed-StreamsAs k d (ok text) (ends, same) =
    let (acc, yields, filled) = accumulate_lem "" d.deltas in
    let whole = acc ∙ append-glue "" (delta_text d.deltas) ∙ same in
    (rw (ends, whole) refl, filled, inl (ap (λ t. ok (trimmed k t)) (sym same ∙ sym yields)))
streamed-StreamsAs k d (throw e) ends =
    let (acc, yields, filled) = accumulate_lem "" d.deltas in (rw ends refl, filled, inr (e, refl))

ask_streaming-StreamsAs :
    (system : String) (opts : ChatOpts) (k : String) (compute : Compute) (input : Value)
    → IsCut compute
    → StreamsAs k (ask_streaming system opts k compute input) (ask system opts k compute input)
unfolding ask ask_streaming
ask_streaming-StreamsAs system opts k compute input cut = elim (Result-cases (text_input input)) [
  | inl (text, given) ↦
      let ms = messages system (some (str text)) in
      rw given (streamed-StreamsAs k (compute.stream ms opts) (compute.chat ms opts) (cut ms opts))
  | inr (e, failed) ↦ rw failed (refl, tt, inr (e, refl))
]

abbrev pub Streams : String → Compute → Value → RegisteredSkill → Type 0
Streams k compute input skill = elim skill.stream_handler [
  | none ↦ ⊥
  | some stream ↦ StreamsAs k (stream compute input) (skill.handler compute input)
]

-- Where the stream of the model is its answer in pieces, `SUMMARIZE` and every prompt skill have a
-- stream that returns what the handler returns on the same input, errors included; it yields no empty
-- text; and an output is the yielded texts in one, trimmed.
pub skills-StreamsAs :
    (compute : Compute) (i : PromptSkillInput) (input : Value)
    → IsCut compute
    → Streams "summary" compute input summarize × Streams "text" compute input (make_prompt_skill i)
unfolding summarize make_prompt_skill
skills-StreamsAs compute i input cut = (
  ask_streaming-StreamsAs summarize_prompt (tokens 120) "summary" compute input cut,
  ask_streaming-StreamsAs i.system_prompt (tokens i.max_tokens) "text" compute input cut,
)
