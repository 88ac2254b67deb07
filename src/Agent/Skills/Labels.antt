-- ===== src/Agent/Skills/Labels.antt =====
-- The labels of the sentiment skill of packages/agent/src/skills.ts.
use agentdir_open_agents.Base.{
  String, Option, none, some, [], ◌∷◌, ◌≡◌, refl, ◌⊎◌, inl, inr, ◌==◌, eq_iff, Bool-cases,
}
use agentdir_open_agents.Js.Text.Parts.{trim}
use agentdir_open_agents.Js.Value.{str, Value, object}
use agentdir_open_agents.Js.Result.{Result, ok, throw, ◌>>=◌, read, Result-cases}
use agentdir_open_agents.Agent.Skills.{
  Deltas, Compute, RegisteredSkill, messages, accumulate, returned_or, streamed, tokens,
  label_letters, label_or_neutral, label_of, sentiment_handler, sentiment_streaming, sentiment,
  sentiment_prompt,
}

-- One of the three labels of the output schema.
abbrev pub IsLabel : String → Type 0
IsLabel t = (t ≡ "positive") ⊎ (t ≡ "neutral") ⊎ (t ≡ "negative")

-- An output `{ label }` with one of the three, or an error.
abbrev pub Labels : Result Value → Type 0
Labels (ok v) = (t : String) × (v ≡ some (object (("label", some (str t)) ∷ []))) × IsLabel t
Labels (throw e) = Unit

label_or_neutral-IsLabel : (t : String) → IsLabel (label_or_neutral t)
label_or_neutral-IsLabel t = elim (Bool-cases (t == "positive")) [
  | inl positive ↦ rw positive (inl ((eq_iff t "positive").0 positive))
  | inr other ↦ elim (Bool-cases (t == "neutral")) [
    | inl neutral ↦ rw (other, neutral) (inr (inl ((eq_iff t "neutral").0 neutral)))
    | inr third ↦ elim (Bool-cases (t == "negative")) [
      | inl negative ↦ rw (other, third, negative) (inr (inr ((eq_iff t "negative").0 negative)))
      | inr none_of ↦ rw (other, third, none_of) (inr (inl refl))
    ]
  ]
]

label_of-Labels : (out : String) → Labels (ok (label_of out))
unfolding label_of
label_of-Labels out =
    let letters = label_letters (trim out) in
    (label_or_neutral letters, refl, label_or_neutral-IsLabel letters)

answered-Labels : (answer : Result String) → Labels (answer >>= λ out. ok (label_of out))
answered-Labels (ok out) = label_of-Labels out
answered-Labels (throw e) = tt

streamed-Labels : (d : Deltas) → Labels (streamed d label_of).returned
streamed-Labels d = go d.thrown
  where
    go : (o : Option String) → Labels (returned_or o (label_of (accumulate "" d.deltas).0))
    go none = label_of-Labels _
    go (some e) = tt

sentiment_handler-Labels :
    (compute : Compute) (input : Value) → Labels (sentiment_handler compute input)
unfolding sentiment_handler
sentiment_handler-Labels compute input = elim (Result-cases (read "text" input)) [
  | inl (text, given) ↦ rw given (answered-Labels (compute.chat (messages sentiment_prompt text) _))
  | inr (e, failed) ↦ rw failed tt
]

sentiment_streaming-Labels :
    (compute : Compute) (input : Value) → Labels (sentiment_streaming compute input).returned
unfolding sentiment_streaming
sentiment_streaming-Labels compute input = elim (Result-cases (read "text" input)) [
  | inl (text, given) ↦
      rw given (streamed-Labels (compute.stream (messages sentiment_prompt text) (tokens 6)))
  | inr (e, failed) ↦ rw failed tt
]

-- The handler of a skill and its stream give labels.
abbrev pub GivesLabels : Compute → Value → RegisteredSkill → Type 0
GivesLabels compute input skill =
    Labels (skill.handler compute input) × elim skill.stream_handler as (λ _. Type 0) [
      | none ↦ ⊥
      | some stream ↦ Labels (stream compute input).returned
    ]

-- Whatever the model answers, the handler of `SENTIMENT` and its stream give one of the labels
-- positive, neutral and negative, or an error.
pub sentiment-Labels : (compute : Compute) (input : Value) → GivesLabels compute input sentiment
unfolding sentiment
sentiment-Labels compute input =
    (sentiment_handler-Labels compute input, sentiment_streaming-Labels compute input)
