-- ===== src/Js/Text/Glue.antt =====
-- The native `++` of texts as a recursion, which computes at a literal before a variable.
use Prim.Native.String.{◌++◌}
use text.Mathlib.TextLemmas.{nil-append, cons-append}
use agentdir_open_agents.Base.{String, ◌≡◌, refl, ap, ◌∙◌}

abbrev pub glue : String → String → String
glue String.[] t = t
glue (String.◌∷◌ c s) t = String.◌∷◌ c (glue s t)

pub append-glue : (s t : String) → s ++ t ≡ glue s t
append-glue String.[] t = nil-append t
append-glue (String.◌∷◌ c s) t = cons-append c s t ∙ ap (String.◌∷◌ c) (append-glue s t)

pub glue-nil : (s : String) → glue s "" ≡ s
glue-nil String.[] = refl
glue-nil (String.◌∷◌ c s) = ap (String.◌∷◌ c) (glue-nil s)

pub glue_assoc : (s t u : String) → glue (glue s t) u ≡ glue s (glue t u)
glue_assoc String.[] t u = refl
glue_assoc (String.◌∷◌ c s) t u = ap (String.◌∷◌ c) (glue_assoc s t u)
