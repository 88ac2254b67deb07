-- ===== src/Agent/Skills/Registry.antt =====
-- The registry of packages/agent/src/skills.ts: the last skill that is added under an id counts.
use agentdir_open_agents.Base.{
  String, false, Option, none, some, List, [], ◌∷◌, ◌≡◌, refl, sym, ◌∙◌, ◌==◌, eq_iff, Bool-cases,
  Option-cases, inl, inr, if◌then◌else◌, arith,
}
use agentdir_open_agents.Js.Map
use agentdir_open_agents.Js.Map.{IsMap, Fresh, get-set, set-IsMap}
use agentdir_open_agents.Agent.Skills.{Skill, RegisteredSkill, SkillRegistry, add, get, list}

-- The skills added in turn, as `new SkillRegistry().add(a).add(b)` does.
unfoldable pub add_all : List RegisteredSkill → SkillRegistry → SkillRegistry
add_all [] m = m
add_all (s ∷ ss) m = add_all ss (add s m)

-- The last skill of the list with the id.
abbrev pub last_with : String → List RegisteredSkill → Option RegisteredSkill
last_with id [] = none
last_with id (s ∷ ss) = elim (last_with id ss) [
  | some later ↦ some later
  | none ↦ if s.def.id == id then some s else none
]

abbrev pub or_before : Option RegisteredSkill → Option RegisteredSkill → Option RegisteredSkill
or_before none before = before
or_before (some s) before = some s

add_all-get_from :
    (id : String) (ss : List RegisteredSkill) (m : SkillRegistry)
    → get id (add_all ss m) ≡ or_before (last_with id ss) (get id m)
unfolding get add add_all
add_all-get_from id [] m = refl
add_all-get_from id (s ∷ ss) m = elim (Option-cases (last_with id ss)) [
  | inr (later, there) ↦ rw there (rw there at (add_all-get_from id ss (add s m)))
  | inl absent ↦
      let rest = rw (absent, get-set s.def.id id s m) at (add_all-get_from id ss (add s m)) in
      elim (Bool-cases (s.def.id == id)) [
        | inl own ↦ rw (absent, own) (rw own at rest)
        | inr other ↦ rw (absent, other) (rw other at rest)
      ]
]

-- Every skill stands under its own id.
abbrev Keyed : SkillRegistry → Type 0
Keyed [] = Unit
Keyed ((k, s) ∷ m) = (s.def.id ≡ k) × Keyed m

set-Keyed :
    (k : String) (s : RegisteredSkill) (m : SkillRegistry)
    → s.def.id ≡ k
    → Keyed m
    → Keyed (Map.set k s m)
unfolding Map.set
set-Keyed k s [] own h = (own, tt)
set-Keyed k s ((j, t) ∷ m) own (first, h) = elim (Bool-cases (j == k)) [
  | inl same ↦ rw same (own ∙ sym ((eq_iff j k).0 same), h)
  | inr other ↦ rw other (first, set-Keyed k s m own h)
]

-- No skill of the list has the id.
abbrev pub Unused : String → List Skill → Type 0
Unused id [] = Unit
Unused id (s ∷ ss) = ((id == s.id) ≡ false) × Unused id ss

abbrev pub AreApart : List Skill → Type 0
AreApart [] = Unit
AreApart (s ∷ ss) = Unused s.id ss × AreApart ss

Fresh-Unused : (k : String) (m : SkillRegistry) → Fresh k m → Keyed m → Unused k (list m)
unfolding list
Fresh-Unused k [] f h = tt
Fresh-Unused k ((j, s) ∷ m) (apart, f) (own, h) =
    (ground (arith, eq_iff k s.def.id, eq_iff j k), Fresh-Unused k m f h)

list-AreApart : (m : SkillRegistry) → IsMap m → Keyed m → AreApart (list m)
unfolding list
list-AreApart [] u h = tt
list-AreApart ((k, s) ∷ m) (f, u) (own, h) = (rw own (Fresh-Unused k m f h), list-AreApart m u h)

add_all-AreApart :
    (ss : List RegisteredSkill) (m : SkillRegistry)
    → IsMap m
    → Keyed m
    → AreApart (list (add_all ss m))
unfolding add_all add
add_all-AreApart [] m u h = list-AreApart m u h
add_all-AreApart (s ∷ ss) m u h =
    add_all-AreApart ss (Map.set s.def.id s m) (set-IsMap s.def.id s m u)
      (set-Keyed s.def.id s m refl h)

-- Of a registry to which skills are added in turn, `get` gives the last one that was added with the
-- id, whatever else was added, and `list` has no id twice.
pub add_all-get :
    (ss : List RegisteredSkill) (id : String)
    → (get id (add_all ss []) ≡ last_with id ss) × AreApart (list (add_all ss []))
unfolding get Map.get
add_all-get ss id = (
  elim (Option-cases (last_with id ss)) [
    | inl absent ↦ rw absent (rw absent at (add_all-get_from id ss []))
    | inr (s, there) ↦ rw there (rw there at (add_all-get_from id ss []))
  ],
  add_all-AreApart ss [] tt tt,
)
