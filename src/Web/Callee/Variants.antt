-- ===== src/Web/Callee/Variants.antt =====
-- Boots and evictions of Frontend/lib/call-server.ts, one after another: no agent is left running
-- without its runtime, and no name has both variants.

use Prim.Native.Char.{code}
use agentdir_open_agents.Base.{
  String, Bool, true, false, ◌||◌, none, ◌==◌, ◌≡◌, refl, sym, ap, ◌∙◌, ◌⊎◌, inl, inr, eqb, eq_iff,
  Bool-cases, Option-cases,
}
use agentdir_open_agents.Js.Map
use agentdir_open_agents.Js.Map.{Map, IsMap, get-set, get-delete, set-IsMap, delete-IsMap}
use agentdir_open_agents.Js.Text.Glue.{glue, append-glue}
use agentdir_open_agents.Web.Callee.{CalleeRuntime, World, tee_key, stop_key}
use agentdir_open_agents.Web.Callee.Tracked.{agents, Rising, without-Rising, agents-delete}

unfoldable pub has_colon : String → Bool
has_colon String.[] = false
has_colon (String.◌∷◌ c s) = eqb (code c) b':' || has_colon s

glued_colon : (e : String) → has_colon (glue e ":tee") ≡ true
unfolding has_colon
glued_colon String.[] = refl
glued_colon (String.◌∷◌ c s) = elim (Bool-cases (eqb (code c) b':')) [
  | inl here ↦ rw here refl
  | inr other ↦ rw other (glued_colon s)
]

pub tee_key_apart : (e f : String) → has_colon e ≡ false → (tee_key f == e) ≡ false
tee_key_apart e f plain = elim (Bool-cases (tee_key f == e)) [
  | inr apart ↦ apart
  | inl same ↦
      let colon : has_colon (tee_key f) ≡ true = rw (append-glue f ":tee") (glued_colon f) in
      cc (sym plain ∙ ap has_colon (sym ((eq_iff (tee_key f) e).0 same)) ∙ colon)
]

pub plain_apart : (e f : String) → has_colon e ≡ false → (e == tee_key f) ≡ false
plain_apart e f plain = elim (Bool-cases (e == tee_key f)) [
  | inr apart ↦ apart
  | inl same ↦
      let back = (eq_iff (tee_key f) e).1 (sym ((eq_iff e (tee_key f)).0 same)) in
      cc (sym back ∙ tee_key_apart e f plain)
]

-- At most one variant of a name is there.
abbrev pub OneVariant : Map CalleeRuntime → String → Type 0
OneVariant m ens = (Map.get ens m ≡ none) ⊎ (Map.get (tee_key ens) m ≡ none)

pub record IsTracked (w : World) : Type 0 where
  pub is_map : IsMap w.runtimes
  pub tracked : w.running ≡ agents w.runtimes
  pub rising : Rising 0 w.started (agents w.runtimes)
  pub one : (ens : String) → has_colon ens ≡ false → OneVariant w.runtimes ens

still_none :
    (k j : String) (m : Map CalleeRuntime)
    → IsMap m
    → Map.get j m ≡ none
    → Map.get j (Map.delete k m) ≡ none
still_none k j m u absent = elim (Bool-cases (k == j)) [
  | inl own ↦ rw (get-delete k j m u, own) refl
  | inr other ↦ rw (get-delete k j m u, other) absent
]

pub stop_key-IsTracked : (k : String) (w : World) → IsTracked w → IsTracked (stop_key k w)
unfolding stop_key
stop_key-IsTracked k w t = elim (Option-cases (Map.get k w.runtimes)) [
  | inl absent ↦ rw absent t
  | inr (rt, there) ↦
      let fewer = agents-delete k rt w.runtimes 0 w.started there t.rising in
      rw there (record {
        is_map = delete-IsMap k w.runtimes t.is_map;
        tracked = rw (fewer, t.tracked) refl;
        rising = rw fewer (without-Rising rt.agent 0 w.started (agents w.runtimes) t.rising);
        one = λ ens plain. elim (t.one ens plain) [
          | inl absent ↦ inl (still_none k ens w.runtimes t.is_map absent)
          | inr absent ↦ inr (still_none k (tee_key ens) w.runtimes t.is_map absent)
        ];
      })
]

pub stop_key-none :
    (k : String) (w : World) → IsMap w.runtimes → Map.get k (stop_key k w).runtimes ≡ none
unfolding stop_key
stop_key-none k w u = elim (Option-cases (Map.get k w.runtimes)) [
  | inl absent ↦ rw (absent, absent) refl
  | inr (rt, there) ↦ rw (there, get-delete k k w.runtimes u, (eq_iff k k).1 refl) refl
]

pub stop_key-still :
    (k j : String) (w : World)
    → IsMap w.runtimes
    → Map.get j w.runtimes ≡ none
    → Map.get j (stop_key k w).runtimes ≡ none
unfolding stop_key
stop_key-still k j w u absent = elim (Option-cases (Map.get k w.runtimes)) [
  | inl no_key ↦ rw no_key absent
  | inr (rt, there) ↦ rw there (still_none k j w.runtimes u absent)
]
