-- ===== src/Canonical/Reorder.antt =====
-- `canonicalJson` of packages/sdk/src/agent-card.ts does not depend on the order of properties.
use agentdir_open_agents.Base.{String, ◌≡◌, ◌≢◌, refl, ◌∙◌, List, [], ◌∷◌, arith}
use agentdir_open_agents.Js.Text.Order.{text_le_total, text_le_antisymm, text_le_trans}
use agentdir_open_agents.Js.Value.{Json, arr, obj, Items, nil, cons, Fields, end, field}
use agentdir_open_agents.Canonical.{canonical_json, item_texts, entries, insert_entry, sort_entries}

-- The same value up to the order of the properties of an object, at any depth.
mutual
  pub data SameJson : Json → Json → Type 0 where
    same : {v : Json} → SameJson v v
    same_arr : {xs ys : Items} → SameItems xs ys → SameJson (arr xs) (arr ys)
    same_obj : {fs gs : Fields} → SameFields fs gs → SameJson (obj fs) (obj gs)

  pub data SameItems : Items → Items → Type 0 where
    no_items : SameItems nil nil
    same_item :
        {v w : Json} {xs ys : Items}
        → SameJson v w
        → SameItems xs ys
        → SameItems (cons v xs) (cons w ys)

  pub data SameFields : Fields → Fields → Type 0 where
    no_fields : SameFields end end
    same_field :
        {k : String} {v w : Json} {fs gs : Fields}
        → SameJson v w
        → SameFields fs gs
        → SameFields (field k v fs) (field k w gs)
    swapped :
        {j k : String} {v w : Json} {fs : Fields}
        → j ≢ k
        → SameFields (field j v (field k w fs)) (field k w (field j v fs))
    followed : {fs gs hs : Fields} → SameFields fs gs → SameFields gs hs → SameFields fs hs

insert_entry_comm :
    (a b : String × String) (es : List (String × String))
    → a.0 ≢ b.0
    → insert_entry a (insert_entry b es) ≡ insert_entry b (insert_entry a es)
unfolding insert_entry
insert_entry_comm a b [] ne = ground (arith, text_le_total a.0 b.0, text_le_antisymm a.0 b.0)
insert_entry_comm a b (e ∷ es) ne = ground (
  arith,
  insert_entry_comm a b es ne,
  text_le_total a.0 b.0,
  text_le_antisymm a.0 b.0,
  text_le_trans a.0 b.0 e.0,
  text_le_trans b.0 a.0 e.0,
  text_le_total a.0 e.0,
  text_le_total b.0 e.0,
  text_le_trans a.0 e.0 b.0,
  text_le_trans b.0 e.0 a.0,
)

mutual
  unfolding canonical_json sort_entries

  SameJson-texts : {v w : Json} → SameJson v w → canonical_json v ≡ canonical_json w
  SameJson-texts same = refl
  SameJson-texts (same_arr h) = cc (SameItems-texts h)
  SameJson-texts (same_obj h) = cc (SameFields-texts h)

  SameItems-texts : {xs ys : Items} → SameItems xs ys → item_texts xs ≡ item_texts ys
  SameItems-texts no_items = refl
  SameItems-texts (same_item h hs) = cc (SameJson-texts h, SameItems-texts hs)

  SameFields-texts :
      {fs gs : Fields} → SameFields fs gs → sort_entries (entries fs) ≡ sort_entries (entries gs)
  SameFields-texts no_fields = refl
  SameFields-texts (same_field {k} h hs) = cc (SameJson-texts h, SameFields-texts hs)
  SameFields-texts (swapped {fs} ne) = insert_entry_comm _ _ (sort_entries (entries fs)) ne
  SameFields-texts (followed h k) = SameFields-texts h ∙ SameFields-texts k

-- Two values that differ only in the order of the properties of their objects, at any depth, have
-- the same canonical text, so a signature over one is a signature over the other.
pub canonical_json-SameJson : (v w : Json) → SameJson v w → canonical_json v ≡ canonical_json w
canonical_json-SameJson v w h = SameJson-texts h
