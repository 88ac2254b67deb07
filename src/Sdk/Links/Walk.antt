-- ===== src/Sdk/Links/Walk.antt =====
-- What calls of `append` on a chain of Sdk.Links store, a walk reads back.
use agentdir_open_agents.Base.{
  ℕ, zero, suc, ◌≡◌, refl, Bool, true, false, Option, none, some, List, [], ◌∷◌, String, take,
}
use agentdir_open_agents.Js.Value.{Json}
use agentdir_open_agents.Js.Text.{is_filled}
use agentdir_open_agents.Js.Result.{Result, ok, throw, read, head_json}
use agentdir_open_agents.Sdk.Storage.{Storage, IsFaithful}
use agentdir_open_agents.Sdk.Links.{StoreChain, new_chain, Done, stored, after, walk_from}

abbrev pub All : (Json → Type 0) → List Json → Type 0
All P [] = Unit
All P (a ∷ atts) = P a × All P atts

trusted : (atts : List Json) → All (λ a. false ≡ false) atts
trusted [] = tt
trusted (a ∷ atts) = (refl, trusted atts)

module _ (S : Storage) (link : String) where
  -- From the head, each root leads to the next value of the list, and the last one to null.
  abbrev pub Linked : S.Store → Option String → List Json → Type 0
  Linked s none [] = Unit
  Linked s none (a ∷ atts) = ⊥
  Linked s (some root) [] = ⊥
  Linked s (some root) (a ∷ atts) =
      (prev : Option String) × (is_filled root ≡ true)
      × (S.get_json root s ≡ ok a)
      × (read link (some a) ≡ ok (some (head_json prev)))
      × Linked s prev atts

  -- On a chain that is linked, a walk returns its values, newest first, up to the limit, if none of
  -- them is rejected.
  pub walk_from-Linked :
      (rejects : Json → Bool) (n : ℕ) (head : Option String) (s : S.Store) (atts : List Json)
      → Linked s head atts
      → All (λ a. rejects a ≡ false) atts
      → walk_from S link rejects n (some (head_json head)) s ≡ ok (take n atts)
  unfolding walk_from
  walk_from-Linked rejects zero head s atts h g = refl
  walk_from-Linked rejects (suc n) none s [] h g = refl
  walk_from-Linked rejects (suc n) none s (a ∷ atts) h g = absurd h
  walk_from-Linked rejects (suc n) (some root) s [] h g = absurd h
  walk_from-Linked rejects (suc n) (some root) s (a ∷ atts) (prev, filled, here, link, rest) g =
      rw (filled, here, g.0, link, walk_from-Linked rejects n prev s atts rest g.1)

  module _ (faithful : IsFaithful S) where
    Linked-put :
        (v : Json) (s : S.Store) (head : Option String) (atts : List Json)
        → Linked s head atts
        → Linked (S.put_json v s).1 head atts
    Linked-put v s none [] h = tt
    Linked-put v s none (a ∷ atts) h = absurd h
    Linked-put v s (some root) [] h = absurd h
    Linked-put v s (some root) (a ∷ atts) (prev, filled, here, linked, rest) =
        (prev, filled, faithful.kept v a s root here, linked, Linked-put v s prev atts rest)

    -- What a call of `append` leaves: a returned value is the new start of the chain, and a call
    -- that throws leaves the chain as it was.
    abbrev pub Grown :
        Result (String × Json) → StoreChain → StoreChain → S.Store → List Json → Type 0
    Grown (ok (root, att)) c c' s' atts = (c'.head ≡ some root) × Linked s' c'.head (att ∷ atts)
    Grown (throw e) c c' s' atts = (c'.head ≡ c.head) × Linked s' c'.head atts

    pub stored-Grown :
        (att : Json) (c : StoreChain) (s : S.Store) (atts : List Json) (r : Result String)
        → (S.put_json att s).0 ≡ r
        → read link (some att) ≡ ok (some (head_json c.head))
        → Linked s c.head atts
        → let (done, c', s') = stored S att c (r, (S.put_json att s).1) in Grown done c c' s' atts
    unfolding stored
    stored-Grown att c s atts (ok root) e l h =
        let (here, filled) = faithful.stored att s root e in
        (refl, (c.head, filled, here, l, Linked-put att s c.head atts h))
    stored-Grown att c s atts (throw m) e l h = (refl, Linked-put att s c.head atts h)

    pub after-Grown :
        (lock : Option String) (run : Done S) (c : StoreChain) (s : S.Store) (atts : List Json)
        → Linked s c.head atts
        → Grown run.0 c run.1 run.2 atts
        → let (done, c', s') = after S lock run c s in Grown done c c' s' atts
    after-Grown none run c s atts h g = g
    after-Grown (some e) run c s atts h g = (refl, h)

-- The values that calls returned, newest first.
abbrev note : Result (String × Json) → List Json → List Json
note (ok (root, att)) atts = att ∷ atts
note (throw e) atts = atts

module _ {A : Type 0} (S : Storage) (append : A → StoreChain → S.Store → Done S) where
  -- Calls of `append` one after another.
  unfoldable pub append_all :
      List A → StoreChain → S.Store → List Json → StoreChain × S.Store × List Json
  append_all [] c s atts = (c, s, atts)
  append_all (i ∷ calls) c s atts =
      let (done, c', s') = append i c s in append_all calls c' s' (note done atts)

  module _ (link : String) (faithful : IsFaithful S)
      (grows : (i : A) (c : StoreChain) (s : S.Store) (atts : List Json)
        → Linked S link s c.head atts
        → let (done, c', s') = append i c s in Grown S link faithful done c c' s' atts) where
    Grown-Linked :
        (done : Result (String × Json)) (c c' : StoreChain) (s' : S.Store) (atts : List Json)
        → Grown S link faithful done c c' s' atts
        → Linked S link s' c'.head (note done atts)
    Grown-Linked (ok (root, att)) c c' s' atts g = g.1
    Grown-Linked (throw e) c c' s' atts g = g.1

    append_all-Linked :
        (calls : List A) (c : StoreChain) (s : S.Store) (atts : List Json)
        → Linked S link s c.head atts
        → let (c', s', atts') = append_all calls c s atts in Linked S link s' c'.head atts'
    unfolding append_all
    append_all-Linked [] c s atts h = h
    append_all-Linked (i ∷ calls) c s atts h =
        let (done, c', s') = append i c s in
        append_all-Linked calls c' s' (note done atts)
          (Grown-Linked done c c' s' atts (grows i c s atts h))

    pub walk_from-append_all :
        (calls : List A) (s : S.Store) (root : String) (limit : ℕ)
        → let (c', s', atts) = append_all calls (new_chain none) s [] in
          c'.head ≡ some root
          → walk_from S link (λ v. false) limit (some (head_json (some root))) s'
            ≡ ok (take limit atts)
    walk_from-append_all calls s root limit =
        let (c', s', atts) = append_all calls (new_chain none) s [] in
        let linked : Linked S link s' c'.head atts =
          append_all-Linked calls (new_chain none) s [] tt in
        λ e.
          walk_from-Linked S link (λ v. false) limit (some root) s' atts (rw e at linked)
            (trusted atts)
