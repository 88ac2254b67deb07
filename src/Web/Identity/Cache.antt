-- ===== src/Web/Identity/Cache.antt =====
-- The cache of Frontend/lib/identity-store.ts against the collection.
use agentdir_open_agents.Base.{
  ℕ, String, false, ◌&&◌, Option, none, some, List, [], ◌∷◌, ◌++◌, ◌==◌, ◌≡◌, refl, sym, ap, ◌∙◌,
  eq_iff, Bool-cases, Option-cases, inl, inr,
}
use agentdir_open_agents.Js.Map
use agentdir_open_agents.Js.Map.{IsMap, get-set, get-delete, set-IsMap, delete-IsMap}
use agentdir_open_agents.Js.Text.{is_filled}
use agentdir_open_agents.Js.Result.{Result, ok, Result-cases}
use agentdir_open_agents.Web.Identity.{Bytes, Env, Cipher, seal, open_blob}
use agentdir_open_agents.Web.Identity.Store.{
  AgentIdentity, IdentityDoc, World, SaveIdentityInput, evict_cache, find_active, doc_of, is_taken,
  booted, mark_booted, opened_doc, read_doc, load_identity, save_identity,
}

pub data Op : Type 0 where
  loads : String → Op
  saves : SaveIdentityInput → Bytes → ℕ → Op
  boots : String → ℕ → Op
  evicts : Option String → Op

abbrev pub or_later : Option IdentityDoc → Option IdentityDoc → Option IdentityDoc
or_later none later = later
or_later (some d) later = some d

pub find_active-append :
    (h : String) (ds es : List IdentityDoc)
    → find_active h (ds ++ es) ≡ or_later (find_active h ds) (find_active h es)
unfolding find_active
find_active-append h [] es = refl
find_active-append h (d ∷ ds) es = elim (Bool-cases (d.handle == h && d.is_active)) [
  | inl here ↦ rw here refl
  | inr other ↦ rw other (find_active-append h ds es)
]

module _ (cipher : Cipher) (env : Env) where
  -- What a read of the collection gives.
  abbrev pub fresh : World → String → Result AgentIdentity
  fresh w h = read_doc cipher env h (find_active h w.identities)

  -- A map, and every identity in it is what a read gives.
  pub record Coherent (w : World) : Type 0 where
    pub is_map : IsMap w.cache
    pub same : (h : String) (id : AgentIdentity) → Map.get h w.cache ≡ some id → fresh w h ≡ ok id

  unfoldable pub step : Op → World → World
  step (loads h) w = (load_identity cipher env h w).1
  step (saves i iv now) w = (save_identity cipher env i iv now w).1
  step (boots h now) w = mark_booted h now w
  step (evicts h) w = evict_cache h w

  unfoldable pub run : List Op → World → World
  unfolding step
  run [] w = w
  run (op ∷ ops) w = run ops (step op w)

  pub load_identity-fresh :
      (h : String) (w : World) → Coherent w → (load_identity cipher env h w).0 ≡ fresh w h
  unfolding load_identity
  load_identity-fresh h w c = elim (Option-cases (Map.get h w.cache)) [
    | inr (id, there) ↦ rw there (sym (c.same h id there))
    | inl absent ↦ elim (Result-cases (fresh w h)) [
      | inl (id, read) ↦ rw (absent, read) refl
      | inr (e, failed) ↦ rw (absent, failed) refl
    ]
  ]

  cached-Coherent :
      (h : String) (id : AgentIdentity) (w : World)
      → Coherent w
      → fresh w h ≡ ok id
      → Coherent (record w { cache = Map.set h id w.cache })
  cached-Coherent h id w c read = record {
    is_map = set-IsMap h id w.cache c.is_map;
    same = λ j found there. elim (Bool-cases (h == j)) [
      | inl own ↦
          let same : some id ≡ some found = rw (get-set h j id w.cache, own) at there in
          rw (← (eq_iff h j).0 own) (read ∙ ap ok (cc same))
      | inr other ↦ c.same j found (rw (get-set h j id w.cache, other) at there)
    ];
  }

  load-Coherent : (h : String) (w : World) → Coherent w → Coherent (load_identity cipher env h w).1
  unfolding load_identity
  load-Coherent h w c = elim (Option-cases (Map.get h w.cache)) [
    | inr (id, there) ↦ rw there c
    | inl absent ↦ elim (Result-cases (fresh w h)) [
      | inl (id, read) ↦ rw (absent, read) (cached-Coherent h id w c read)
      | inr (e, failed) ↦ rw (absent, failed) c
    ]
  ]

  unmatched :
      (d : IdentityDoc) (h : String) → (d.handle == h) ≡ false → find_active h (d ∷ []) ≡ none
  unfolding find_active
  unmatched d h other = rw other refl

  pub kept :
      (h : String) {id : AgentIdentity} (o : Option IdentityDoc)
      → read_doc cipher env h o ≡ ok id
      → read_doc cipher env h (or_later o none) ≡ ok id
  kept h none e = e
  kept h (some d) e = e

  -- A document that is added after the others, under a handle that none of them has, with the cache
  -- of the handle dropped.
  added-Coherent :
      (doc : IdentityDoc) (w : World)
      → Coherent w
      → Coherent
          (record { identities = w.identities ++ doc ∷ []; cache = Map.delete doc.handle w.cache })
  added-Coherent doc w c = record {
    is_map = delete-IsMap doc.handle w.cache c.is_map;
    same = λ h id there. elim (Bool-cases (doc.handle == h)) [
      | inl own ↦
          let gone : none ≡ some id = rw (get-delete doc.handle h w.cache c.is_map, own) at there in
          cc gone
      | inr other ↦
          let found : Map.get h w.cache ≡ some id =
            rw (get-delete doc.handle h w.cache c.is_map, other) at there in
          let still : find_active h (doc ∷ []) ≡ none = unmatched doc h other in
          rw (find_active-append h w.identities (doc ∷ []), still)
            (kept h (find_active h w.identities) (c.same h id found))
    ];
  }

  save-Coherent :
      (i : SaveIdentityInput) (iv : Bytes) (now : ℕ) (w : World)
      → Coherent w
      → Coherent (save_identity cipher env i iv now w).1
  unfolding save_identity
  save-Coherent i iv now w c = elim (Result-cases (seal cipher env iv i.axl_private_key_hex)) [
    | inr (e, failed) ↦ rw failed c
    | inl (blob, sealed) ↦ elim (Bool-cases (is_taken i.handle i.ens w.identities)) [
      | inl taken ↦ rw (sealed, taken) c
      | inr free ↦ rw (sealed, free) (added-Coherent (doc_of i blob now) w c)
    ]
  ]

  same_doc :
      (d : IdentityDoc) (at : Option ℕ)
      → opened_doc cipher env
          (record d { last_booted_at = at })
          (open_blob cipher env d.encrypted_privkey)
        ≡ opened_doc cipher env d (open_blob cipher env d.encrypted_privkey)
  same_doc d at = elim (Result-cases (open_blob cipher env d.encrypted_privkey)) [
    | inl (key, opens) ↦ rw opens refl
    | inr (e, failed) ↦ rw failed refl
  ]

  pub read_booted :
      (k : String) (now : ℕ) (h : String) (ds : List IdentityDoc)
      → read_doc cipher env h (find_active h (booted k now ds))
        ≡ read_doc cipher env h (find_active h ds)
  unfolding find_active
  read_booted k now h [] = refl
  read_booted k now h (d ∷ ds) = elim (Bool-cases (d.handle == k)) [
    | inl own ↦ elim (Bool-cases (d.handle == h && d.is_active)) [
      | inl here ↦ rw (own, here) (same_doc d (some now))
      | inr other ↦ rw (own, other) refl
    ]
    | inr later ↦ elim (Bool-cases (d.handle == h && d.is_active)) [
      | inl here ↦ rw (later, here) refl
      | inr other ↦ rw (later, other) (read_booted k now h ds)
    ]
  ]

  boot-Coherent : (k : String) (now : ℕ) (w : World) → Coherent w → Coherent (mark_booted k now w)
  unfolding mark_booted
  boot-Coherent k now w c = record {
    is_map = c.is_map;
    same = λ h id there. read_booted k now h w.identities ∙ c.same h id there;
  }

  pub cleared-Coherent : (w : World) → Coherent (record w { cache = [] })
  unfolding Map.get
  cleared-Coherent w = record { is_map = tt; same = λ h id there. cc there }

  evict-Coherent : (o : Option String) (w : World) → Coherent w → Coherent (evict_cache o w)
  unfolding evict_cache
  evict-Coherent none w c = cleared-Coherent w
  evict-Coherent (some k) w c = elim (Bool-cases (is_filled k)) [
    | inr empty ↦ rw empty (cleared-Coherent w)
    | inl some_handle ↦ rw some_handle (record {
      is_map = delete-IsMap k w.cache c.is_map;
      same = λ h id there. elim (Bool-cases (k == h)) [
        | inl own ↦
            let gone : none ≡ some id = rw (get-delete k h w.cache c.is_map, own) at there in
            cc gone
        | inr other ↦ c.same h id (rw (get-delete k h w.cache c.is_map, other) at there)
      ];
    })
  ]

  pub step-Coherent : (op : Op) (w : World) → Coherent w → Coherent (step op w)
  unfolding step
  step-Coherent (loads h) w c = load-Coherent h w c
  step-Coherent (saves i iv now) w c = save-Coherent i iv now w c
  step-Coherent (boots h now) w c = boot-Coherent h now w c
  step-Coherent (evicts h) w c = evict-Coherent h w c

  pub run-Coherent : (ops : List Op) (w : World) → Coherent w → Coherent (run ops w)
  unfolding run
  run-Coherent [] w c = c
  run-Coherent (op ∷ ops) w c = run-Coherent ops (step op w) (step-Coherent op w c)

  -- Whatever documents there are when the process starts, after any loads, saves, evictions and marks
  -- of boots `loadIdentity` gives what a read of the collection without the cache gives: the cache is
  -- never stale.
  pub run-load_identity :
      (ds : List IdentityDoc) (ops : List Op) (h : String)
      → let w = run ops (record { identities = ds; cache = [] }) in
        (load_identity cipher env h w).0 ≡ fresh w h
  run-load_identity ds ops h =
      let start : World = record { identities = ds; cache = [] } in
      load_identity-fresh h (run ops start) (run-Coherent ops start (cleared-Coherent start))
