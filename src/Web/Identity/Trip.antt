-- ===== src/Web/Identity/Trip.antt =====
-- A key that Frontend/lib/identity-store.ts has saved is the key that it loads from then on.
use agentdir_open_agents.Base.{
  ℕ, String, true, false, Option, none, some, List, [], ◌∷◌, ◌==◌, ◌≡◌, refl, ◌∙◌, eq_refl, eqb,
  Bool-cases, Option-cases, inl, inr, length, arith,
}
use agentdir_open_agents.Js.Map
use agentdir_open_agents.Js.Text.{is_filled}
use agentdir_open_agents.Js.Result.{ok, Result-cases}
use agentdir_open_agents.Web.Identity.{Bytes, Env, SealedBlob, Cipher, load_kek, seal, open_blob}
use agentdir_open_agents.Web.Identity.Store.{
  AgentIdentity, IdentityDoc, World, SaveIdentityInput, find_active, filled, doc_of, is_taken,
  evict_cache, mark_booted, read_doc, load_identity, save_identity,
}
use agentdir_open_agents.Web.Identity.Cache.{
  Op, loads, saves, boots, evicts, or_later, find_active-append, fresh, Coherent, step, run,
  read_booted, step-Coherent, run-Coherent, load_identity-fresh,
}

-- Decryption gives back the text that was encrypted, under the key and the IV, and its tag has 16
-- bytes.
pub record IsCipher (cipher : Cipher) (text : String) : Type 0 where
  pub decrypts :
      (kek iv : Bytes)
      → let (ct, tag) = cipher.encrypt kek iv text in cipher.decrypt kek iv tag ct ≡ some text
  pub tag_length : (kek iv : Bytes) → length (cipher.encrypt kek iv text).1 ≡ 16

filled_twice : (o : Option String) → filled (filled o) ≡ filled o
filled_twice none = refl
filled_twice (some t) = elim (Bool-cases (is_filled t)) [
  | inl some_text ↦ rw (some_text, some_text) refl
  | inr empty ↦ rw empty refl
]

-- The identity that was saved.
abbrev pub identity_of : SaveIdentityInput → AgentIdentity
identity_of i = record {
  handle = i.handle;
  ens_name = i.ens;
  axl_private_key_hex = i.axl_private_key_hex;
  axl_pubkey_hex = i.axl_pubkey_hex;
  inft_contract = filled i.inft_contract;
  inft_token_id = filled i.inft_token_id;
}

untaken :
    (handle ens : String) (ds : List IdentityDoc)
    → is_taken handle ens ds ≡ false
    → find_active handle ds ≡ none
unfolding is_taken find_active
untaken handle ens [] h = refl
untaken handle ens (d ∷ ds) h = elim (Bool-cases (d.handle == handle)) [
  | inl own ↦ cc (rw own at h)
  | inr other ↦ elim (Bool-cases (d.ens == ens)) [
    | inl same_name ↦ cc (rw (other, same_name) at h)
    | inr other_name ↦ rw other (untaken handle ens ds (rw (other, other_name) at h))
  ]
]

module _ (cipher : Cipher) (env : Env) where
  eqb_self : (n : ℕ) → eqb n n ≡ true
  eqb_self n = ground arith

  open_blob-seal :
      (iv : Bytes) (text : String) (blob : SealedBlob)
      → IsCipher cipher text
      → length iv ≡ 12
      → seal cipher env iv text ≡ ok blob
      → open_blob cipher env blob ≡ ok text
  unfolding seal open_blob
  open_blob-seal iv text blob is_cipher twelve sealed = elim (Result-cases (load_kek env)) [
    | inr (e, failed) ↦ cc (rw failed at sealed)
    | inl (k, loaded) ↦
        let made : ok (record {
          ciphertext = (cipher.encrypt k.kek iv text).0;
          iv = iv;
          auth_tag = (cipher.encrypt k.kek iv text).1;
          kek_version = k.version;
        })
            ≡ ok blob =
          rw loaded at sealed in
        let same : record {
          ciphertext = (cipher.encrypt k.kek iv text).0;
          iv = iv;
          auth_tag = (cipher.encrypt k.kek iv text).1;
          kek_version = k.version;
        }
            ≡ blob =
          cc made in
        rw loaded (
          rw (← same) (
            rw
              (
                eqb_self k.version,
                twelve,
                is_cipher.tag_length k.kek iv,
                is_cipher.decrypts k.kek iv,
              )
              refl))
  ]

  read_saved :
      (i : SaveIdentityInput) (iv : Bytes) (now : ℕ) (blob : SealedBlob)
      → open_blob cipher env blob ≡ ok i.axl_private_key_hex
      → read_doc cipher env i.handle (some (doc_of i blob now)) ≡ ok (identity_of i)
  read_saved i iv now blob opens =
      rw (opens, filled_twice i.inft_contract, filled_twice i.inft_token_id) refl

  saved-fresh :
      (i : SaveIdentityInput) (iv : Bytes) (now : ℕ) (w : World)
      → IsCipher cipher i.axl_private_key_hex
      → length iv ≡ 12
      → (save_identity cipher env i iv now w).0 ≡ ok tt
      → fresh cipher env (save_identity cipher env i iv now w).1 i.handle ≡ ok (identity_of i)
  unfolding save_identity find_active
  saved-fresh i iv now w is_cipher twelve saved =
      elim (Result-cases (seal cipher env iv i.axl_private_key_hex)) [
        | inr (e, failed) ↦ cc (rw failed at saved)
        | inl (blob, sealed) ↦ elim (Bool-cases (is_taken i.handle i.ens w.identities)) [
          | inl taken ↦ cc (rw (sealed, taken) at saved)
          | inr free ↦
              let opens = open_blob-seal iv i.axl_private_key_hex blob is_cipher twelve sealed in
              rw (sealed, free)
                (rw
                  (
                    find_active-append i.handle w.identities (doc_of i blob now ∷ []),
                    untaken i.handle i.ens w.identities free,
                    eq_refl i.handle,
                  )
                  (read_saved i iv now blob opens))
        ]
      ]

  module _ (h : String) (id : AgentIdentity) where
    load-fresh :
        (k : String) (w : World)
        → fresh cipher env w h ≡ ok id
        → fresh cipher env (load_identity cipher env k w).1 h ≡ ok id
    unfolding load_identity
    load-fresh k w e = elim (Option-cases (Map.get k w.cache)) [
      | inr (found, there) ↦ rw there e
      | inl absent ↦ elim (Result-cases (fresh cipher env w k)) [
        | inl (found, read) ↦ rw (absent, read) e
        | inr (why, failed) ↦ rw (absent, failed) e
      ]
    ]

    found_first :
        (o later : Option IdentityDoc)
        → read_doc cipher env h o ≡ ok id
        → read_doc cipher env h (or_later o later) ≡ ok id
    found_first none later e = cc e
    found_first (some d) later e = e

    save-fresh :
        (i : SaveIdentityInput) (iv : Bytes) (now : ℕ) (w : World)
        → fresh cipher env w h ≡ ok id
        → fresh cipher env (save_identity cipher env i iv now w).1 h ≡ ok id
    unfolding save_identity
    save-fresh i iv now w e = elim (Result-cases (seal cipher env iv i.axl_private_key_hex)) [
      | inr (why, failed) ↦ rw failed e
      | inl (blob, sealed) ↦ elim (Bool-cases (is_taken i.handle i.ens w.identities)) [
        | inl taken ↦ rw (sealed, taken) e
        | inr free ↦
            rw (sealed, free)
              (rw (find_active-append h w.identities (doc_of i blob now ∷ [])) (
                found_first (find_active h w.identities) (find_active h (doc_of i blob now ∷ []))
                  e))
      ]
    ]

    evict-fresh :
        (o : Option String) (w : World)
        → fresh cipher env w h ≡ ok id
        → fresh cipher env (evict_cache o w) h ≡ ok id
    unfolding evict_cache
    evict-fresh none w e = e
    evict-fresh (some k) w e = e

    boot-fresh :
        (k : String) (now : ℕ) (w : World)
        → fresh cipher env w h ≡ ok id
        → fresh cipher env (mark_booted k now w) h ≡ ok id
    unfolding mark_booted
    boot-fresh k now w e = read_booted cipher env k now h w.identities ∙ e

    step-fresh :
        (op : Op) (w : World)
        → fresh cipher env w h ≡ ok id
        → fresh cipher env (step cipher env op w) h ≡ ok id
    unfolding step
    step-fresh (loads k) w e = load-fresh k w e
    step-fresh (saves i iv now) w e = save-fresh i iv now w e
    step-fresh (boots k now) w e = boot-fresh k now w e
    step-fresh (evicts o) w e = evict-fresh o w e

    run-fresh :
        (ops : List Op) (w : World)
        → fresh cipher env w h ≡ ok id
        → fresh cipher env (run cipher env ops w) h ≡ ok id
    unfolding run
    run-fresh [] w e = e
    run-fresh (op ∷ ops) w e = run-fresh ops (step cipher env op w) (step-fresh op w e)

  -- Where decryption gives back the private key that was encrypted and the random IV has 12 bytes: once an identity is
  -- saved without an error, in a process with a cache that agrees with its documents, `loadIdentity`
  -- of its handle returns it, with its private key, after any further loads, saves, evictions and
  -- marks of boots, those of the same handle included.
  pub save_identity-load_identity :
      (i : SaveIdentityInput) (iv : Bytes) (now : ℕ) (w : World) (ops : List Op)
      → Coherent cipher env w
      → IsCipher cipher i.axl_private_key_hex
      → length iv ≡ 12
      → (save_identity cipher env i iv now w).0 ≡ ok tt
      → (load_identity cipher env i.handle
          (run cipher env ops (save_identity cipher env i iv now w).1)).0
        ≡ ok (identity_of i)
  unfolding step
  save_identity-load_identity i iv now w ops c is_cipher twelve saved =
      let after = (save_identity cipher env i iv now w).1 in
      load_identity-fresh cipher env i.handle (run cipher env ops after)
        (run-Coherent cipher env ops after (step-Coherent cipher env (saves i iv now) w c))
      ∙ run-fresh i.handle (identity_of i) ops after (saved-fresh i iv now w is_cipher twelve saved)
