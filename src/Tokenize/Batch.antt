-- ===== src/Tokenize/Batch.antt =====
-- tokenize_service.go, the batches: each item by itself.
use grpc_vault_ha.Prelude.{
  ℕ, ◌≡◌, ◌≢◌, refl, sym, ap, subst, ◌∙◌, none, some, List, [], arith, Result, ok, err, panic,
  ◌>>=◌, length, get_elem?, replicate,
}
use grpc_vault_ha.Prelude.Int.{ℤ, pos}
use grpc_vault_ha.Prelude.Text.{Text, text_eq}
use grpc_vault_ha.Cache.Lru.{LruList}
use grpc_vault_ha.Crypto.Pool.{
  run_tasks_lem, Schedule, Schedule-all, length-replicate, get_elem?-lt, get_elem?-map,
}
use grpc_vault_ha.Fpe
use grpc_vault_ha.Fpe.{Ff1, Cipher}
use grpc_vault_ha.Tokenize.Keys.{Error, KeyInfo, LockClient, TokenizeService, encryption_failed}
use grpc_vault_ha.Tokenize.{
  FpeBatchItem, FpeResult, wrap, or_failed, item_result, no_result, get_key, new_cipher,
  encrypt_value, batch_item, batch_task, batch_with, encrypt_with, fpe_encrypt, fpe_encrypt_batch,
}
use grpc_vault_ha.Tokenize.Custom.{get_alphabet}

-- The results of a single call and of the batch agree, up to the kind of the error.
abbrev pub Agrees : Text → Result Error (Text × ℤ) → FpeResult → Type 0
Agrees reference (ok (t, v)) r =
    r ≡ record { value = t; key_version = v; reference = reference; error = none }
Agrees reference (err e) r = (r.value ≡ []) × (r.reference ≡ reference) × (r.error ≢ none)
Agrees reference panic r = Unit

module _ (ff1 : Ff1) (lru : LruList Text KeyInfo) where
  sealed-Agrees :
      (info : KeyInfo) (reference : Text) (r : Result Fpe.Error Text)
      → Agrees reference
          (or_failed encryption_failed r >>= λ t. ok (t, info.version))
          (item_result info.version reference (wrap r))
  sealed-Agrees info reference (ok t) = refl
  sealed-Agrees info reference (err e) = (refl, refl, λ h. cc)
  sealed-Agrees info reference panic = tt

  item-Agrees :
      (info : KeyInfo) (item : FpeBatchItem) (c : Result Error (Cipher ff1))
      → Agrees item.reference
          (c >>= λ cipher.
            or_failed encryption_failed (encrypt_value ff1 cipher item.value item.tweak) >>= λ t.
            ok (t, info.version))
          (batch_item ff1 (encrypt_value ff1) info.version item c)
  unfolding batch_item
  item-Agrees info item (ok cipher) =
      sealed-Agrees info item.reference (encrypt_value ff1 cipher item.value item.tweak)
  item-Agrees info item (err e) = (refl, refl, λ h. cc)
  item-Agrees info item panic = tt

  -- `FPEEncrypt` once the key and the alphabet are known.
  single : FpeBatchItem → KeyInfo × Text → Result Error (Text × ℤ)
  single item (info, alphabet) = new_cipher ff1 info alphabet >>= λ cipher.
      or_failed encryption_failed (encrypt_value ff1 cipher item.value item.tweak) >>= λ t.
      ok (t, info.version)

  batch_task-item :
      (info : KeyInfo) (alphabet : Text) (items : List FpeBatchItem) (i : ℕ) (item : FpeBatchItem)
      → get_elem? items i ≡ some item
      → batch_task ff1 (encrypt_value ff1) info alphabet items i
        ≡ batch_item ff1 (encrypt_value ff1) info.version item (new_cipher ff1 info alphabet)
  unfolding batch_task
  batch_task-item info alphabet items i item at = ground (arith, at)

  batch_with-Agrees :
      (items : List FpeBatchItem) (order : List ℕ) (i : ℕ) (item : FpeBatchItem)
      (key : Result Error (KeyInfo × Text))
      → Schedule (length items) order
      → get_elem? items i ≡ some item
      → (r : FpeResult) × (get_elem? (batch_with ff1 (encrypt_value ff1) items order key) i
          ≡ some r)
        × Agrees item.reference (key >>= single item) r
  unfolding batch_with single
  batch_with-Agrees items order i item (ok (info, alphabet)) sched at = (
    batch_item ff1 (encrypt_value ff1) info.version item (new_cipher ff1 info alphabet),
    run_tasks_lem (batch_task ff1 (encrypt_value ff1) info alphabet items) order
          (replicate (length items) no_result) i
          (rw (length-replicate (length items) no_result)
            (Schedule-all (length items) order (λ j m. (sched j).0 m)))
        ∙ simp ((sched i).1 (get_elem?-lt items i item at))
            (ap some (batch_task-item info alphabet items i item at)),
    item-Agrees info item (new_cipher ff1 info alphabet),
  )
  batch_with-Agrees items order i item (err e) sched at = (
    item_result (pos 0) item.reference (err e),
    get_elem?-map _ items i item at,
    (refl, refl, λ h. cc),
  )
  batch_with-Agrees items order i item panic sched at =
      (item_result (pos 0) item.reference panic, get_elem?-map _ items i item at, tt)

  bind_assoc :
      (r : Result Error KeyInfo) (a : Result Error Text)
      (f : KeyInfo × Text → Result Error (Text × ℤ))
      → (r >>= λ i. a >>= λ x. f (i, x)) ≡ ((r >>= λ i. a >>= λ x. ok (i, x)) >>= f)
  bind_assoc (ok i) (ok x) f = refl
  bind_assoc (ok i) (err e) f = refl
  bind_assoc (ok i) panic f = refl
  bind_assoc (err e) a f = refl
  bind_assoc panic a f = refl

  -- In whatever order the tasks of a batch end, the result at each index is that of `FPEEncrypt`
  -- for the item there: its value and version, or no value and some error.
  pub fpe_encrypt_batch-item :
      (lock : LockClient) (s : TokenizeService lru) (name transformation custom : Text)
      (items : List FpeBatchItem) (order : List ℕ) (i : ℕ) (item : FpeBatchItem)
      → Schedule (length items) order
      → get_elem? items i ≡ some item
      → (r : FpeResult) × (get_elem?
            (fpe_encrypt_batch ff1 lru lock s name transformation custom items order).1
            i
          ≡ some r)
        × Agrees item.reference
            (fpe_encrypt ff1 lru lock s name item.value transformation custom item.tweak).1
            r
  unfolding fpe_encrypt_batch fpe_encrypt encrypt_with single
  fpe_encrypt_batch-item lock s name transformation custom items order i item sched at =
      let s' = (get_key ff1 lru lock s name).0 in
      let key = (get_key ff1 lru lock s name).1 in
      let alphabet = get_alphabet lru s' transformation custom in
      let (r, found, agrees) =
        batch_with-Agrees items order i item (key >>= λ k. alphabet >>= λ a. ok (k, a)) sched at in
      (
        r,
        found,
        subst (λ x. Agrees item.reference x r) (sym (bind_assoc key alphabet (single item))) agrees,
      )
