-- ===== src/Crypto/Batch.antt =====
-- crypto_service.go, `EncryptBatch` and `DecryptBatch`: the order in which the tasks end is not seen.
use grpc_vault_ha.Prelude.{
  ℕ, zero, suc, ◌≡◌, ◌<◌, ◌||◌, refl, sym, ap, ◌∙◌, Bool, true, Option, none, some, List, [], ◌∷◌,
  arith, if◌then◌else◌, inl, inr, Result, ok, err, panic, ◌>>=◌, length, get_elem?, any, all, ltb,
  eqb, replicate, Option-cases, ℕ_discrete,
}
use grpc_vault_ha.Prelude.Int.{ℤ, pos, negsuc}
use grpc_vault_ha.Prelude.Text.{Text}
use grpc_vault_ha.Strings.Split.{Free}
use grpc_vault_ha.Aes
use grpc_vault_ha.Aes.{Library, parse_ciphertext}
use grpc_vault_ha.Cache.Lru.{LruList, Laws}
use grpc_vault_ha.Crypto.Keys.{Error, KeyInfo, LockClient}
use grpc_vault_ha.Crypto.Pool.{
  run_tasks_lem, set_at, get_elem?-lt, get_elem?-map, Schedule, Schedule-all, length-replicate,
  length-set_at, get_elem?-set_at,
}
use grpc_vault_ha.Crypto.{
  CryptoService, BatchItem, EncryptResult, BatchDecryptItem, DecryptResult, get_key, encrypt_batch,
  batch_with, encrypt_task, encrypt_item, encrypted, no_result, decrypt, decrypt_version,
  decrypt_with, decrypt_batch, decrypt_tasks, decrypted,
}
use grpc_vault_ha.Crypto.Transparent.{Known, Answers, get_key-pinned}
use grpc_vault_ha.Crypto.RoundTrip.{decrypt-Known}

module _ (lib : Library) (lru : LruList Text KeyInfo) where
  -- The result of an item, given what became of the key.
  abbrev pub Expected : (ℕ → Option Text) → BatchItem → Result Error KeyInfo → EncryptResult
  Expected random item (ok info) = encrypt_item lib lru random info item
  Expected random item (err e) = encrypted item.reference (pos 0) (err e)
  Expected random item panic = encrypted item.reference (pos 0) panic

  encrypt_task-item :
      (random : ℕ → ℕ → Option Text) (info : KeyInfo) (items : List BatchItem) (i : ℕ)
      (item : BatchItem)
      → get_elem? items i ≡ some item
      → encrypt_task lib lru random info items i ≡ encrypt_item lib lru (random i) info item
  unfolding encrypt_task
  encrypt_task-item random info items i item at = ground (arith, at)

  batch_with-item :
      (random : ℕ → ℕ → Option Text) (items : List BatchItem) (order : List ℕ) (i : ℕ)
      (item : BatchItem) (key : Result Error KeyInfo)
      → Schedule (length items) order
      → get_elem? items i ≡ some item
      → get_elem? (batch_with lib lru random items order key) i
        ≡ some (Expected (random i) item key)
  unfolding batch_with
  batch_with-item random items order i item (ok info) sched at =
      run_tasks_lem (encrypt_task lib lru random info items) order
        (replicate (length items) no_result) i
        (rw (length-replicate (length items) no_result)
          (Schedule-all (length items) order (λ j m. (sched j).0 m)))
      ∙ simp ((sched i).1 (get_elem?-lt items i item at))
          (ap some (encrypt_task-item random info items i item at))
  batch_with-item random items order i item (err e) sched at = get_elem?-map _ items i item at
  batch_with-item random items order i item panic sched at = get_elem?-map _ items i item at

  -- In whatever order the tasks end, the result at each index is that of the item there: encrypted
  -- by itself with its own random bytes, under the key that was fetched once for all, or with the
  -- error of fetching it.
  pub encrypt_batch-item :
      (random : ℕ → ℕ → Option Text) (lock : LockClient) (s : CryptoService lib lru) (name : Text)
      (items : List BatchItem) (order : List ℕ) (i : ℕ) (item : BatchItem)
      → Schedule (length items) order
      → get_elem? items i ≡ some item
      → get_elem? (encrypt_batch lib lru random lock s name items order).1 i
        ≡ some (Expected (random i) item (get_key lib lru lock s name (pos 0)).1)
  unfolding encrypt_batch
  encrypt_batch-item random lock s name items order i item sched at =
      batch_with-item random items order i item (get_key lib lru lock s name (pos 0)).1 sched at

-- A ciphertext that names a version from 1 to 2^31 - 1, or none that can be read.
abbrev pub Versioned : Result Aes.Error (ℤ × Text) → Type 0
Versioned (ok (pos zero, payload)) = ⊥
Versioned (ok (pos (suc n), payload)) = n < 2147483647
Versioned (ok (negsuc n, payload)) = ⊥
Versioned (err e) = Unit {0}
Versioned panic = Unit {0}

module _ (lib : Library) (lru : LruList Text KeyInfo) (laws : Laws Text KeyInfo lru) where
  -- The cache does not change what is decrypted.
  decrypt-same :
      (lock : LockClient) (s t : CryptoService lib lru) (name ciphertext aad : Text)
      (parsed : Result Aes.Error (ℤ × Text))
      → Free b':' name
      → Known lib lru laws lock s
      → Known lib lru laws lock t
      → Versioned parsed
      → (decrypt_version lib lru lock s name ciphertext aad parsed).1
        ≡ (decrypt_version lib lru lock t name ciphertext aad parsed).1
  unfolding decrypt_version
  decrypt-same lock s t name ciphertext aad (ok (pos zero, payload)) f k l v = absurd v
  decrypt-same lock s t name ciphertext aad (ok (pos (suc n), payload)) f k l v =
      ap (λ info. info >>= λ i. decrypt_with lib lru i ciphertext aad)
        (get_key-pinned lib lru laws lock s name n f v k
          ∙ sym (get_key-pinned lib lru laws lock t name n f v l))
  decrypt-same lock s t name ciphertext aad (ok (negsuc n, payload)) f k l v = absurd v
  decrypt-same lock s t name ciphertext aad (err e) f k l v = refl
  decrypt-same lock s t name ciphertext aad panic f k l v = refl

  module _ (lock : LockClient) (name : Text) (items : List BatchDecryptItem) (free : Free b':' name)
      (answers : Answers lib lru laws lock) where
    decrypt_tasks-cons :
        (s : CryptoService lib lru) (i : ℕ) (order : List ℕ) (results : List DecryptResult)
        (x : BatchDecryptItem)
        → get_elem? items i ≡ some x
        → decrypt_tasks lib lru lock s name items (i ∷ order) results
          ≡ decrypt_tasks lib lru lock
              (decrypt lib lru lock s name x.ciphertext x.context).0
              name
              items
              order
              (set_at i
                (decrypted x.reference (decrypt lib lru lock s name x.ciphertext x.context).1)
                results)
    unfolding decrypt_tasks
    decrypt_tasks-cons s i order results x at = ground (arith, at)

    decrypt_tasks-skip :
        (s : CryptoService lib lru) (i : ℕ) (order : List ℕ) (results : List DecryptResult)
        → get_elem? items i ≡ none
        → decrypt_tasks lib lru lock s name items (i ∷ order) results
          ≡ decrypt_tasks lib lru lock s name items order results
    unfolding decrypt_tasks
    decrypt_tasks-skip s i order results at = ground (arith, at)

    decrypt-answer :
        (s t : CryptoService lib lru) (ciphertext aad : Text)
        → Known lib lru laws lock s
        → Known lib lru laws lock t
        → Versioned (parse_ciphertext ciphertext)
        → (decrypt lib lru lock s name ciphertext aad).1
          ≡ (decrypt lib lru lock t name ciphertext aad).1
    unfolding decrypt
    decrypt-answer s t ciphertext aad k l v =
        decrypt-same lock s t name ciphertext aad (parse_ciphertext ciphertext) free k l v

    -- The answer of a task, as the service at the start would give it.
    abbrev answer : CryptoService lib lru → BatchDecryptItem → DecryptResult
    answer t item =
        decrypted item.reference (decrypt lib lru lock t name item.ciphertext item.context).1

    -- What a task has written, seen from any index.
    written :
        (s t : CryptoService lib lru) (i j : ℕ) (results : List DecryptResult)
        (x item : BatchDecryptItem) (there : Bool)
        → Known lib lru laws lock s
        → Known lib lru laws lock t
        → i < length results
        → get_elem? items i ≡ some x
        → get_elem? items j ≡ some item
        → Versioned (parse_ciphertext item.ciphertext)
        → (if there then some (answer t item) else get_elem? (set_at i (answer s x) results) j)
          ≡ (if eqb j i || there then some (answer t item) else get_elem? results j)
    written s t i j results x item there k l h e at v = elim (ℕ_discrete j i) [
      | yes same ↦ ground (arith, same, get_elem?-set_at i j (answer s x) results h, here same)
      | no ne ↦ ground (arith, ne, get_elem?-set_at i j (answer s x) results h)
    ]
      where
        here : j ≡ i → answer s x ≡ answer t item
        here same =
            let e' : x ≡ item = cc (e, at, same) in
            ap (answer s) e'
            ∙ ap (decrypted item.reference) (decrypt-answer s t item.ciphertext item.context k l v)

    decrypt_tasks_lem :
        (s t : CryptoService lib lru) (order : List ℕ) (results : List DecryptResult) (j : ℕ)
        (item : BatchDecryptItem)
        → Known lib lru laws lock s
        → Known lib lru laws lock t
        → all (λ i. ltb i (length results)) order ≡ true
        → get_elem? items j ≡ some item
        → Versioned (parse_ciphertext item.ciphertext)
        → get_elem? (decrypt_tasks lib lru lock s name items order results).1 j
          ≡ (if any (eqb j) order then some (answer t item) else get_elem? results j)
    decrypt_tasks_lem s t [] results j item k l h at v = unfold decrypt_tasks in refl
    decrypt_tasks_lem s t (i ∷ order) results j item k l h at v =
        elim (Option-cases (get_elem? items i)) [
          | inl out ↦
              ap (λ (r : CryptoService lib lru × List DecryptResult). get_elem? (r.1) j)
                (decrypt_tasks-skip s i order results out)
              ∙ decrypt_tasks_lem s t order results j item k l (ground (arith, h)) at v
              ∙ ground (arith, out, at)
          | inr (x, e) ↦
              ap (λ (r : CryptoService lib lru × List DecryptResult). get_elem? (r.1) j)
                (decrypt_tasks-cons s i order results x e)
              ∙ decrypt_tasks_lem (decrypt lib lru lock s name x.ciphertext x.context).0 t order
                  (set_at i (answer s x) results) j item
                  (decrypt-Known lib lru laws lock s name x.ciphertext x.context free answers k) l
                  (rw (length-set_at i (answer s x) results) (ground (arith, h))) at v
              ∙ written s t i j results x item (any (eqb j) order) k l (ground (arith, h)) e at v
        ]

    -- In whatever order the tasks of a batch end, and although they share the cache of keys, the
    -- result at each index is what `Decrypt` alone answers for the item there. The item names a
    -- version from 1 to 2^31 - 1 (or none that can be read), the name has no colon, and the cache
    -- agrees with the lock service.
    pub decrypt_batch-item :
        (s : CryptoService lib lru) (order : List ℕ) (i : ℕ) (item : BatchDecryptItem)
        → Known lib lru laws lock s
        → Schedule (length items) order
        → get_elem? items i ≡ some item
        → Versioned (parse_ciphertext item.ciphertext)
        → get_elem? (decrypt_batch lib lru lock s name items order).1 i
          ≡ some (
              decrypted item.reference (decrypt lib lru lock s name item.ciphertext item.context).1)
    unfolding decrypt_batch
    decrypt_batch-item s order i item k sched at v =
        decrypt_tasks_lem s s order (replicate (length items) _) i item k k
          (rw (length-replicate (length items) _)
            (Schedule-all (length items) order (λ j m. (sched j).0 m)))
          at v
        ∙ simp ((sched i).1 (get_elem?-lt items i item at)) refl
