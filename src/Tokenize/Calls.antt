-- ===== src/Tokenize/Calls.antt =====
-- tokenize_service.go: sequences of calls of one service.
use grpc_vault_ha.Prelude.{ℕ, sym, ap, ◌∙◌, Option, List, [], ◌∷◌}
use grpc_vault_ha.Prelude.Text.{Text, text_eq}
use grpc_vault_ha.Cache.Lru.{LruList, Laws}
use grpc_vault_ha.Fpe.{Ff1}
use grpc_vault_ha.Tokenize.Keys.{KeyInfo, LockClient, TokenizeService}
use grpc_vault_ha.Tokenize.{
  FpeBatchItem, invalidate_key, fpe_encrypt, fpe_decrypt, fpe_encrypt_batch, fpe_decrypt_batch,
}
use grpc_vault_ha.Tokenize.Consistent.{Consistent, get_key-Consistent, invalidate_key-Consistent}
use grpc_vault_ha.Tokenize.Names.{Change, change, change-keys}

pub data Call (lru : LruList Text KeyInfo) : Type 0 where
  encrypts decrypts : Text → Text → Text → Text → Option Text → Call lru
  encrypts_batch decrypts_batch : Text → Text → Text → List FpeBatchItem → List ℕ → Call lru
  invalidates : Text → Call lru
  changes_one : Change lru → Call lru

module _ (ff1 : Ff1) (lru : LruList Text KeyInfo) (lock : LockClient) where
  unfoldable pub step : TokenizeService lru → Call lru → TokenizeService lru
  step s (encrypts name value transformation alphabet tweak) =
      (fpe_encrypt ff1 lru lock s name value transformation alphabet tweak).0
  step s (decrypts name value transformation alphabet tweak) =
      (fpe_decrypt ff1 lru lock s name value transformation alphabet tweak).0
  step s (encrypts_batch name transformation alphabet items order) =
      (fpe_encrypt_batch ff1 lru lock s name transformation alphabet items order).0
  step s (decrypts_batch name transformation alphabet items order) =
      (fpe_decrypt_batch ff1 lru lock s name transformation alphabet items order).0
  step s (invalidates name) = invalidate_key ff1 lru s name
  step s (changes_one c) = change lru s c

  unfoldable pub run : TokenizeService lru → List (Call lru) → TokenizeService lru
  unfolding step
  run s [] = s
  run s (c ∷ cs) = run (step s c) cs

module _ (ff1 : Ff1) (lru : LruList Text KeyInfo) (laws : Laws Text KeyInfo lru)
    (lock : LockClient) where
  change-Consistent :
      (s : TokenizeService lru) (c : Change lru)
      → Consistent lru lock s
      → Consistent lru lock (change lru s c)
  change-Consistent s c k =
      let (caches, connections) = change-keys lru s c in
      record {
        connected = connections ∙ k.connected;
        cached =
            λ name info p. k.cached name info (ap (λ cache. lru.peek cache name) (sym caches) ∙ p);
      }

  pub step-Consistent :
      (s : TokenizeService lru) (c : Call lru)
      → Consistent lru lock s
      → Consistent lru lock (step ff1 lru lock s c)
  unfolding step
  step-Consistent s (encrypts name value transformation alphabet tweak) k =
      unfold fpe_encrypt in get_key-Consistent ff1 lru laws lock s name k
  step-Consistent s (decrypts name value transformation alphabet tweak) k =
      unfold fpe_decrypt in get_key-Consistent ff1 lru laws lock s name k
  step-Consistent s (encrypts_batch name transformation alphabet items order) k =
      unfold fpe_encrypt_batch in get_key-Consistent ff1 lru laws lock s name k
  step-Consistent s (decrypts_batch name transformation alphabet items order) k =
      unfold fpe_decrypt_batch in get_key-Consistent ff1 lru laws lock s name k
  step-Consistent s (invalidates name) k = invalidate_key-Consistent ff1 lru laws lock s name k
  step-Consistent s (changes_one c) k = change-Consistent s c k

  pub run-Consistent :
      (s : TokenizeService lru) (cs : List (Call lru))
      → Consistent lru lock s
      → Consistent lru lock (run ff1 lru lock s cs)
  unfolding run
  run-Consistent s [] k = k
  run-Consistent s (c ∷ cs) k = run-Consistent (step ff1 lru lock s c) cs (step-Consistent s c k)
