-- ===== src/Tokenize/Consistent.antt =====
-- tokenize_service.go, `getKey`, as long as the latest version of each key stays the same.
use grpc_vault_ha.Prelude.{
  ◌≡◌, refl, sym, ap, ◌∙◌, true, Bool-cases, Option, none, some, inl, inr, or_err,
}
use grpc_vault_ha.Prelude.Int.{pos}
use grpc_vault_ha.Prelude.Text.{Text, text_eq}
use grpc_vault_ha.Cache.Lru.{LruList, Laws, peek-add_inv}
use grpc_vault_ha.Fpe.{Ff1}
use grpc_vault_ha.Tokenize.Keys.{KeyInfo, LockClient, TokenizeService, key_not_found}
use grpc_vault_ha.Tokenize.{store_key, key_from, get_key, invalidate_key}

module _ (lru : LruList Text KeyInfo) where
  -- Every cached key is what the lock service answers.
  pub record Consistent (lock : LockClient) (s : TokenizeService lru) : Type 0 where
    pub connected : s.connected ≡ true
    pub cached :
        (name : Text) (info : KeyInfo)
        → lru.peek s.key_cache name ≡ some info
        → lock name (pos 0) ≡ some info

key_from-none :
    (ff1 : Ff1) (lru : LruList Text KeyInfo) (lock : LockClient) (s : TokenizeService lru)
    (name : Text) (cache : lru.State)
    → s.connected ≡ true
    → key_from ff1 lru lock s name (cache, none)
      ≡ store_key ff1 lru (record s { key_cache = cache }) name (lock name (pos 0))
unfolding key_from
key_from-none ff1 lru lock s name cache c = simp c

module _ (ff1 : Ff1) (lru : LruList Text KeyInfo) (laws : Laws Text KeyInfo lru) where
  module _ (lock : LockClient) where
    touched-Consistent :
        (s : TokenizeService lru) (cache : lru.State)
        → ((name : Text) → lru.peek cache name ≡ lru.peek s.key_cache name)
        → Consistent lru lock s
        → Consistent lru lock (record s { key_cache = cache })
    touched-Consistent s cache same c = record {
      connected = c.connected;
      cached = λ name info p. c.cached name info (sym (same name) ∙ p);
    }

    store_key-Consistent :
        (s : TokenizeService lru) (name : Text) (answer : Option KeyInfo)
        → answer ≡ lock name (pos 0)
        → Consistent lru lock s
        → Consistent lru lock (store_key ff1 lru s name answer).0
    unfolding store_key
    store_key-Consistent s name none e c = c
    store_key-Consistent s name (some info) e c = record {
      connected = c.connected;
      cached = λ other known p. elim (peek-add_inv lru laws s.key_cache name other info known p) [
        | inl (same, value) ↦ ap (λ n. lock n (pos 0)) same ∙ sym e ∙ ap some (sym value)
        | inr (differs, there) ↦ c.cached other known there
      ];
    }

    key_from-Consistent :
        (s : TokenizeService lru) (name : Text) (r : lru.State × Option KeyInfo)
        → ((j : Text) → lru.peek r.0 j ≡ lru.peek s.key_cache j)
        → Consistent lru lock s
        → Consistent lru lock (key_from ff1 lru lock s name r).0
    key_from-Consistent s name (cache, some info) same c =
        unfold key_from in touched-Consistent s cache same c
    key_from-Consistent s name (cache, none) same c =
        rw (key_from-none ff1 lru lock s name cache c.connected) (
          store_key-Consistent (record s { key_cache = cache }) name (lock name (pos 0)) refl
            (touched-Consistent s cache same c))

    store_key-answer :
        (s : TokenizeService lru) (name : Text) (answer : Option KeyInfo)
        → (store_key ff1 lru s name answer).1 ≡ or_err answer key_not_found
    unfolding store_key
    store_key-answer s name none = refl
    store_key-answer s name (some info) = refl

    key_from-answer :
        (s : TokenizeService lru) (name : Text) (r : lru.State × Option KeyInfo)
        → r.1 ≡ lru.peek s.key_cache name
        → Consistent lru lock s
        → (key_from ff1 lru lock s name r).1 ≡ or_err (lock name (pos 0)) key_not_found
    key_from-answer s name (cache, some info) e c =
        unfold key_from in rw (c.cached name info (sym e)) refl
    key_from-answer s name (cache, none) e c =
        rw (key_from-none ff1 lru lock s name cache c.connected)
          (store_key-answer (record s { key_cache = cache }) name (lock name (pos 0)))

    pub get_key-Consistent :
        (s : TokenizeService lru) (name : Text)
        → Consistent lru lock s
        → Consistent lru lock (get_key ff1 lru lock s name).0
    get_key-Consistent s name c =
        unfold get_key in
        key_from-Consistent s name (lru.get s.key_cache name) (laws.peek-get s.key_cache name) c

    pub get_key-answer :
        (s : TokenizeService lru) (name : Text)
        → Consistent lru lock s
        → (get_key ff1 lru lock s name).1 ≡ or_err (lock name (pos 0)) key_not_found
    get_key-answer s name c =
        unfold get_key in
        key_from-answer s name (lru.get s.key_cache name) (laws.get-peek s.key_cache name) c

    pub invalidate_key-Consistent :
        (s : TokenizeService lru) (name : Text)
        → Consistent lru lock s
        → Consistent lru lock (invalidate_key ff1 lru s name)
    unfolding invalidate_key
    invalidate_key-Consistent s name c = record {
      connected = c.connected;
      cached = λ other info p. elim (text_eq.dec other name) [
        | yes same ↦ absurd (gone other info same p)
        | no differs ↦
            c.cached other info (sym (laws.peek-remove_ne s.key_cache name other differs) ∙ p)
      ];
    }
      where
        not_none : {info : KeyInfo} → none ≡ some info → ⊥
        not_none e = cc

        gone :
            (other : Text) (info : KeyInfo)
            → other ≡ name
            → lru.peek (lru.remove s.key_cache name).0 other ≡ some info
            → ⊥
        gone other info same p = not_none (
            sym (laws.peek-remove_self s.key_cache name)
            ∙ ap (lru.peek (lru.remove s.key_cache name).0) (sym same)
            ∙ p)

module _ (ff1 : Ff1) (lru : LruList Text KeyInfo) (lock : LockClient) (s : TokenizeService lru)
    (name : Text) where
  store_key-custom :
      (answer : Option KeyInfo) → (store_key ff1 lru s name answer).0.custom ≡ s.custom
  unfolding store_key
  store_key-custom none = refl
  store_key-custom (some info) = refl

key_from-custom :
    (ff1 : Ff1) (lru : LruList Text KeyInfo) (lock : LockClient) (s : TokenizeService lru)
    (name : Text) (r : lru.State × Option KeyInfo)
    → (key_from ff1 lru lock s name r).0.custom ≡ s.custom
key_from-custom ff1 lru lock s name (cache, some info) = unfold key_from in refl
key_from-custom ff1 lru lock s name (cache, none) = elim (Bool-cases s.connected) [
  | inl c ↦
      rw (key_from-none ff1 lru lock s name cache c)
        (store_key-custom ff1 lru lock (record s { key_cache = cache }) name (lock name (pos 0)))
  | inr c ↦ unfold key_from in simp c
]

-- The transformations are left alone.
pub get_key-custom :
    (ff1 : Ff1) (lru : LruList Text KeyInfo) (lock : LockClient) (s : TokenizeService lru)
    (name : Text)
    → (get_key ff1 lru lock s name).0.custom ≡ s.custom
unfolding get_key
get_key-custom ff1 lru lock s name = key_from-custom ff1 lru lock s name (lru.get s.key_cache name)
