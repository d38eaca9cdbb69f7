-- ===== src/Crypto/Transparent.antt =====
-- crypto_service.go, `getKey`: what the cache of keys holds, for names without a colon.
use mathlib.Core.List.{head-eq_of_cons-eq, tail-eq_of_cons-eq}
use grpc_vault_ha.Prelude.{
  ℕ, zero, suc, ◌≡◌, ◌≢◌, ◌<◌, refl, sym, ap, ◌∙◌, true, Option, none, some, List, [], ◌∷◌, arith,
  Option-cases, inl, inr, ok, or_err,
}
use grpc_vault_ha.Prelude.Int.{ℤ, pos, negsuc, to_int32}
use grpc_vault_ha.Prelude.Text.{Text, text_eq}
use grpc_vault_ha.Strings.Split.{split, Free, split-Free, split-append}
use grpc_vault_ha.Strings.Decimal.{print_int, print_ℕ, read_ℕ, read_ℕ-print_ℕ, print_int-Free}
use grpc_vault_ha.Aes.{Library}
use grpc_vault_ha.Cache.Lru.{LruList, Laws, peek-add_inv}
use grpc_vault_ha.Crypto.Keys.{KeyInfo, LockClient, key_not_found, cache_key, request_key}
use grpc_vault_ha.Crypto.{CryptoService, get_key, key_from, store_key}

pub split-cache_key :
    (name : Text) (n : ℕ)
    → Free b':' name
    → split b':' (cache_key name (pos (suc n))) ≡ name ∷ print_int (pos (suc n)) ∷ []
unfolding cache_key
split-cache_key name n free =
    ap (split b':') (ground arith)
    ∙ split-append b':' name (print_int (pos (suc n))) free
    ∙ ap (◌∷◌ name) (split-Free b':' (print_int (pos (suc n))) (print_int-Free (pos (suc n))))

cache_key_latest : (name : Text) → cache_key name (pos 0) ≡ name
unfolding cache_key
cache_key_latest name = refl

some-eq : {m n : ℕ} → some m ≡ some n → m ≡ n
some-eq e = cc

-- Different requests have different cache keys.
cache_key_pinned :
    (name other : Text) (n m : ℕ)
    → Free b':' name
    → Free b':' other
    → cache_key name (pos (suc n)) ≡ cache_key other (pos (suc m))
    → (name ≡ other) × (n ≡ m)
cache_key_pinned name other n m f g e = (head-eq_of_cons-eq parts, omega (arith, same))
  where
    parts : name ∷ print_int (pos (suc n)) ∷ [] ≡ other ∷ print_int (pos (suc m)) ∷ []
    parts = sym (split-cache_key name n f) ∙ ap (split b':') e ∙ split-cache_key other m g

    digits : print_ℕ (suc n) ≡ print_ℕ (suc m)
    digits = unfold print_int in head-eq_of_cons-eq (tail-eq_of_cons-eq parts)

    same : suc n ≡ suc m
    same = some-eq (sym (read_ℕ-print_ℕ (suc n)) ∙ ap read_ℕ digits ∙ read_ℕ-print_ℕ (suc m))

cons-ne-nil : {x : Text} {xs : List Text} → x ∷ xs ≡ [] → ⊥
cons-ne-nil e = cc

cache_key_apart :
    (name other : Text) (n : ℕ)
    → Free b':' name
    → Free b':' other
    → cache_key name (pos (suc n)) ≢ other
cache_key_apart name other n f g e = absurd none_left
  where
    parts : name ∷ print_int (pos (suc n)) ∷ [] ≡ other ∷ []
    parts = sym (split-cache_key name n f) ∙ ap (split b':') e ∙ split-Free b':' other g

    none_left : ⊥
    none_left = cons-ne-nil (tail-eq_of_cons-eq parts)

module _ (lib : Library) (lru : LruList Text KeyInfo) (laws : Laws Text KeyInfo lru) where
  -- The key is one of the versions that the lock service has for the name.
  abbrev pub Current : LockClient → Text → KeyInfo → Type 0
  Current lock name info =
      (n : ℕ) × (info.version ≡ pos (suc n))
      × (n < 2147483647)
      × (lock name (pos (suc n)) ≡ some info)

  -- A cached key of a version is what the lock service answers; the one cached as latest was it
  -- once, and is still a version that the lock service has.
  pub record Known (lock : LockClient) (s : CryptoService lib lru) : Type 0 where
    pub connected : s.connected ≡ true
    pub pinned :
        (name : Text) (n : ℕ) (info : KeyInfo)
        → Free b':' name
        → n < 2147483647
        → lru.peek s.key_cache (cache_key name (pos (suc n))) ≡ some info
        → lock name (pos (suc n)) ≡ some info
    pub latest :
        (name : Text) (info : KeyInfo)
        → Free b':' name
        → lru.peek s.key_cache name ≡ some info
        → Current lock name info

  abbrev touched : CryptoService lib lru → Text → CryptoService lib lru
  touched s key = record s { key_cache = (lru.get s.key_cache key).0 }

  touched-Known :
      (lock : LockClient) (s : CryptoService lib lru) (key : Text)
      → Known lock s
      → Known lock (touched s key)
  touched-Known lock s key k = record {
    connected = k.connected;
    pinned = λ name n info f h p.
        k.pinned name n info f h
          (sym (laws.peek-get s.key_cache key (cache_key name (pos (suc n)))) ∙ p);
    latest = λ name info f p. k.latest name info f (sym (laws.peek-get s.key_cache key name) ∙ p);
  }

  key_from-hit :
      (lock : LockClient) (s : CryptoService lib lru) (name : Text) (v : ℤ) (info : KeyInfo)
      (r : lru.State × Option KeyInfo)
      → r.1 ≡ some info
      → key_from lib lru lock s name v r ≡ (record s { key_cache = r.0 }, ok info)
  unfolding key_from
  key_from-hit lock s name v info (cache, none) e = cc
  key_from-hit lock s name v info (cache, some found) e = ground (arith, e)

  key_from-miss :
      (lock : LockClient) (s : CryptoService lib lru) (name : Text) (v : ℤ)
      (r : lru.State × Option KeyInfo)
      → s.connected ≡ true
      → r.1 ≡ none
      → key_from lib lru lock s name v r
        ≡ store_key lib lru
            (record s { key_cache = r.0 })
            (cache_key name v)
            (request_key lock name v)
  unfolding key_from
  key_from-miss lock s name v (cache, none) c e = simp c
  key_from-miss lock s name v (cache, some found) c e = cc

  -- The cache answers if it holds an entry, and the lock service otherwise.
  pub get_key-hit :
      (lock : LockClient) (s : CryptoService lib lru) (name : Text) (v : ℤ) (info : KeyInfo)
      → lru.peek s.key_cache (cache_key name v) ≡ some info
      → get_key lib lru lock s name v ≡ (touched s (cache_key name v), ok info)
  unfolding get_key
  get_key-hit lock s name v info p =
      key_from-hit lock s name v info _ (laws.get-peek s.key_cache (cache_key name v) ∙ p)

  pub get_key-miss :
      (lock : LockClient) (s : CryptoService lib lru) (name : Text) (v : ℤ)
      → s.connected ≡ true
      → lru.peek s.key_cache (cache_key name v) ≡ none
      → get_key lib lru lock s name v
        ≡ store_key lib lru
            (touched s (cache_key name v))
            (cache_key name v)
            (request_key lock name v)
  unfolding get_key
  get_key-miss lock s name v c p =
      key_from-miss lock s name v _ c (laws.get-peek s.key_cache (cache_key name v) ∙ p)

  -- A key that is fetched keeps the invariant, if it is what was asked for.
  store-pinned :
      (lock : LockClient) (s : CryptoService lib lru) (name : Text) (n : ℕ) (info : KeyInfo)
      → Free b':' name
      → Known lock s
      → (n < 2147483647 → lock name (pos (suc n)) ≡ some info)
      → Known lock
          (record s { key_cache = (lru.add s.key_cache (cache_key name (pos (suc n))) info).0 })
  store-pinned lock s name n info f k answer = record {
    connected = k.connected;
    pinned = λ other m found g i p. elim (peek-add_inv lru laws s.key_cache _ _ info found p) [
      | inl (same, e) ↦ new_pinned other m found g i same e
      | inr (ne, old) ↦ k.pinned other m found g i old
    ];
    latest = λ other found g p. elim (peek-add_inv lru laws s.key_cache _ _ info found p) [
      | inl (same, e) ↦ absurd (cache_key_apart name other n f g (sym same))
      | inr (ne, old) ↦ k.latest other found g old
    ];
  }
    where
      new_pinned :
          (other : Text) (m : ℕ) (found : KeyInfo)
          → Free b':' other
          → m < 2147483647
          → cache_key other (pos (suc m)) ≡ cache_key name (pos (suc n))
          → found ≡ info
          → lock other (pos (suc m)) ≡ some found
      new_pinned other m found g i same e =
          let (names, versions) = cache_key_pinned other name m n g f same in
          rw (names, versions, e) (answer (omega (arith, i, versions)))

  store-latest :
      (lock : LockClient) (s : CryptoService lib lru) (name : Text) (v : ℤ) (info : KeyInfo)
      → cache_key name v ≡ name
      → Free b':' name
      → Known lock s
      → Current lock name info
      → Known lock (record s { key_cache = (lru.add s.key_cache (cache_key name v) info).0 })
  store-latest lock s name v info plain f k now = record {
    connected = k.connected;
    pinned = λ other m found g i p. elim (peek-add_inv lru laws s.key_cache _ _ info found p) [
      | inl (same, e) ↦ absurd (cache_key_apart other name m g f (same ∙ plain))
      | inr (ne, old) ↦ k.pinned other m found g i old
    ];
    latest = λ other found g p. elim (peek-add_inv lru laws s.key_cache _ _ info found p) [
      | inl (same, e) ↦ rw (same ∙ plain, e) now
      | inr (ne, old) ↦ k.latest other found g old
    ];
  }

  -- Whatever version is asked for, the lock service's answer is one of the versions it has.
  abbrev pub Answers : LockClient → Type 0
  Answers lock =
      (name : Text) (v : ℤ) (info : KeyInfo) → lock name v ≡ some info → Current lock name info

  store_key-answer :
      (s : CryptoService lib lru) (key : Text) (answer : Option KeyInfo)
      → (store_key lib lru s key answer).1 ≡ or_err answer key_not_found
  unfolding store_key
  store_key-answer s key none = refl
  store_key-answer s key (some info) = refl

  store_key-Known :
      (lock : LockClient) (s : CryptoService lib lru) (key : Text) (answer : Option KeyInfo)
      → Known lock s
      → ((info : KeyInfo)
          → answer ≡ some info
          → Known lock (record s { key_cache = (lru.add s.key_cache key info).0 }))
      → Known lock (store_key lib lru s key answer).0
  unfolding store_key
  store_key-Known lock s key none k new = k
  store_key-Known lock s key (some info) k new = new info refl

  -- A request for a version above 0, small enough for an `int32`, is sent as it is.
  request_key-pinned :
      (lock : LockClient) (name : Text) (n : ℕ)
      → n < 2147483647
      → request_key lock name (pos (suc n)) ≡ lock name (pos (suc n))
  unfolding request_key
  request_key-pinned lock name n h = ap (lock name) (ground (arith, h))

  pub get_key_pinned-Known :
      (lock : LockClient) (s : CryptoService lib lru) (name : Text) (n : ℕ)
      → Free b':' name
      → Known lock s
      → Known lock (get_key lib lru lock s name (pos (suc n))).0
  get_key_pinned-Known lock s name n f k =
      elim (Option-cases (lru.peek s.key_cache (cache_key name (pos (suc n))))) [
        | inl missing ↦ rw (get_key-miss lock s name (pos (suc n)) k.connected missing) (
            store_key-Known lock _ _ _ (touched-Known lock s _ k) (λ info answer.
              store-pinned lock (touched s _) name n info f (touched-Known lock s _ k)
                (λ h. sym (request_key-pinned lock name n h) ∙ answer)))
        | inr (info, there) ↦
            rw (get_key-hit lock s name (pos (suc n)) info there) (touched-Known lock s _ k)
      ]

  -- A key of a given version is the lock service's, whether it comes from the cache or not.
  pub get_key-pinned :
      (lock : LockClient) (s : CryptoService lib lru) (name : Text) (n : ℕ)
      → Free b':' name
      → n < 2147483647
      → Known lock s
      → (get_key lib lru lock s name (pos (suc n))).1
        ≡ or_err (lock name (pos (suc n))) key_not_found
  get_key-pinned lock s name n f h k =
      elim (Option-cases (lru.peek s.key_cache (cache_key name (pos (suc n))))) [
        | inl missing ↦ rw (get_key-miss lock s name (pos (suc n)) k.connected missing) (
            store_key-answer _ _ _
            ∙ ap (λ a. or_err a key_not_found) (request_key-pinned lock name n h))
        | inr (info, there) ↦
            rw (get_key-hit lock s name (pos (suc n)) info there, k.pinned name n info f h there)
              refl
      ]

  request_key-Current :
      (lock : LockClient) (name : Text) (v : ℤ) (info : KeyInfo)
      → Answers lock
      → request_key lock name v ≡ some info
      → Current lock name info
  unfolding request_key
  request_key-Current lock name v info a e = a name (to_int32 v) info e

  get_key_latest-Known :
      (lock : LockClient) (s : CryptoService lib lru) (name : Text) (v : ℤ)
      → cache_key name v ≡ name
      → Free b':' name
      → Answers lock
      → Known lock s
      → Known lock (get_key lib lru lock s name v).0
  get_key_latest-Known lock s name v plain f a k =
      elim (Option-cases (lru.peek s.key_cache (cache_key name v))) [
        | inl missing ↦ rw (get_key-miss lock s name v k.connected missing) (
            store_key-Known lock _ _ _ (touched-Known lock s _ k) (λ info answer.
              store-latest lock (touched s _) name v info plain f (touched-Known lock s _ k)
                (request_key-Current lock name v info a answer)))
        | inr (info, there) ↦ rw (get_key-hit lock s name v info there) (touched-Known lock s _ k)
      ]

  pub get_key-Known :
      (lock : LockClient) (s : CryptoService lib lru) (name : Text) (v : ℤ)
      → Free b':' name
      → Answers lock
      → Known lock s
      → Known lock (get_key lib lru lock s name v).0
  get_key-Known lock s name (pos zero) f a k =
      get_key_latest-Known lock s name (pos 0) (unfold cache_key in refl) f a k
  get_key-Known lock s name (pos (suc n)) f a k = get_key_pinned-Known lock s name n f k
  get_key-Known lock s name (negsuc n) f a k =
      get_key_latest-Known lock s name (negsuc n) (unfold cache_key in ground arith) f a k

  or_err-Current :
      (lock : LockClient) (name : Text) (v : ℤ) (info : KeyInfo)
      → Answers lock
      → or_err (request_key lock name v) key_not_found ≡ ok info
      → Current lock name info
  or_err-Current lock name v info a e = request_key-Current lock name v info a (ground (arith, e))

  -- A key given out as the latest one is a version that the lock service has.
  pub get_key-Current :
      (lock : LockClient) (s : CryptoService lib lru) (name : Text) (info : KeyInfo)
      → Free b':' name
      → Answers lock
      → Known lock s
      → (get_key lib lru lock s name (pos 0)).1 ≡ ok info
      → Current lock name info
  get_key-Current lock s name info f a k e =
      elim (Option-cases (lru.peek s.key_cache (cache_key name (pos 0)))) [
        | inl missing ↦ or_err-Current lock name (pos 0) info a (
            sym (store_key-answer _ _ _)
            ∙ ap (λ r. r.1) (sym (get_key-miss lock s name (pos 0) k.connected missing))
            ∙ e)
        | inr (found, there) ↦ k.latest name info f (
            ap (lru.peek s.key_cache) (sym (cache_key_latest name))
            ∙ there
            ∙ same found (get_key-hit lock s name (pos 0) found there))
      ]
    where
      same :
          (found : KeyInfo)
          → get_key lib lru lock s name (pos 0) ≡ (touched s (cache_key name (pos 0)), ok found)
          → some found ≡ some info
      same found h = cc (ap (λ r. r.1) h, e)
