-- ===== src/Crypto/RoundTrip.antt =====
-- crypto_service.go, `Encrypt` and `Decrypt`, over the cache of keys and a lock service that goes on
-- making new versions.
use grpc_vault_ha.Prelude.{
  bind-ok, ℕ, suc, ◌≡◌, ◌<◌, refl, sym, ap, subst, ◌∙◌, Option, some, List, [], ◌∷◌, arith,
  Option-cases, inl, inr, Result, ok, err, panic, ◌>>=◌, length,
}
use grpc_vault_ha.Prelude.Int.{ℤ, pos}
use grpc_vault_ha.Prelude.Text.{Text}
use grpc_vault_ha.Strings.Split.{Free}
use grpc_vault_ha.Aes
use grpc_vault_ha.Aes.{Library, Cipher, new_cipher, parse_ciphertext, nonce_size}
use grpc_vault_ha.Aes.RoundTrip as AesTrip
use grpc_vault_ha.Cache.Lru.{LruList, Laws}
use grpc_vault_ha.Crypto.Keys.{KeyInfo, LockClient, cache_key}
use grpc_vault_ha.Crypto.{
  CryptoService, new_crypto_service, get_key, encrypt, encrypt_with, decrypt, decrypt_with,
  decrypt_version, wrap,
}
use grpc_vault_ha.Crypto.Transparent.{
  Known, Current, Answers, get_key-Known, get_key-pinned, get_key-Current,
}

-- What happens at one crypto service: calls, and new versions at the lock service.
pub data Event : Type 0 where
  grows : LockClient → Event
  encrypts : (ℕ → Option Text) → Text → Text → Text → Event
  decrypts : Text → Text → Text → Event

module _ (lib : Library) (lru : LruList Text KeyInfo) where
  abbrev pub World : Type 0
  World = LockClient × CryptoService lib lru

  unfoldable pub step : World → Event → World
  step (lock, s) (grows lock') = (lock', s)
  step (lock, s) (encrypts random name plaintext aad) =
      (lock, (encrypt lib lru random lock s name plaintext aad).0)
  step (lock, s) (decrypts name ciphertext aad) =
      (lock, (decrypt lib lru lock s name ciphertext aad).0)

  unfoldable pub run : World → List Event → World
  run w [] = w
  run w (e ∷ es) = run (step w e) es

-- No version that was there is changed or dropped.
abbrev pub Extends : LockClient → LockClient → Type 0
Extends lock lock' =
    (name : Text) (n : ℕ) (info : KeyInfo)
    → lock name (pos (suc n)) ≡ some info
    → lock' name (pos (suc n)) ≡ some info

wrap-ok : {A : Type 0} (r : Result Aes.Error A) (a : A) → wrap r ≡ ok a → r ≡ ok a
wrap-ok (ok b) a h = cc
wrap-ok (err e) a h = cc
wrap-ok panic a h = cc

module _ (lib : Library) (lru : LruList Text KeyInfo) (laws : Laws Text KeyInfo lru) where
  -- Names have no colon, and the lock service only gains versions.
  abbrev pub Fits : LockClient → Event → Type 0
  Fits lock (grows lock') = Answers lib lru laws lock' × Extends lock lock'
  Fits lock (encrypts random name plaintext aad) = Free b':' name
  Fits lock (decrypts name ciphertext aad) = Free b':' name

  abbrev later : LockClient → Event → LockClient
  later lock (grows lock') = lock'
  later lock (encrypts random name plaintext aad) = lock
  later lock (decrypts name ciphertext aad) = lock

  abbrev pub Fine : LockClient → List Event → Type 0
  Fine lock [] = Unit {0}
  Fine lock (e ∷ es) = Fits lock e × Fine (later lock e) es

  Known-Extends :
      (lock lock' : LockClient) (s : CryptoService lib lru)
      → Extends lock lock'
      → Known lib lru laws lock s
      → Known lib lru laws lock' s
  Known-Extends lock lock' s x k = record {
    connected = k.connected;
    pinned = λ name n info f h p. x name n info (k.pinned name n info f h p);
    latest = λ name info f p. still name info (k.latest name info f p);
  }
    where
      still :
          (name : Text) (info : KeyInfo)
          → Current lib lru laws lock name info
          → Current lib lru laws lock' name info
      still name info (n, v, h, a) = (n, v, h, x name n info a)

  encrypt-Known :
      (random : ℕ → Option Text) (lock : LockClient) (s : CryptoService lib lru)
      (name plaintext aad : Text)
      → Free b':' name
      → Answers lib lru laws lock
      → Known lib lru laws lock s
      → Known lib lru laws lock (encrypt lib lru random lock s name plaintext aad).0
  unfolding encrypt
  encrypt-Known random lock s name plaintext aad f a k =
      get_key-Known lib lru laws lock s name (pos 0) f a k

  pub decrypt-Known :
      (lock : LockClient) (s : CryptoService lib lru) (name ciphertext aad : Text)
      → Free b':' name
      → Answers lib lru laws lock
      → Known lib lru laws lock s
      → Known lib lru laws lock (decrypt lib lru lock s name ciphertext aad).0
  unfolding decrypt
  decrypt-Known lock s name ciphertext aad f a k = versions (parse_ciphertext ciphertext)
    where
      versions :
          (r : Result Aes.Error (ℤ × Text))
          → Known lib lru laws lock (decrypt_version lib lru lock s name ciphertext aad r).0
      versions (ok (v, payload)) =
          unfold decrypt_version in get_key-Known lib lru laws lock s name v f a k
      versions (err e) = unfold decrypt_version in k
      versions panic = unfold decrypt_version in k

  -- The lock service answers properly, and the cache agrees with it.
  abbrev pub Sound : World lib lru → Type 0
  Sound (lock, s) = Answers lib lru laws lock × Known lib lru laws lock s

  step-Sound :
      (w : World lib lru) (e : Event)
      → Fits (w.0) e
      → Sound w
      → Sound (step lib lru w e)
        × ((step lib lru w e).0 ≡ later (w.0) e)
        × Extends (w.0) (later (w.0) e)
  unfolding step
  step-Sound (lock, s) (grows lock') (a', x) (a, k) =
      ((a', Known-Extends lock lock' s x k), refl, x)
  step-Sound (lock, s) (encrypts random name plaintext aad) f (a, k) =
      ((a, encrypt-Known random lock s name plaintext aad f a k), refl, λ n v i h. h)
  step-Sound (lock, s) (decrypts name ciphertext aad) f (a, k) =
      ((a, decrypt-Known lock s name ciphertext aad f a k), refl, λ n v i h. h)

  run-Sound :
      (w : World lib lru) (es : List Event)
      → Fine (w.0) es
      → Sound w
      → Sound (run lib lru w es) × Extends (w.0) (run lib lru w es).0
  unfolding run
  run-Sound w [] f s = (s, λ n v i h. h)
  run-Sound w (e ∷ es) (f, fs) s =
      let (s', l, x) = step-Sound w e f s in
      let (s'', x') = run-Sound (step lib lru w e) es (subst (λ t. Fine t es) (sym l) fs) s' in
      (
        s'',
        λ n v i h.
            x' n v i (subst (λ (t : LockClient). t n (pos (suc v)) ≡ some i) (sym l) (x n v i h)),
      )

  new-Known :
      (lock : LockClient) (s : CryptoService lib lru)
      → new_crypto_service lib lru ≡ some s
      → Known lib lru laws lock s
  unfolding new_crypto_service
  new-Known lock s made = elim (Option-cases (lru.new (pos 10000))) [
    | inl refused ↦ absurd (ground (arith, refused, made))
    | inr (cache, e) ↦ record {
      connected = ground (arith, e, made);
      pinned = λ name n info f h p. absurd (
          ground
            (arith, e, made, p, laws.new-peek (pos 10000) cache (cache_key name (pos (suc n))) e));
      latest = λ name info f p.
          absurd (ground (arith, e, made, p, laws.new-peek (pos 10000) cache name e));
    }
  ]

  -- What stands behind a ciphertext that `Encrypt` returned.
  record Made (random : ℕ → Option Text) (lock : LockClient) (name plaintext aad ciphertext : Text)
      (v : ℤ) : Type 0 where
    info : KeyInfo
    cipher : Cipher lib
    current : Current lib lru laws lock name info
    made : new_cipher lib info.key info.version ≡ ok cipher
    sealed : Aes.encrypt lib random cipher plaintext aad ≡ ok ciphertext
    version : info.version ≡ v

  encrypt-Made :
      (random : ℕ → Option Text) (lock : LockClient) (s : CryptoService lib lru)
      (name plaintext aad ciphertext : Text) (v : ℤ)
      → Free b':' name
      → Sound (lock, s)
      → (encrypt lib lru random lock s name plaintext aad).1 ≡ ok (ciphertext, v)
      → Made random lock name plaintext aad ciphertext v
  unfolding encrypt encrypt_with
  encrypt-Made random lock s name plaintext aad ciphertext v f (a, k) h =
      let (info, given, e) = bind-ok (get_key lib lru lock s name (pos 0)).1 _ (ciphertext, v) h in
      let (cipher, c, e') =
        bind-ok (wrap (new_cipher lib info.key info.version)) _ (ciphertext, v) e in
      let (text, t, e'') =
        bind-ok (wrap (Aes.encrypt lib random cipher plaintext aad)) _ (ciphertext, v) e' in
      record {
        info = info;
        cipher = cipher;
        current = get_key-Current lib lru laws lock s name info f a k given;
        made = wrap-ok _ cipher c;
        sealed = wrap-ok _ ciphertext (t ∙ cc (e''));
        version = cc (e'');
      }

  new_cipher-version :
      (key : Text) (v : ℤ) (cipher : Cipher lib)
      → new_cipher lib key v ≡ ok cipher
      → cipher.version ≡ v
  unfolding new_cipher
  new_cipher-version key v cipher h = ground (arith, h)

  -- Whatever `Decrypt` of the cipher accepts names the version that it returns.
  decrypt-version :
      (cipher : Cipher lib) (ciphertext aad plaintext : Text) (v : ℤ)
      → Aes.decrypt lib cipher ciphertext aad ≡ ok (plaintext, v)
      → (payload : Text) × (parse_ciphertext ciphertext ≡ ok (v, payload))
  unfolding Aes.decrypt
  decrypt-version cipher ciphertext aad plaintext v h =
      let ((v', payload), p, e) = bind-ok (parse_ciphertext ciphertext) _ (plaintext, v) h in
      let (text, t, e') = bind-ok (Aes.decrypt_raw lib cipher payload aad) _ (plaintext, v) e in
      (payload, p ∙ cc (e'))

  module _ (trip : AesTrip.Laws lib) where
    -- The cipher itself opens what it sealed.
    cipher-opens :
        (random : ℕ → Option Text) (cipher : Cipher lib) (b n : ℕ)
        (plaintext aad nonce ciphertext : Text)
        → cipher.version ≡ pos (suc n)
        → n < 2147483647
        → random nonce_size ≡ some nonce
        → length nonce ≡ nonce_size
        → Aes.encrypt lib random cipher (b ∷ plaintext) aad ≡ ok ciphertext
        → Aes.decrypt lib cipher ciphertext aad ≡ ok (b ∷ plaintext, pos (suc n))
    cipher-opens random cipher b n plaintext aad nonce ciphertext v h r l sealed =
        ap (λ t. t >>= λ c. Aes.decrypt lib cipher c aad) (sym sealed)
        ∙ AesTrip.decrypt-encrypt lib trip cipher random (b ∷ plaintext) aad nonce
            (rw v (omega (arith, h))) r l
        ∙ ap (λ i. ok (b ∷ plaintext, i)) v

    decrypt_version-pinned :
        (lock : LockClient) (s : CryptoService lib lru)
        (name ciphertext aad plaintext payload : Text) (n : ℕ) (info : KeyInfo)
        (cipher : Cipher lib)
        → Free b':' name
        → Sound (lock, s)
        → n < 2147483647
        → lock name (pos (suc n)) ≡ some info
        → new_cipher lib info.key info.version ≡ ok cipher
        → Aes.decrypt lib cipher ciphertext aad ≡ ok (plaintext, pos (suc n))
        → (decrypt_version lib lru lock s name ciphertext aad (ok (pos (suc n), payload))).1
          ≡ ok (plaintext, pos (suc n))
    unfolding decrypt_version decrypt_with
    decrypt_version-pinned lock s name ciphertext aad plaintext payload n info cipher f (a, k) h
          answer made opens =
        rw (get_key-pinned lib lru laws lock s name n f h k, answer) (simp made (simp opens refl))

    -- What `Encrypt` returned under some version of a key, `Decrypt` gives back.
    decrypt-Made :
        (random : ℕ → Option Text) (lock lock' : LockClient) (s : CryptoService lib lru)
        (name aad nonce ciphertext plaintext : Text) (b : ℕ) (v : ℤ)
        → Made random lock name (b ∷ plaintext) aad ciphertext v
        → Free b':' name
        → random nonce_size ≡ some nonce
        → length nonce ≡ nonce_size
        → Extends lock lock'
        → Sound (lock', s)
        → (decrypt lib lru lock' s name ciphertext aad).1 ≡ ok (b ∷ plaintext, v)
    unfolding decrypt
    decrypt-Made random lock lock' s name aad nonce ciphertext plaintext b v m f r l x sound =
        let (n, numbered, h, answer) = m.current in
        let opens =
          cipher-opens random m.cipher b n plaintext aad nonce ciphertext
            (new_cipher-version m.info.key m.info.version m.cipher m.made ∙ numbered) h r l
            m.sealed in
        let (payload, parsed) =
          decrypt-version m.cipher ciphertext aad (b ∷ plaintext) (pos (suc n)) opens in
        ap (λ t. (decrypt_version lib lru lock' s name ciphertext aad t).1) parsed
        ∙ decrypt_version-pinned lock' s name ciphertext aad (b ∷ plaintext) payload n m.info
            m.cipher f sound h (x name n m.info answer) m.made opens
        ∙ ap (λ i. ok (b ∷ plaintext, i)) (sym numbered ∙ m.version)

    pub decrypt-encrypt_service :
        (lock : LockClient) (s : CryptoService lib lru) (before after : List Event)
        (random : ℕ → Option Text) (name aad nonce ciphertext plaintext : Text) (b : ℕ) (v : ℤ)
        → new_crypto_service lib lru ≡ some s
        → Answers lib lru laws lock
        → Fine lock before
        → Free b':' name
        → random nonce_size ≡ some nonce
        → length nonce ≡ nonce_size
        → let (lock₁, s₁) = run lib lru (lock, s) before in
          let (s₂, answer) = encrypt lib lru random lock₁ s₁ name (b ∷ plaintext) aad in
          answer ≡ ok (ciphertext, v)
          → Fine lock₁ after
          → let (lock₃, s₃) = run lib lru (lock₁, s₂) after in
            (decrypt lib lru lock₃ s₃ name ciphertext aad).1 ≡ ok (b ∷ plaintext, v)
    decrypt-encrypt_service lock s before after random name aad nonce ciphertext plaintext b v new a
          fb f r l encrypted fa =
        let (sound, x) = run-Sound (lock, s) before fb (a, new-Known lock s new) in
        let (lock₁, s₁) = run lib lru (lock, s) before in
        let made =
          encrypt-Made random lock₁ s₁ name (b ∷ plaintext) aad ciphertext v f sound encrypted in
        let s₂ = (encrypt lib lru random lock₁ s₁ name (b ∷ plaintext) aad).0 in
        let (sound', x') =
          run-Sound (lock₁, s₂) after fa
            (
              sound.0,
              encrypt-Known random lock₁ s₁ name (b ∷ plaintext) aad f (sound.0) (sound.1),
            ) in
        decrypt-Made random lock₁ _ _ name aad nonce ciphertext plaintext b v made f r l x' sound'
