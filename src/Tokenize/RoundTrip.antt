-- ===== src/Tokenize/RoundTrip.antt =====
-- tokenize_service.go, `FPEEncrypt` and `FPEDecrypt`, with whatever the service does in between.
use grpc_vault_ha.Prelude.{
  bind-ok, ◌≡◌, refl, sym, ap, ◌∙◌, or_err-ok, length, true, if◌then◌else◌, Option, none, some,
  List, Result, ok, err, panic,
}
use grpc_vault_ha.Prelude.Int.{ℤ, pos}
use grpc_vault_ha.Prelude.Text.{Text, text_eq}
use grpc_vault_ha.Cache.Lru.{LruList, Laws}
use grpc_vault_ha.Fpe
use grpc_vault_ha.Fpe.RoundTrip as FpeTrip
use grpc_vault_ha.Fpe.RoundTrip.{Covers, decrypt-encrypt_fpe}
use grpc_vault_ha.Fpe.Transformations as BuiltIn
use grpc_vault_ha.Fpe.{
  Ff1, Cipher, encrypt_with_tweak, decrypt_with_tweak, validate_string, invalid_plaintext,
}
use grpc_vault_ha.Tokenize.Keys.{
  Error, KeyInfo, LockClient, TokenizeService, encryption_failed, key_not_found,
}
use grpc_vault_ha.Tokenize.{
  wrap, or_failed, get_key, new_cipher, encrypt_value, decrypt_value, encrypt_with, decrypt_with,
  fpe_encrypt, fpe_decrypt,
}
use grpc_vault_ha.Tokenize.Custom.{get_alphabet, alphabet_of}
use grpc_vault_ha.Tokenize.Consistent.{Consistent, get_key-answer, get_key-custom}
use grpc_vault_ha.Tokenize.Calls.{Call, encrypts, step, run, step-Consistent, run-Consistent}

or_failed-ok :
    {A : Type 0} (e : Error) (r : Result Fpe.Error A) (a : A) → or_failed e r ≡ ok a → r ≡ ok a
or_failed-ok e (ok b) a h = cc
or_failed-ok e (err x) a h = cc
or_failed-ok e panic a h = cc

wrap-ok : {A : Type 0} (r : Result Fpe.Error A) (a : A) → wrap r ≡ ok a → r ≡ ok a
wrap-ok (ok b) a h = cc
wrap-ok (err x) a h = cc
wrap-ok panic a h = cc

ok-eq : (r t : Text) → ◌≡◌ {A = Result Error Text} (ok r) (ok t) → r ≡ t
ok-eq r t e = cc

ok-pair :
    (r t : Text) (u v : ℤ)
    → ◌≡◌ {A = Result Error (Text × ℤ)} (ok (r, u)) (ok (t, v))
    → (r ≡ t) × (u ≡ v)
ok-pair r t u v e = (cc, cc)

module _ (ff1 : Ff1) where
  encrypt_value-tweak :
      (c : Cipher ff1) (value : Text) (tweak : Option Text)
      → encrypt_value ff1 c value tweak ≡ encrypt_with_tweak ff1 c value tweak
  encrypt_value-tweak c value none = unfold encrypt_value Fpe.encrypt in refl
  encrypt_value-tweak c value (some tweak) = unfold encrypt_value in refl

  decrypt_value-tweak :
      (c : Cipher ff1) (value : Text) (tweak : Option Text)
      → decrypt_value ff1 c value tweak ≡ decrypt_with_tweak ff1 c value tweak
  decrypt_value-tweak c value none = unfold decrypt_value Fpe.decrypt in refl
  decrypt_value-tweak c value (some tweak) = unfold decrypt_value in refl

  encrypt_with-ok :
      (lru : LruList Text KeyInfo) (s : TokenizeService lru) (info : KeyInfo)
      (value transformation custom t : Text) (tweak : Option Text) (v : ℤ)
      → encrypt_with ff1 lru s info value transformation custom tweak ≡ ok (t, v)
      → (alphabet : Text) × (c : Cipher ff1) × (get_alphabet lru s transformation custom
          ≡ ok alphabet)
        × (Fpe.new_cipher ff1 info.key alphabet ≡ ok c)
        × (encrypt_with_tweak ff1 c value tweak ≡ ok t)
        × (v ≡ info.version)
  unfolding encrypt_with new_cipher
  encrypt_with-ok lru s info value transformation custom t tweak v h =
      let (alphabet, a, h1) = bind-ok (get_alphabet lru s transformation custom) _ _ h in
      let (c, b, h2) = bind-ok (wrap (Fpe.new_cipher ff1 info.key alphabet)) _ _ h1 in
      let (r, d, h3) =
        bind-ok (or_failed encryption_failed (encrypt_value ff1 c value tweak)) _ _ h2 in
      let (texts, versions) = ok-pair r t info.version v h3 in
      (
        alphabet,
        c,
        a,
        wrap-ok _ c b,
        sym (encrypt_value-tweak c value tweak)
            ∙ or_failed-ok encryption_failed _ t (d ∙ ap ok texts),
        sym versions,
      )

  decrypt_with-ok :
      (lru : LruList Text KeyInfo) (s : TokenizeService lru) (info : KeyInfo)
      (value transformation custom t alphabet : Text) (tweak : Option Text) (c : Cipher ff1)
      → get_alphabet lru s transformation custom ≡ ok alphabet
      → Fpe.new_cipher ff1 info.key alphabet ≡ ok c
      → decrypt_with_tweak ff1 c t tweak ≡ ok value
      → decrypt_with ff1 lru s info t transformation custom tweak ≡ ok (value, info.version)
  unfolding decrypt_with new_cipher
  decrypt_with-ok lru s info value transformation custom t alphabet tweak c a b d =
      rw (a, b, decrypt_value-tweak c t tweak, d) refl

module _ (ff1 : Ff1) (lru : LruList Text KeyInfo) (laws : Laws Text KeyInfo lru)
    (lock : LockClient) where
  alphabet_of-custom :
      (s s' : TokenizeService lru) (name : Text) (o : Option BuiltIn.Transformation)
      → s.custom ≡ s'.custom
      → alphabet_of lru s name o ≡ alphabet_of lru s' name o
  unfolding alphabet_of
  alphabet_of-custom s s' name none e = rw e refl
  alphabet_of-custom s s' name (some b) e = refl

  get_alphabet-custom :
      (s s' : TokenizeService lru) (transformation custom : Text)
      → s.custom ≡ s'.custom
      → get_alphabet lru s transformation custom ≡ get_alphabet lru s' transformation custom
  unfolding get_alphabet
  get_alphabet-custom s s' transformation custom e =
      rw (alphabet_of-custom s s' transformation (Fpe.get_transformation transformation) e) refl

  -- What `FPEEncrypt` and `FPEDecrypt` do, in terms of the key that the lock service has.
  encrypt_inv :
      (s : TokenizeService lru) (name value transformation custom t : Text) (tweak : Option Text)
      (v : ℤ)
      → Consistent lru lock s
      → (fpe_encrypt ff1 lru lock s name value transformation custom tweak).1 ≡ ok (t, v)
      → (info : KeyInfo) × (lock name (pos 0) ≡ some info)
        × (encrypt_with ff1 lru s info value transformation custom tweak ≡ ok (t, v))
  unfolding fpe_encrypt
  encrypt_inv s name value transformation custom t tweak v k h =
      let (info, a, b) = bind-ok (get_key ff1 lru lock s name).1 _ _ h in
      (
        info,
        or_err-ok (lock name (pos 0)) key_not_found info
            (sym (get_key-answer ff1 lru laws lock s name k) ∙ a),
        same_encryption info ∙ b,
      )
    where
      same_encryption :
          (info : KeyInfo)
          → encrypt_with ff1 lru s info value transformation custom tweak
            ≡ encrypt_with ff1 lru
                (get_key ff1 lru lock s name).0
                info
                value
                transformation
                custom
                tweak
      same_encryption info =
          unfold encrypt_with in
          rw
            (get_alphabet-custom s (get_key ff1 lru lock s name).0 transformation custom
              (sym (get_key-custom ff1 lru lock s name)))
            refl

  decrypt_lem :
      (s : TokenizeService lru) (name value transformation custom t : Text) (tweak : Option Text)
      (info : KeyInfo)
      → Consistent lru lock s
      → lock name (pos 0) ≡ some info
      → (fpe_decrypt ff1 lru lock s name t transformation custom tweak).1
        ≡ decrypt_with ff1 lru (get_key ff1 lru lock s name).0 info t transformation custom tweak
  unfolding fpe_decrypt
  decrypt_lem s name value transformation custom t tweak info k e =
      rw (get_key-answer ff1 lru laws lock s name k, e) refl

  decrypted_later :
      (s : TokenizeService lru) (name value transformation custom alphabet t : Text)
      (tweak : Option Text) (info : KeyInfo) (c : Cipher ff1)
      → Consistent lru lock s
      → lock name (pos 0) ≡ some info
      → get_alphabet lru s transformation custom ≡ ok alphabet
      → Fpe.new_cipher ff1 info.key alphabet ≡ ok c
      → decrypt_with_tweak ff1 c t tweak
        ≡ (if validate_string ff1 c t then ok value else err invalid_plaintext)
      → validate_string ff1 c t ≡ true
      → (fpe_decrypt ff1 lru lock s name t transformation custom tweak).1 ≡ ok (value, info.version)
  decrypted_later s name value transformation custom alphabet t tweak info c k e a new checked
        valid =
      decrypt_lem s name value transformation custom t tweak info k e
      ∙ decrypt_with-ok ff1 lru (get_key ff1 lru lock s name).0 info value transformation custom t
          alphabet tweak c
          (get_alphabet-custom (get_key ff1 lru lock s name).0 s transformation custom
              (get_key-custom ff1 lru lock s name)
            ∙ a)
          new (checked ∙ simp valid)

  encrypted-Consistent :
      (s : TokenizeService lru) (calls : List (Call lru)) (name value transformation custom : Text)
      (tweak : Option Text)
      → Consistent lru lock s
      → Consistent lru lock (
          run ff1 lru lock
            (fpe_encrypt ff1 lru lock s name value transformation custom tweak).0
            calls)
  encrypted-Consistent s calls name value transformation custom tweak k =
      run-Consistent ff1 lru laws lock _ calls (
        unfold step in
        step-Consistent ff1 lru laws lock s (encrypts name value transformation custom tweak) k)

  -- As long as the lock service has the same latest version of each key, and whatever the service
  -- does in between: what `FPEEncrypt` returns has the length of the plaintext, and `FPEDecrypt`
  -- returns the plaintext and the same version for it. The transformation has the alphabet that it
  -- had, and the alphabet has every digit of its radix.
  pub fpe_decrypt-fpe_encrypt :
      FpeTrip.Laws ff1
      → (s : TokenizeService lru) (calls : List (Call lru))
        (name value transformation custom alphabet t : Text) (tweak : Option Text) (v : ℤ)
      → Consistent lru lock s
      → get_alphabet lru s transformation custom ≡ ok alphabet
      → Covers alphabet
      → (fpe_encrypt ff1 lru lock s name value transformation custom tweak).1 ≡ ok (t, v)
      → get_alphabet lru
          (run ff1 lru lock
            (fpe_encrypt ff1 lru lock s name value transformation custom tweak).0
            calls)
          transformation
          custom
        ≡ ok alphabet
      → (length t ≡ length value)
        × ((fpe_decrypt ff1 lru lock
              (run ff1 lru lock
                (fpe_encrypt ff1 lru lock s name value transformation custom tweak).0
                calls)
              name
              t
              transformation
              custom
              tweak).1
            ≡ ok (value, v))
  fpe_decrypt-fpe_encrypt ff1_laws s calls name value transformation custom alphabet t tweak v k a
        covers h a' =
      let (info, e, w) = encrypt_inv s name value transformation custom t tweak v k h in
      let (letters, c, b, new, enc, version) =
        encrypt_with-ok ff1 lru s info value transformation custom t tweak v w in
      let key =
        ap (λ x. Fpe.new_cipher ff1 info.key x) (ok-eq alphabet letters (sym a ∙ b)) ∙ new in
      let (kept, checked, valid) =
        decrypt-encrypt_fpe ff1 ff1_laws info.key alphabet c value t tweak key enc in
      (
        kept,
        decrypted_later
              (run ff1 lru lock
                (fpe_encrypt ff1 lru lock s name value transformation custom tweak).0 calls)
              name value transformation custom alphabet t tweak info c
              (encrypted-Consistent s calls name value transformation custom tweak k) e a' key
              checked (valid covers)
            ∙ ap (λ u. ok (value, u)) (sym version),
      )
