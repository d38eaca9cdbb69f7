-- ===== src/Tokenize/Names.antt =====
-- tokenize_service.go: the custom transformations over all operations on them.
use mathlib.Core.List.{Memᴰ}
use mathlib.Core.List.Memᴰ
use grpc_vault_ha.Prelude.{
  ◌≡◌, ◌≢◌, ◌⊎◌, ◌↔◌, inl, inr, refl, sym, ap, subst, false, Option, none, some, List, [], ◌∷◌, All,
  arith, map, ok, Option-cases,
}
use grpc_vault_ha.Prelude.Text.{Text, text_eq, text_dec}
use grpc_vault_ha.Prelude.Map.{values, lookup}
use grpc_vault_ha.Cache.Lru.{LruList}
use grpc_vault_ha.Fpe
use grpc_vault_ha.Fpe.Transformations as BuiltIn
use grpc_vault_ha.Tokenize.Keys.{KeyInfo, Transformation, TokenizeService}
use grpc_vault_ha.Tokenize.Custom.{
  from_built_in, get_transformation, found, list_transformations, create_transformation, create_new,
  delete_transformation, delete_custom,
}
use grpc_vault_ha.Tokenize.Entries.{
  Entries, insert-Entries, erase-Entries, lookup-Mem, Mem-Sound, listed_custom, Mem-lookup,
  Mem-values, All-Mem,
}

module _ (lru : LruList Text KeyInfo) where
  abbrev pub IsValid : TokenizeService lru → Type 0
  IsValid s = Entries s.custom

  pub data Change : Type 0 where
    creates : Text → Text → Text → Text → Change
    deletes : Text → Change

  unfoldable pub change : TokenizeService lru → Change → TokenizeService lru
  change s (creates name alphabet pattern description) =
      (create_transformation lru s name alphabet pattern description).0
  change s (deletes name) = (delete_transformation lru s name).0

  unfoldable pub changes : TokenizeService lru → List Change → TokenizeService lru
  unfolding change
  changes s [] = s
  changes s (c ∷ cs) = changes (change s c) cs

  create_new-IsValid :
      (s : TokenizeService lru) (t : Transformation) (o : Option BuiltIn.Transformation)
      → Fpe.get_transformation t.name ≡ o
      → IsValid s
      → t.name ≢ []
      → t.alphabet ≢ []
      → t.built_in ≡ false
      → IsValid (create_new lru s t o).0
  unfolding create_new
  create_new-IsValid s t (some b) e v named lettered custom = v
  create_new-IsValid s t none e v named lettered custom =
      insert-Entries t.name t s.custom (refl, custom, lettered, named, e) v

  delete_custom-IsValid :
      (s : TokenizeService lru) (name : Text) (o : Option BuiltIn.Transformation)
      (there : Option Transformation)
      → IsValid s
      → IsValid (delete_custom lru s name o there).0
  unfolding delete_custom
  delete_custom-IsValid s name (some b) there v = v
  delete_custom-IsValid s name none none v = v
  delete_custom-IsValid s name none (some t) v = erase-Entries name s.custom v

  abbrev draft : Text → Text → Text → Text → Transformation
  draft name alphabet pattern description = record {
    name = name;
    alphabet = alphabet;
    pattern = pattern;
    description = description;
    built_in = false;
  }

  create_cases :
      (s : TokenizeService lru) (name alphabet pattern description : Text)
      → ((create_transformation lru s name alphabet pattern description).0 ≡ s)
        ⊎ ((name ≢ [])
            × (alphabet ≢ [])
            × (create_transformation lru s name alphabet pattern description
                ≡ create_new lru s
                    (draft name alphabet pattern description)
                    (Fpe.get_transformation name)))
  unfolding create_transformation
  create_cases s name alphabet pattern description = elim (text_eq.dec name []) [
    | yes unnamed ↦ inl (ground (arith, unnamed))
    | no named ↦ elim (text_eq.dec alphabet []) [
      | yes bare ↦ inl (ground (arith, bare))
      | no lettered ↦ inr (named, lettered, ground (arith, named, lettered))
    ]
  ]

  change-IsValid : (s : TokenizeService lru) (c : Change) → IsValid s → IsValid (change s c)
  unfolding change
  change-IsValid s (creates name alphabet pattern description) v =
      elim (create_cases s name alphabet pattern description) [
        | inl same ↦ rw same v
        | inr (named, lettered, e) ↦ rw (ap (λ r. r.0) e) (
            create_new-IsValid s (draft name alphabet pattern description)
              (Fpe.get_transformation name) refl v named lettered refl)
      ]
  change-IsValid s (deletes name) v =
      unfold delete_transformation in
      delete_custom-IsValid s name (Fpe.get_transformation name) (lookup name s.custom) v

  SameKeys : TokenizeService lru → TokenizeService lru → Type 0
  SameKeys s' s = (s'.key_cache ≡ s.key_cache) × (s'.connected ≡ s.connected)

  create_new-keys :
      (s : TokenizeService lru) (t : Transformation) (o : Option BuiltIn.Transformation)
      → SameKeys (create_new lru s t o).0 s
  unfolding create_new SameKeys
  create_new-keys s t (some b) = (refl, refl)
  create_new-keys s t none = (refl, refl)

  delete_custom-keys :
      (s : TokenizeService lru) (name : Text) (o : Option BuiltIn.Transformation)
      (there : Option Transformation)
      → SameKeys (delete_custom lru s name o there).0 s
  unfolding delete_custom SameKeys
  delete_custom-keys s name (some b) there = (refl, refl)
  delete_custom-keys s name none none = (refl, refl)
  delete_custom-keys s name none (some t) = (refl, refl)

  -- The keys are left alone.
  pub change-keys :
      (s : TokenizeService lru) (c : Change)
      → ((change s c).key_cache ≡ s.key_cache) × ((change s c).connected ≡ s.connected)
  unfolding change SameKeys
  change-keys s (creates name alphabet pattern description) =
      elim (create_cases s name alphabet pattern description) [
        | inl same ↦ rw same (refl, refl)
        | inr (named, lettered, e) ↦ rw (ap (λ r. r.0) e) (
            create_new-keys s (draft name alphabet pattern description)
              (Fpe.get_transformation name))
      ]
  change-keys s (deletes name) =
      unfold delete_transformation in
      delete_custom-keys s name (Fpe.get_transformation name) (lookup name s.custom)

  changes-IsValid :
      (s : TokenizeService lru) (cs : List Change) → IsValid s → IsValid (changes s cs)
  unfolding changes
  changes-IsValid s [] v = v
  changes-IsValid s (c ∷ cs) v = changes-IsValid (change s c) cs (change-IsValid s c v)

  found-none :
      (s : TokenizeService lru) (name : Text) (t : Transformation)
      (o : Option BuiltIn.Transformation)
      → o ≡ none
      → lookup name s.custom ≡ some t
      → found lru s name o ≡ ok t
  unfolding found
  found-none s name t o e h = rw (e, h) refl

  found-some :
      (s : TokenizeService lru) (name : Text) (b : BuiltIn.Transformation)
      (o : Option BuiltIn.Transformation)
      → o ≡ some b
      → found lru s name o ≡ ok (from_built_in name b)
  unfolding found
  found-some s name b o e = rw e refl

  abbrev renamed : Text × BuiltIn.Transformation → Transformation
  renamed p = from_built_in p.0 p.1

  known : All (λ p. Fpe.get_transformation p.0 ≡ some p.1) BuiltIn.built_in_transformations
  unfolding Fpe.get_transformation lookup text_dec
  known = (refl, (refl, (refl, (refl, (refl, (refl, (refl, tt)))))))

  found_custom :
      (s : TokenizeService lru) (t : Transformation)
      → Entries s.custom
      → Memᴰ t (values s.custom)
      → get_transformation lru s t.name ≡ ok t
  unfolding get_transformation
  found_custom s t v d =
      let entry = listed_custom t s.custom v d in
      found-none s t.name t (Fpe.get_transformation t.name) (Mem-Sound t.name t s.custom v entry).4
        (Mem-lookup t.name t s.custom v entry)

  found_built_in :
      (s : TokenizeService lru) (t : Transformation)
      → (p : Text × BuiltIn.Transformation) × Memᴰ p BuiltIn.built_in_transformations
        × (renamed p ≡ t)
      → get_transformation lru s t.name ≡ ok t
  unfolding get_transformation
  found_built_in s t (p, d, e) = rw (← e) (
      found-some s p.0 p.1 (Fpe.get_transformation p.0) (
        All-Mem (λ q. Fpe.get_transformation q.0 ≡ some q.1) p BuiltIn.built_in_transformations
          known d))

  found-none_inv :
      (s : TokenizeService lru) (t : Transformation) (o : Option BuiltIn.Transformation)
      → o ≡ none
      → found lru s t.name o ≡ ok t
      → lookup t.name s.custom ≡ some t
  unfolding found
  found-none_inv s t o e h = ground (arith, e, h)

  found-some_inv :
      (s : TokenizeService lru) (t : Transformation) (b : BuiltIn.Transformation)
      (o : Option BuiltIn.Transformation)
      → o ≡ some b
      → found lru s t.name o ≡ ok t
      → t ≡ renamed (t.name, b)
  unfolding found
  found-some_inv s t b o e h = ground (arith, e, h)

  built_in_listed :
      (t : Transformation) (b : BuiltIn.Transformation)
      → Fpe.get_transformation t.name ≡ some b
      → t ≡ renamed (t.name, b)
      → Memᴰ t (map renamed BuiltIn.built_in_transformations)
  built_in_listed t b taken e =
      subst (λ u. Memᴰ u (map renamed BuiltIn.built_in_transformations)) (sym e)
        (Memᴰ.map renamed (
          lookup-Mem t.name b BuiltIn.built_in_transformations
            (unfold Fpe.get_transformation in taken)))

  listed_found :
      (s : TokenizeService lru) (t : Transformation)
      → IsValid s
      → Memᴰ t (list_transformations lru s)
      → get_transformation lru s t.name ≡ ok t
  unfolding list_transformations
  listed_found s t v d = elim (Memᴰ.append_cases (map renamed BuiltIn.built_in_transformations) d) [
    | inl built ↦ found_built_in s t (Memᴰ.of_map renamed BuiltIn.built_in_transformations built)
    | inr custom ↦ found_custom s t v custom
  ]

  found_listed :
      (s : TokenizeService lru) (t : Transformation)
      → get_transformation lru s t.name ≡ ok t
      → Memᴰ t (list_transformations lru s)
  unfolding list_transformations get_transformation
  found_listed s t h = elim (Option-cases (Fpe.get_transformation t.name)) [
    | inl free ↦ Memᴰ.append_right (map renamed BuiltIn.built_in_transformations) (
        Mem-values t.name t s.custom (
          lookup-Mem t.name t s.custom (found-none_inv s t (Fpe.get_transformation t.name) free h)))
    | inr (b, taken) ↦
        Memᴰ.append_left (values s.custom)
          (built_in_listed t b taken (found-some_inv s t b (Fpe.get_transformation t.name) taken h))
  ]

  -- Whatever custom transformations are created and deleted: the service keeps entries under their
  -- own names, one for a name, with an alphabet, and none with the name of a built-in one. So what
  -- `ListTransformations` lists is what `GetTransformation` finds under the name of each.
  pub get_transformation-Listed :
      (s : TokenizeService lru) (cs : List Change)
      → IsValid s
      → IsValid (changes s cs)
        × ((t : Transformation)
            → Memᴰ t (list_transformations lru (changes s cs))
              ↔ (get_transformation lru (changes s cs) t.name ≡ ok t))
  get_transformation-Listed s cs v = (
    changes-IsValid s cs v,
    λ t. (listed_found (changes s cs) t (changes-IsValid s cs v), found_listed (changes s cs) t),
  )
