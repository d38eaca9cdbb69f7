-- ===== src/Tokenize/Custom.antt =====
-- tokenize_service.go: the transformations, built in and custom, and the alphabet of a request.
use grpc_vault_ha.Prelude.{
  true, false, ◌||◌, Option, none, some, List, [], ◌++◌, map, if◌then◌else◌, ◌==◌, Result, ok, err,
  or_err,
}
use grpc_vault_ha.Prelude.Text.{Text, text_eq}
use grpc_vault_ha.Prelude.Map.{lookup, insert, erase, values}
use grpc_vault_ha.Cache.Lru.{LruList}
use grpc_vault_ha.Fpe
use grpc_vault_ha.Fpe.Transformations as BuiltIn
use grpc_vault_ha.Tokenize.Keys.{
  KeyInfo, Error, Transformation, TokenizeService, transformation_not_found, invalid_input,
  override_built_in, delete_built_in,
}

-- A built-in transformation under a name.
abbrev pub from_built_in : Text → BuiltIn.Transformation → Transformation
from_built_in name trans = record {
  name = name;
  alphabet = trans.alphabet;
  pattern = trans.pattern;
  description = trans.description;
  built_in = true;
}

module _ (lru : LruList Text KeyInfo) where
  unfoldable pub alphabet_of :
      TokenizeService lru → Text → Option BuiltIn.Transformation → Result Error Text
  alphabet_of s name (some trans) = ok trans.alphabet
  alphabet_of s name none = elim (lookup name s.custom) [
    | some trans ↦ ok trans.alphabet
    | none ↦ err transformation_not_found
  ]

  unfoldable pub get_alphabet : TokenizeService lru → Text → Text → Result Error Text
  unfolding alphabet_of
  get_alphabet s transformation custom_alphabet =
      if custom_alphabet == []
      then (if transformation == []
          then ok BuiltIn.alphabet_numeric
          else alphabet_of s transformation (Fpe.get_transformation transformation))
      else ok custom_alphabet

  unfoldable pub list_transformations : TokenizeService lru → List Transformation
  list_transformations s =
      map (λ (name, trans). from_built_in name trans) BuiltIn.built_in_transformations
      ++ values s.custom

  unfoldable pub create_new :
      TokenizeService lru
      → Transformation
      → Option BuiltIn.Transformation
      → TokenizeService lru × Result Error Transformation
  create_new s trans (some _) = (s, err override_built_in)
  create_new s trans none = (record s { custom = insert trans.name trans s.custom }, ok trans)

  unfoldable pub create_transformation :
      TokenizeService lru
      → Text
      → Text
      → Text
      → Text
      → TokenizeService lru × Result Error Transformation
  unfolding create_new
  create_transformation s name alphabet pattern description =
      if (name == []) || (alphabet == [])
      then (s, err invalid_input)
      else create_new s
          (record {
            name = name;
            alphabet = alphabet;
            pattern = pattern;
            description = description;
            built_in = false;
          })
          (Fpe.get_transformation name)

  unfoldable pub found :
      TokenizeService lru → Text → Option BuiltIn.Transformation → Result Error Transformation
  found s name (some trans) = ok (from_built_in name trans)
  found s name none = or_err (lookup name s.custom) transformation_not_found

  unfoldable pub get_transformation : TokenizeService lru → Text → Result Error Transformation
  unfolding found
  get_transformation s name = found s name (Fpe.get_transformation name)

  unfoldable pub delete_custom :
      TokenizeService lru
      → Text
      → Option BuiltIn.Transformation
      → Option Transformation
      → TokenizeService lru × Option Error
  delete_custom s name (some _) there = (s, some delete_built_in)
  delete_custom s name none none = (s, some transformation_not_found)
  delete_custom s name none (some _) = (record s { custom = erase name s.custom }, none)

  unfoldable pub delete_transformation :
      TokenizeService lru → Text → TokenizeService lru × Option Error
  unfolding delete_custom
  delete_transformation s name =
      delete_custom s name (Fpe.get_transformation name) (lookup name s.custom)
