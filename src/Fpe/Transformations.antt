-- ===== src/Fpe/Transformations.antt =====
-- ff1.go: the alphabets and the built-in transformations.
use grpc_vault_ha.Prelude.{[], ◌∷◌, ◌++◌}
use grpc_vault_ha.Prelude.Text.{Text, codes}
use grpc_vault_ha.Prelude.Map.{Map}

abbrev pub alphabet_numeric : Text
alphabet_numeric = codes "0123456789"

abbrev pub alphabet_alpha_lower : Text
alphabet_alpha_lower = codes "abcdefghijklmnopqrstuvwxyz"

abbrev pub alphabet_alpha_upper : Text
alphabet_alpha_upper = codes "ABCDEFGHIJKLMNOPQRSTUVWXYZ"

abbrev pub alphabet_alphanumeric : Text
alphabet_alphanumeric = alphabet_numeric ++ (alphabet_alpha_lower ++ alphabet_alpha_upper)

pub record Transformation : Type 0 where
  pub name : Text
  pub alphabet : Text
  pub pattern : Text
  pub description : Text

abbrev pub built_in_transformations : Map Text Transformation
built_in_transformations =
    (
      codes "credit-card",
      record {
        name = codes "credit-card";
        alphabet = alphabet_numeric;
        pattern = codes "^[0-9]{13,19}$";
        description = codes "Credit card numbers (13-19 digits)";
      },
    )
    ∷ (
      codes "ssn",
      record {
        name = codes "ssn";
        alphabet = alphabet_numeric;
        pattern = codes "^[0-9]{9}$";
        description = codes "Social Security Number (9 digits)";
      },
    )
    ∷ (
      codes "phone",
      record {
        name = codes "phone";
        alphabet = alphabet_numeric;
        pattern = codes "^[0-9]{10,15}$";
        description = codes "Phone numbers (10-15 digits)";
      },
    )
    ∷ (
      codes "numeric",
      record {
        name = codes "numeric";
        alphabet = alphabet_numeric;
        pattern = codes "^[0-9]+$";
        description = codes "Any numeric string";
      },
    )
    ∷ (
      codes "alpha-lower",
      record {
        name = codes "alpha-lower";
        alphabet = alphabet_alpha_lower;
        pattern = codes "^[a-z]+$";
        description = codes "Lowercase letters only";
      },
    )
    ∷ (
      codes "alpha-upper",
      record {
        name = codes "alpha-upper";
        alphabet = alphabet_alpha_upper;
        pattern = codes "^[A-Z]+$";
        description = codes "Uppercase letters only";
      },
    )
    ∷ (
      codes "alphanumeric",
      record {
        name = codes "alphanumeric";
        alphabet = alphabet_alphanumeric;
        pattern = codes "^[a-zA-Z0-9]+$";
        description = codes "Letters and numbers";
      },
    )
    ∷ []
