-- ===== src/Jwt/Tests.antt =====
-- Runs of jwt.go with the library of Toy, and the witnesses of its theorems.
use grpc_vault_ha.Prelude.{◌≡◌, refl, none, some, [], ◌∷◌, arith, ok, err, panic}
use grpc_vault_ha.Prelude.Int.{ℤ, pos, ◌+ℤ◌, ◌≤ℤ◌, ◌<ℤ◌}
use grpc_vault_ha.Prelude.Text.{codes, text_eq, text_dec}
use grpc_vault_ha.Jwt.{
  Config, Manager, Claims, numeric_date, new_manager, create_token, validate_token, refresh_token,
  expired_token,
}
use grpc_vault_ha.Jwt.Lifetime.{validate_token-create_token, refresh_token-panic}
use grpc_vault_ha.Jwt.Toy.{toy_jwt, toy_jwt-Laws}

abbrev config : Config toy_jwt
config = record {
  private_key = none;
  issuer = [];
  audience = [];
  default_ttl = pos 0;
  max_ttl = pos 10000000000;
}

abbrev manager : Manager toy_jwt
manager = record {
  private_key = tt;
  public_key = tt;
  issuer = codes "vault-auth";
  audience = codes "vault-platform";
  default_ttl = pos 3600000000000;
  max_ttl = pos 10000000000;
}

made : new_manager toy_jwt (some tt) config ≡ ok manager
unfolding new_manager text_dec
made = refl

-- The default of an hour is over the longest time.
token_made :
    create_token toy_jwt (pos 0) (codes "7") manager (codes "bob") (codes "default" ∷ []) (pos 0) []
    ≡ ok (codes "signed", codes "7", pos 10000000000)
unfolding create_token text_dec
token_made = refl

validate_token-create_token_example :
    (pos 0 <ℤ pos 10000000000)
    × (pos 10000000000 ≤ℤ pos 0 +ℤ pos 10000000000)
    × ((t : ℤ)
        → pos 0 ≤ℤ t
        → t <ℤ numeric_date (pos 10000000000)
        → (c : Claims) × (validate_token toy_jwt t manager (codes "signed") ≡ ok c)
          × (c.identity ≡ codes "bob")
          × (c.policies ≡ codes "default" ∷ [])
          × (c.metadata ≡ [])
          × (c.token_id ≡ codes "7"))
    × ((t : ℤ)
        → pos 0 ≤ℤ t
        → numeric_date (pos 10000000000) ≤ℤ t
        → validate_token toy_jwt t manager (codes "signed") ≡ err expired_token)
validate_token-create_token_example =
    validate_token-create_token toy_jwt toy_jwt-Laws (some tt) config manager (pos 0) (pos 0)
      (codes "7") (codes "bob") (codes "signed") (codes "7") (codes "default" ∷ []) []
      (pos 10000000000) made (omega arith) (omega arith) token_made

refresh_token-panic_example :
    refresh_token toy_jwt (pos 20000000000) (codes "8") manager (codes "signed") (pos 0) ≡ panic
refresh_token-panic_example =
    refresh_token-panic toy_jwt toy_jwt-Laws (some tt) config manager (pos 0) (pos 20000000000)
      (pos 0) (pos 0) (codes "7") (codes "8") (codes "bob") (codes "signed") (codes "7")
      (codes "default" ∷ []) [] (pos 10000000000) made token_made (omega arith)
      (unfold numeric_date in omega arith)
