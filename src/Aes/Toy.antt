-- ===== src/Aes/Toy.antt =====
-- A concrete library that keeps the documented laws, for the witnesses: it seals by one byte in
-- front, and its text encoding steps over the colon.
use grpc_vault_ha.Prelude.{
  ℕ, ◌+◌, ◌-◌, ◌≡◌, refl, ap, Option, none, some, [], ◌∷◌, map, arith, ltb, if◌then◌else◌,
}
use grpc_vault_ha.Prelude.Text.{Text}
use grpc_vault_ha.Strings.Split.{Free}
use grpc_vault_ha.Aes.{Library}
use grpc_vault_ha.Aes.RoundTrip.{Laws}

abbrev shift : ℕ → ℕ
shift b = if ltb b 58 then b else b + 1

abbrev unshift : ℕ → ℕ
unshift b = if ltb b 58 then b else b - 1

abbrev toy_open : Text → Option Text
toy_open [] = none
toy_open (b ∷ s) = some s

abbrev pub toy : Library
toy = record {
  Block = Unit {0};
  Aead = Unit {0};
  new_block = λ key. some tt;
  new_gcm = λ block. some tt;
  seal = λ a nonce plaintext aad. 0 ∷ plaintext;
  open_sealed = λ a nonce ciphertext aad. toy_open ciphertext;
  overhead = λ a. 1;
  encode = map shift;
  decode = λ s. some (map unshift s);
}

map-unshift : (s : Text) → map unshift (map shift s) ≡ s
map-unshift [] = refl
map-unshift (b ∷ s) = ground (arith, map-unshift s)

map-shift-Free : (s : Text) → Free 58 (map shift s)
map-shift-Free [] = tt
map-shift-Free (b ∷ s) = (ground arith, map-shift-Free s)

pub toy-Laws : Laws toy
toy-Laws = record {
  open-seal = λ a nonce plaintext aad h. refl;
  length-seal = λ a nonce plaintext aad. omega arith;
  decode-encode = λ b. ap some (map-unshift b);
  encode-Free = map-shift-Free;
}
