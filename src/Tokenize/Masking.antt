-- ===== src/Tokenize/Masking.antt =====
-- tokenize_service.go, `Mask`. A negative number of preserved bytes is no error there, and slicing
-- a string past its end panics.
use grpc_vault_ha.Prelude.{
  ℕ, zero, suc, ◌-◌, [], ◌++◌, length, take, drop, eqb, if◌then◌else◌, ◌==◌, Result, ok, err, panic,
  ◌>>=◌,
}
use grpc_vault_ha.Prelude.Int.{ℤ, pos, pos_part, ◌+ℤ◌, leb_ℤ, ltb_ℤ, to_int, minus}
use grpc_vault_ha.Prelude.Text.{Text, codes, text_eq}
use grpc_vault_ha.Tokenize.Keys.{Error, invalid_input}

-- The mask character, written n times.
unfoldable pub repeat : ℕ → Text → Text
repeat zero mask_char = []
repeat (suc n) mask_char = mask_char ++ repeat n mask_char

-- `value[:preserveFirst]` if that is positive.
unfoldable pub first_part : Text → ℤ → Result Error Text
first_part value first =
    if ltb_ℤ (pos 0) first
    then (if ltb_ℤ (pos (length value)) first then panic else ok (take (pos_part first) value))
    else ok []

-- `value[len(value)-preserveLast:]` if `preserveLast` is positive.
unfoldable pub last_part : Text → ℤ → Result Error Text
last_part value last =
    if ltb_ℤ (pos 0) last
    then (if ltb_ℤ (pos (length value)) last
        then panic
        else ok (drop (length value - pos_part last) value))
    else ok []

-- `maskLen`, which is no loop at all if it is negative.
unfoldable pub mask_len : ℕ → ℤ → ℕ
mask_len n total_preserve = pos_part (to_int (minus (pos n) total_preserve))

unfoldable pub mask_with : ℤ → Text → ℤ → ℤ → Text → Result Error Text
unfolding repeat first_part last_part mask_len
mask_with total_preserve value preserve_first preserve_last mask_char =
    if leb_ℤ (pos (length value)) total_preserve
    then ok value
    else (first_part value preserve_first >>= λ first. last_part value preserve_last >>= λ last.
        ok (first ++ (repeat (mask_len (length value) total_preserve) mask_char ++ last)))

unfoldable pub mask : Text → ℤ → ℤ → Text → Result Error Text
unfolding mask_with
mask value preserve_first preserve_last mask_char =
    if eqb (length value) 0
    then err invalid_input
    else mask_with (to_int (preserve_first +ℤ preserve_last)) value preserve_first preserve_last
        (if mask_char == [] then codes "*" else mask_char)
