-- ===== src/Acl/Actions.antt =====
-- policy.go, `ActionToCapability`. Of `strings.ToLower` only what an ASCII word can come from
-- matters: the capital letters, and the code points U+0130 and U+212A, which become i and k.
use grpc_vault_ha.Prelude.{ℕ, ◌+◌, ◌&&◌, ◌||◌, map, leb, eqb, if◌then◌else◌, ◌==◌}
use grpc_vault_ha.Prelude.Text.{Text, codes, text_eq}
use grpc_vault_ha.Strings.Utf8.{runes}

abbrev lower_rune : ℕ → ℕ
lower_rune r =
    if leb b'A' r && leb r b'Z'
    then r + 32
    else if eqb r 304
    then b'i'
    else if eqb r 8490
    then b'k'
    else r

unfoldable pub action_to_capability : Text → Text
action_to_capability action =
    let word = map lower_rune (runes action) in
    if word == codes "create" || word == codes "post"
    then codes "create"
    else if word == codes "read" || word == codes "get"
    then codes "read"
    else if word == codes "update" || word == codes "put" || word == codes "patch"
    then codes "update"
    else if word == codes "delete"
    then codes "delete"
    else if word == codes "list"
    then codes "list"
    else action
