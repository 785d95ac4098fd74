-- ===== src/Api/Params.antt =====
-- The validators of path parameters in src/api/mod.rs.
pub mod Accepted
use taproot_assets_rest_gate.Prelude.{
  ℕ, ◌^◌, ◌*◌, ◌+◌, ◌-◌, Text, ascii, Bool, true, false, not, ◌||◌, ◌&&◌, Option, none, some, List,
  [], ◌∷◌, ◌++◌, if◌then◌else◌, is_empty, contains, all, any, is_hex, is_digit, length, ◌==◌,
  nat_key, ltb,
}
use taproot_assets_rest_gate.Error.{Result, ok, err, AppError, invalid_input, ◌>>=◌, ◌>>◌}
use taproot_assets_rest_gate.Prelude.Decimal.{decimal}

-- The separators and their escapes, which both validators refuse.
unfoldable pub has_traversal : Text → Bool
has_traversal value =
    is_empty value
    || contains (ascii "/") value
    || contains (ascii "..") value
    || contains (ascii "%2F") value
    || contains (ascii "%2f") value
    || contains (ascii "%2E") value
    || contains (ascii "%2e") value

abbrev pub invalid_path : Text → AppError
invalid_path value = invalid_input (ascii "Invalid path parameter: " ++ value)

unfoldable pub validate_hex_param : Text → Result (Unit {0})
validate_hex_param value =
    if has_traversal value || not (all is_hex value) then err (invalid_path value) else ok tt

unfoldable pub validate_path_param : Text → Result (Unit {0})
validate_path_param value = if has_traversal value then err (invalid_path value) else ok tt

abbrev pub asset_id_hex_len : ℕ
asset_id_hex_len = 64

abbrev pub group_key_hex_lens : List ℕ
group_key_hex_lens = 64 ∷ 66 ∷ []

abbrev pub invalid_asset_id : Text → AppError
invalid_asset_id value =
    invalid_input
      (ascii "Invalid asset ID: expected 64 hex characters, got " ++ decimal (length value))

abbrev pub invalid_group_key : Text → AppError
invalid_group_key value =
    invalid_input
      (ascii "Invalid group key: expected 64 or 66 hex characters, got " ++ decimal (length value))

unfoldable pub validate_asset_id : Text → Result (Unit {0})
validate_asset_id value = do
  validate_hex_param value
  if not (length value == asset_id_hex_len) then err (invalid_asset_id value) else ok tt

unfoldable pub validate_group_key : Text → Result (Unit {0})
unfolding any
validate_group_key value = do
  validate_hex_param value
  if not (any (λ n. n == length value) group_key_hex_lens)
      then err (invalid_group_key value)
      else ok tt

-- `str::parse::<u64>` after an optional sign: at least one digit, digits only, below 2^64.
unfoldable pub parse_digits : ℕ → Text → Option ℕ
parse_digits acc [] = some acc
parse_digits acc (c ∷ cs) =
    let more = parse_digits (acc * 10 + (c - b'0')) cs in
    if is_digit c && ltb (acc * 10 + (c - b'0')) (2 ^ 64) then more else none

unfoldable pub parse_u64 : Text → Option ℕ
unfolding parse_digits
parse_u64 [] = none
parse_u64 (c ∷ cs) =
    if c == b'+' then (if is_empty cs then none else parse_digits 0 cs) else parse_digits 0 (c ∷ cs)

unfoldable pub validate_integer_param : Text → Result (Unit {0})
unfolding parse_u64
validate_integer_param value = elim (parse_u64 value) [
  | none ↦ err (invalid_input (ascii "Invalid integer parameter: " ++ value))
  | some n ↦ ok tt
]
