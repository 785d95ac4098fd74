-- ===== src/Api/Params/Accepted.antt =====
-- Exactly which parameters the validators accept.
use taproot_assets_rest_gate.Prelude.{
  Text, ascii, true, false, [], ◌∷◌, ◌≡◌, ◌↔◌, ◌⊎◌, inl, inr, refl, arith, is_empty, contains,
  starts_with, all, is_hex, length, Bool-cases,
}
use taproot_assets_rest_gate.Error.{ok}
use taproot_assets_rest_gate.Api.Params.{
  has_traversal, validate_hex_param, validate_asset_id, validate_group_key,
}

-- A text of hexadecimal digits does not hold a part with another character in it.
starts_with-hex :
    (part value : Text)
    → all is_hex value ≡ true
    → all is_hex part ≡ false
    → starts_with part value ≡ false
unfolding all starts_with
starts_with-hex [] value h n = ground arith
starts_with-hex (p ∷ ps) [] h n = refl
starts_with-hex (p ∷ ps) (c ∷ cs) h n = ground (arith, starts_with-hex ps cs)

contains-hex :
    (part value : Text)
    → all is_hex value ≡ true
    → all is_hex part ≡ false
    → contains part value ≡ false
unfolding all contains
contains-hex part [] h n = starts_with-hex part [] h n
contains-hex part (c ∷ cs) h n =
    ground (arith, starts_with-hex part (c ∷ cs) h n, contains-hex part cs)

has_traversal-hex : (value : Text) → all is_hex value ≡ true → has_traversal value ≡ is_empty value
unfolding has_traversal all
has_traversal-hex value h = ground (
  arith,
  contains-hex (ascii "/") value h refl,
  contains-hex (ascii "..") value h refl,
  contains-hex (ascii "%2F") value h refl,
  contains-hex (ascii "%2f") value h refl,
  contains-hex (ascii "%2E") value h refl,
  contains-hex (ascii "%2e") value h refl,
)

abbrev pub IsHexParam : Text → Type 0
IsHexParam value = (is_empty value ≡ false) × (all is_hex value ≡ true)

-- Refusing the separators adds nothing: a parameter passes exactly when it is not empty and all
-- its characters are hexadecimal digits.
pub validate_hex_param_iff : (value : Text) → (validate_hex_param value ≡ ok tt) ↔ IsHexParam value
unfolding validate_hex_param
validate_hex_param_iff value = elim (Bool-cases (all is_hex value)) [
  | inl h ↦ ground (arith, has_traversal-hex value h)
  | inr h ↦ ground arith
]

-- An asset ID passes exactly when it has 64 characters, all of them hexadecimal digits.
pub validate_asset_id_iff :
    (value : Text)
    → (validate_asset_id value ≡ ok tt) ↔ ((length value ≡ 64) × (all is_hex value ≡ true))
unfolding validate_asset_id
validate_asset_id_iff value = ground (arith, validate_hex_param_iff value)

-- A group key passes exactly when it has 64 or 66 characters, all of them hexadecimal digits.
pub validate_group_key_iff :
    (value : Text)
    → (validate_group_key value ≡ ok tt)
      ↔ (((length value ≡ 64) ⊎ (length value ≡ 66)) × (all is_hex value ≡ true))
unfolding validate_group_key
validate_group_key_iff value = ground (arith, validate_hex_param_iff value)
