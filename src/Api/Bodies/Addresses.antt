-- ===== src/Api/Bodies/Addresses.antt =====
-- src/api/addresses.rs: addresses, and the request for a new one with its validation.
use taproot_assets_rest_gate.Prelude.{
  ℕ, ◌-◌, ◌^◌, Text, ascii, Bool, Option, none, some, [], ◌∷◌, ◌++◌, if◌then◌else◌, is_empty, trim,
  leb, ◌==◌, nat_key,
}
use taproot_assets_rest_gate.Prelude.Int.{ℤ, pos, negsuc, i64_max}
use taproot_assets_rest_gate.Json.{Value, string, object, Fields, field, end}
use taproot_assets_rest_gate.Error.{Result, ok, err, validation_error, ◌>>◌}
use taproot_assets_rest_gate.Api.Params.{parse_digits}
use taproot_assets_rest_gate.Api.Endpoint.{optional, nullable}

pub record Addr : Type 0 where
  pub encoded : Option Text
  pub asset_id : Option Text
  pub asset_type : Option Text
  pub amount : Option Text
  pub group_key : Option Text
  pub script_key : Option Text
  pub internal_key : Option Text
  pub tapscript_sibling : Option Text
  pub taproot_output_key : Option Text
  pub proof_courier_addr : Option Text
  pub asset_version : Option Text
  pub address_version : Option Text

abbrev text_or_null : Text → Option Text → Fields → Fields
text_or_null k o r = field k (nullable string o) r

abbrev pub addr_value : Addr → Value
addr_value a = object (
    text_or_null (ascii "encoded") a.encoded (
      text_or_null (ascii "asset_id") a.asset_id (
        text_or_null (ascii "asset_type") a.asset_type (
          text_or_null (ascii "amount") a.amount (
            text_or_null (ascii "group_key") a.group_key (
              text_or_null (ascii "script_key") a.script_key (
                text_or_null (ascii "internal_key") a.internal_key (
                  text_or_null (ascii "tapscript_sibling") a.tapscript_sibling (
                    text_or_null (ascii "taproot_output_key") a.taproot_output_key (
                      text_or_null (ascii "proof_courier_addr") a.proof_courier_addr (
                        text_or_null (ascii "asset_version") a.asset_version
                          (text_or_null (ascii "address_version") a.address_version end))))))))))))

pub record NewAddrRequest : Type 0 where
  pub asset_id : Text
  pub amt : Text
  pub script_key : Option Text
  pub internal_key : Option Text
  pub tapscript_sibling : Option Text
  pub proof_courier_addr : Option Text
  pub asset_version : Option Text
  pub address_version : Option Text

abbrev pub new_addr_request_value : NewAddrRequest → Value
new_addr_request_value r = object (
    field (ascii "asset_id") (string r.asset_id) (
      field (ascii "amt") (string r.amt) (
        optional string (ascii "script_key") r.script_key (
          optional string (ascii "internal_key") r.internal_key (
            optional string (ascii "tapscript_sibling") r.tapscript_sibling (
              optional string (ascii "proof_courier_addr") r.proof_courier_addr (
                optional string (ascii "asset_version") r.asset_version
                  (optional string (ascii "address_version") r.address_version end))))))))

-- `str::parse::<i64>`: a sign or none, then digits, in the range of `i64`.
abbrev pub up_to : ℕ → (ℕ → ℤ) → Option ℕ → Option ℤ
up_to bound make none = none
up_to bound make (some n) = if leb n bound then some (make n) else none

abbrev pub minus : ℕ → ℤ
minus n = if n == 0 then pos 0 else negsuc (n - 1)

abbrev pub digits_of : Text → Option ℕ
digits_of [] = none
digits_of (c ∷ cs) = parse_digits 0 (c ∷ cs)

unfoldable pub parse_i64 : Text → Option ℤ
parse_i64 [] = none
parse_i64 (c ∷ cs) =
    if c == b'-'
    then up_to (2 ^ 63) minus (digits_of cs)
    else if c == b'+'
    then up_to i64_max pos (digits_of cs)
    else up_to i64_max pos (parse_digits 0 (c ∷ cs))

abbrev pub is_blank : Text → Bool
is_blank t = is_empty (trim t)

abbrev pub unless_blank : Text → Text → Result (Unit {0})
unless_blank message t = if is_blank t then err (validation_error message) else ok tt

unfoldable pub validate_amount : Option ℤ → Result (Unit {0})
validate_amount none = err (validation_error (ascii "amt must be a valid integer"))
validate_amount (some (negsuc n)) = err (validation_error (ascii "amt must be greater than zero"))
validate_amount (some (pos n)) =
    if n == 0 then err (validation_error (ascii "amt must be greater than zero")) else ok tt

unfoldable pub validate_optional : Text → Option Text → Result (Unit {0})
validate_optional name none = ok tt
validate_optional name (some t) = unless_blank (name ++ ascii " cannot be an empty string") t

unfoldable pub validate : NewAddrRequest → Result (Unit {0})
unfolding validate_amount validate_optional
validate r =
    unless_blank (ascii "asset_id cannot be empty") r.asset_id
    >> unless_blank (ascii "amt cannot be empty") r.amt
    >> validate_amount (parse_i64 r.amt)
    >> validate_optional (ascii "script_key") r.script_key
    >> validate_optional (ascii "internal_key") r.internal_key
