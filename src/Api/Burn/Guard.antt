-- ===== src/Api/Burn/Guard.antt =====
-- A burn is irreversible: what reaches tapd is checked first.
use taproot_assets_rest_gate.Prelude.{
  Text, true, Option, none, some, [], ◌∷◌, ◌++◌, ascii, ◌≡◌, ◌⊎◌, ◌↔◌, inl, inr, arith, all, is_hex,
  length,
}
use taproot_assets_rest_gate.Json.{Serde}
use taproot_assets_rest_gate.Error.{
  ok, err, AppError, Http, invalid_input, Result-cases, status_code,
}
use taproot_assets_rest_gate.Api.Params.{validate_hex_param, validate_asset_id, validate_group_key}
use taproot_assets_rest_gate.Api.Params.Accepted.{validate_asset_id_iff, validate_group_key_iff}
use taproot_assets_rest_gate.Api.Upstream.{Client, ◌>>=◌, send, handle_result}
use taproot_assets_rest_gate.Api.Burn.{
  AssetSpecifier, BurnRequest, validate_fields, validate, burn_post, burn,
}

-- One field names the asset, in hexadecimal digits of a length that tapd takes.
abbrev pub Names : Option Text → Option Text → Type 0
Names (some a) none = (length a ≡ 64) × (all is_hex a ≡ true)
Names none (some g) = ((length g ≡ 64) ⊎ (length g ≡ 66)) × (all is_hex g ≡ true)
Names (some a) (some g) = ⊥
Names none none = ⊥

abbrev pub NamesAsset : AssetSpecifier → Type 0
NamesAsset spec = Names spec.asset_id_str spec.group_key_str

validate_fields_iff : (a g : Option Text) → (validate_fields a g ≡ ok tt) ↔ Names a g
unfolding validate_fields
validate_fields_iff (some a) none = validate_asset_id_iff a
validate_fields_iff none (some g) = validate_group_key_iff g
validate_fields_iff (some a) (some g) = ground arith
validate_fields_iff none none = ground arith

validate_hex_param_err :
    (value : Text) (e : AppError)
    → validate_hex_param value ≡ err e
    → (m : Text) × (e ≡ invalid_input m)
unfolding validate_hex_param
validate_hex_param_err value e h = (ascii "Invalid path parameter: " ++ value, ground arith)

validate_fields_err :
    (a g : Option Text) (e : AppError)
    → validate_fields a g ≡ err e
    → (m : Text) × (e ≡ invalid_input m)
unfolding validate_fields validate_asset_id validate_group_key
validate_fields_err (some a) none e h = ground (arith, validate_hex_param_err a e)
validate_fields_err none (some g) e h = ground (arith, validate_hex_param_err g e)
validate_fields_err (some a) (some g) e h = ground arith
validate_fields_err none none e h = ground arith

specifier_iff : (spec : AssetSpecifier) → (validate spec ≡ ok tt) ↔ NamesAsset spec
unfolding validate
specifier_iff spec = validate_fields_iff spec.asset_id_str spec.group_key_str

validate_err :
    (spec : AssetSpecifier) (e : AppError)
    → validate spec ≡ err e
    → (m : Text) × (e ≡ invalid_input m)
unfolding validate
validate_err spec e = validate_fields_err spec.asset_id_str spec.group_key_str e

-- Either the request names one asset, and tapd gets one burn request; or it does not, and then
-- nothing is sent and the caller gets a 400.
pub burn_guard :
    (h : Http) (s : Serde) (base_url macaroon : Text) (r : BurnRequest) (client : Client)
    → (NamesAsset r.asset_specifier
        × ((burn h s base_url macaroon r client).0 ≡ burn_post base_url macaroon r ∷ []))
      ⊎ ((¬ NamesAsset r.asset_specifier)
          × ((burn h s base_url macaroon r client).0 ≡ [])
          × ((burn h s base_url macaroon r client).1.status ≡ 400))
unfolding burn ◌>>=◌ send handle_result status_code
burn_guard h s base_url macaroon r client = elim (Result-cases (validate r.asset_specifier)) [
  | inl (u, e) ↦ inl ((specifier_iff r.asset_specifier).0 e, rw e (ground arith))
  | inr (x, e) ↦
      let (m, p) = validate_err r.asset_specifier x e in
      inr (ground (arith, specifier_iff r.asset_specifier), rw e, rw (e, p))
]
