-- ===== src/Api/Addresses/Guard.antt =====
-- A new address is asked of tapd only for a request that makes sense.
use taproot_assets_rest_gate.Prelude.{
  ◌≤◌, Text, ascii, false, Option, none, some, [], ◌∷◌, ◌++◌, nat_key, ◌≡◌, ◌⊎◌, ◌↔◌, inl, inr,
  refl, arith,
}
use taproot_assets_rest_gate.Prelude.Int.{ℤ, pos, negsuc}
use taproot_assets_rest_gate.Error.{
  Result, ok, err, AppError, validation_error, ◌>>◌, Result-cases, status_code,
}
use taproot_assets_rest_gate.Api.Bodies.Addresses.{
  NewAddrRequest, new_addr_request_value, parse_i64, is_blank, unless_blank, validate_amount,
  validate_optional, validate,
}
use taproot_assets_rest_gate.Api.Upstream.{Client, handle_result}
use taproot_assets_rest_gate.Api.Endpoint.{Gateway, endpoint, post_request, checked}
use taproot_assets_rest_gate.Api.Confined.{then-ok, ok-then}
use taproot_assets_rest_gate.Api.Addresses.{
  Reader, create, create_address, ask_addr-sent, answered_addr,
}

abbrev IsPositive : Option ℤ → Type 0
IsPositive (some (pos n)) = 1 ≤ n
IsPositive _ = ⊥

abbrev IsFilled : Option Text → Type 0
IsFilled none = Unit
IsFilled (some t) = is_blank t ≡ false

-- The asset and the amount are given, the amount is a positive `i64`, and the keys are not blank.
abbrev pub IsNew : NewAddrRequest → Type 0
IsNew r =
    (is_blank r.asset_id ≡ false)
    × (is_blank r.amt ≡ false)
    × IsPositive (parse_i64 r.amt)
    × IsFilled r.script_key
    × IsFilled r.internal_key

unless_blank_iff : (message t : Text) → (unless_blank message t ≡ ok tt) ↔ (is_blank t ≡ false)
unless_blank_iff message t = ground arith

validate_amount_iff : (a : Option ℤ) → (validate_amount a ≡ ok tt) ↔ IsPositive a
unfolding validate_amount
validate_amount_iff none = ground arith
validate_amount_iff (some (negsuc n)) = ground arith
validate_amount_iff (some (pos n)) = ground arith

validate_optional_iff :
    (name : Text) (o : Option Text) → (validate_optional name o ≡ ok tt) ↔ IsFilled o
unfolding validate_optional
validate_optional_iff name none = ground arith
validate_optional_iff name (some t) =
    unless_blank_iff (name ++ ascii " cannot be an empty string") t

then_iff :
    {A B : Type 0} (a b : Result (Unit {0}))
    → (a ≡ ok tt) ↔ A
    → (b ≡ ok tt) ↔ B
    → ((a >> b) ≡ ok tt) ↔ (A × B)
then_iff a b f g =
    ((λ h. let (p, q) = then-ok a b h in (f.0 p, g.0 q)), (λ h. ok-then a b (f.1 h.0) (g.1 h.1)))

validate_iff : (r : NewAddrRequest) → (validate r ≡ ok tt) ↔ IsNew r
unfolding validate
validate_iff r =
    let filled =
      then_iff _ _
        (then_iff _ _
          (then_iff _ _
            (then_iff _ _ (unless_blank_iff (ascii "asset_id cannot be empty") r.asset_id)
              (unless_blank_iff (ascii "amt cannot be empty") r.amt))
            (validate_amount_iff (parse_i64 r.amt)))
          (validate_optional_iff (ascii "script_key") r.script_key))
        (validate_optional_iff (ascii "internal_key") r.internal_key) in
    (
      (λ h. let q = filled.0 h in (q.0.0.0.0, q.0.0.0.1, q.0.0.1, q.0.1, q.1)),
      (λ n. filled.1 ((((n.0, n.1), n.2), n.3), n.4)),
    )

-- A check fails only as a validation error.
abbrev IsValidation : Result (Unit {0}) → Type 0
IsValidation r = (e : AppError) → r ≡ err e → (m : Text) × (e ≡ validation_error m)

then-IsValidation :
    (a b : Result (Unit {0})) → IsValidation a → IsValidation b → IsValidation (a >> b)
then-IsValidation (ok u) b f g e h = g e h
then-IsValidation (err d) b f g e h = f e h

unless_blank-IsValidation : (message t : Text) → IsValidation (unless_blank message t)
unless_blank-IsValidation message t e h = (message, ground arith)

validate_amount-IsValidation : (a : Option ℤ) → IsValidation (validate_amount a)
unfolding validate_amount
validate_amount-IsValidation none e h = (ascii "amt must be a valid integer", ground arith)
validate_amount-IsValidation (some (negsuc n)) e h =
    (ascii "amt must be greater than zero", ground arith)
validate_amount-IsValidation (some (pos n)) e h =
    (ascii "amt must be greater than zero", ground arith)

validate_optional-IsValidation :
    (name : Text) (o : Option Text) → IsValidation (validate_optional name o)
unfolding validate_optional
validate_optional-IsValidation name none e h = absurd (ground arith)
validate_optional-IsValidation name (some t) e h =
    unless_blank-IsValidation (name ++ ascii " cannot be an empty string") t e h

validate-IsValidation : (r : NewAddrRequest) → IsValidation (validate r)
unfolding validate
validate-IsValidation r =
    then-IsValidation _ _
      (then-IsValidation _ _
        (then-IsValidation _ _
          (then-IsValidation _ _
            (unless_blank-IsValidation (ascii "asset_id cannot be empty") r.asset_id)
            (unless_blank-IsValidation (ascii "amt cannot be empty") r.amt))
          (validate_amount-IsValidation (parse_i64 r.amt)))
        (validate_optional-IsValidation (ascii "script_key") r.script_key))
      (validate_optional-IsValidation (ascii "internal_key") r.internal_key)

-- A request for an address is sent to tapd once, as it came, exactly if the asset and the amount are
-- given, the amount is a positive `i64` and the keys are not blank. Otherwise nothing is sent and
-- the answer is 400.
pub create_guard :
    (r : Reader) (request : NewAddrRequest) (g : Gateway) (client : Client)
    → let (sent, response) = create r request g client in
      (IsNew request
        × (sent
            ≡ post_request g (endpoint g (ascii "addrs")) (new_addr_request_value request) ∷ []))
      ⊎ ((IsNew request → ⊥) × (sent ≡ []) × (response.status ≡ 400))
unfolding create create_address answered_addr checked handle_result status_code
create_guard r request g client =
    let q = post_request g (endpoint g (ascii "addrs")) (new_addr_request_value request) in
    elim (Result-cases (validate request)) [
      | inl (u, e) ↦ inl ((validate_iff request).0 e, rw (e, checked) (ask_addr-sent r g q client))
      | inr (e, f) ↦
          let (m, p) = validate-IsValidation request e f in
          inr (
            (λ n. let passes = (validate_iff request).1 n in cc),
            rw (f, checked) refl,
            rw (f, checked) (rw p refl),
          )
    ]
