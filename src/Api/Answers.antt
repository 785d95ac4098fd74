-- ===== src/Api/Answers.antt =====
-- A handler that relays one request shows tapd's status: no error is answered as a success.
use taproot_assets_rest_gate.Prelude.{true, ◌≡◌}
use taproot_assets_rest_gate.Json.{Value}
use taproot_assets_rest_gate.Error.{Http, HttpLaws, HttpResponse}

module _ (h : Http) (laws : HttpLaws h) where
  -- The caller sees a success with this body.
  abbrev pub SucceedsWith : HttpResponse → Value → Type 0
  SucceedsWith response v = (h.is_success response.status ≡ true) × (response.body ≡ v)
