-- ===== src/Examples/Addresses.antt =====
-- A page of addresses that gets lost, and requests for new addresses.
use taproot_assets_rest_gate.Prelude.{
  ◌≡◌, ◌⊎◌, Text, ascii, false, none, some, [], ◌∷◌, get, refl, arith, text_eq, trim, trim_start,
  trim_end,
}
use taproot_assets_rest_gate.Json.{null}
use taproot_assets_rest_gate.Error.{ok, validation_error, err}
use taproot_assets_rest_gate.Api.Upstream.{Reply, Client, done}
use taproot_assets_rest_gate.Api.Params.{parse_digits}
use taproot_assets_rest_gate.Api.Endpoint.{Gateway, endpoint, post_request}
use taproot_assets_rest_gate.Api.Bodies.Addresses.{
  Addr, NewAddrRequest, new_addr_request_value, parse_i64, validate_amount, validate,
}
use taproot_assets_rest_gate.Api.Addresses.{Reader, AddressQueryParams, list_addresses, create}
use taproot_assets_rest_gate.Api.Addresses.Pages.{Answers, Tells, page_skipped}
use taproot_assets_rest_gate.Api.Addresses.Guard.{IsNew, create_guard}
use taproot_assets_rest_gate.Examples.Parts.{http, serde}

abbrev pub gateway : Gateway
gateway = record {
  http = http;
  serde = serde;
  base_url = ascii "https://tapd:8089";
  macaroon_hex = ascii "00";
}

abbrev reply : Reply
reply = record { status = 200; text = none; json = done null }

abbrev tapd : Client
tapd request = done reply

abbrev address : Addr
address = record {
  encoded = some (ascii "taprt1");
  asset_id = none;
  asset_type = none;
  amount = some (ascii "5");
  group_key = none;
  script_key = none;
  internal_key = none;
  tapscript_sibling = none;
  taproot_output_key = none;
  proof_courier_addr = none;
  asset_version = none;
  address_version = none;
}

-- Its document always lists the one address.
abbrev reader : Reader
reader = record {
  addr = λ v. some address;
  addr_lists = λ v. some ((ascii "addrs", address ∷ []) ∷ []);
  mismatch = record { is_timeout = false; is_connect = false; shown = [] };
  debug = λ e. [];
}

abbrev second_page : AddressQueryParams
second_page = record {
  created_after = none;
  created_before = none;
  limit = some 1;
  offset = some 1;
}

answers : Answers reader gateway reply (address ∷ [])
unfolding get text_eq
answers = record {
  document = null;
  lists = (ascii "addrs", address ∷ []) ∷ [];
  success = refl;
  json = refl;
  read = refl;
  found = refl;
}

page_skipped_example :
    let (sent, result) = list_addresses reader gateway (some second_page) tapd in
    Tells gateway 1 sent × (result ≡ ok [])
page_skipped_example =
    page_skipped reader gateway second_page 1 reply (address ∷ []) tapd refl refl answers
      (omega arith)

abbrev new_address : Text → NewAddrRequest
new_address amt = record {
  asset_id = ascii "ab";
  amt = amt;
  script_key = none;
  internal_key = none;
  tapscript_sibling = none;
  proof_courier_addr = none;
  asset_version = none;
  address_version = none;
}

create_guard_example :
    let (sent, response) = create reader (new_address (ascii "7")) gateway tapd in
    (IsNew (new_address (ascii "7"))
      × (sent
          ≡ post_request gateway
              (endpoint gateway (ascii "addrs"))
              (new_addr_request_value (new_address (ascii "7")))
            ∷ []))
    ⊎ ((IsNew (new_address (ascii "7")) → ⊥) × (sent ≡ []) × (response.status ≡ 400))
create_guard_example = create_guard reader (new_address (ascii "7")) gateway tapd

zero_refused :
    validate (new_address (ascii "-0"))
    ≡ err (validation_error (ascii "amt must be greater than zero"))
unfolding validate trim trim_start trim_end parse_i64 parse_digits validate_amount text_eq
zero_refused = refl
