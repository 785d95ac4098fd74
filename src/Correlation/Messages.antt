-- ===== src/Correlation/Messages.antt =====
-- The identifier that is put into a message is the one that is read from it.
use taproot_assets_rest_gate.Prelude.{
  Text, some, ==_refl, text_key, ◌≡◌, refl, arith, ap, ◌∙◌, Option-cases, inl, inr, if◌then◌else◌,
}
use taproot_assets_rest_gate.Json
use taproot_assets_rest_gate.Json.{
  Value, null, boolean, integer, number, string, array, object, Fields, field, lookup,
  lookup-insert, as_object, as_str, ◌and_then◌, Serde, SerdeLaws,
}
use taproot_assets_rest_gate.Correlation.{
  inject_correlation_id, extract_correlation_id, id_of_fields, with_id, wrapped_text,
  correlation_key,
}

id_of_first :
    (fields : Fields) (id : Text)
    → lookup correlation_key fields ≡ some (string id)
    → id_of_fields fields ≡ some id
unfolding id_of_fields
id_of_first fields id h = rw h refl

extract-written :
    (s : Serde) (laws : SerdeLaws s) (fields : Fields) (id t : Text)
    → lookup correlation_key fields ≡ some (string id)
    → s.to_string (object fields) ≡ some t
    → extract_correlation_id s t ≡ some id
unfolding extract_correlation_id
extract-written s laws fields id t h w =
    rw (laws.read_back (object fields) t w) (id_of_first fields id h)

lookup-first :
    (id : Text) (r : Fields)
    → lookup correlation_key (field correlation_key (string id) r) ≡ some (string id)
unfolding lookup
lookup-first id r = rw (==_refl correlation_key) refl

written-with_id :
    (s : Serde) (laws : SerdeLaws s) (v : Value) (id t : Text)
    → s.to_string (with_id id v) ≡ some t
    → extract_correlation_id s t ≡ some id
written-with_id s laws (object fields) id t w =
    let found : lookup correlation_key (Json.insert correlation_key (string id) fields)
        ≡ some (string id) =
      lookup-insert correlation_key correlation_key (string id) fields
      ∙ ap (λ b. if b then some (string id) else lookup correlation_key fields)
          (==_refl correlation_key) in
    extract-written s laws (Json.insert correlation_key (string id) fields) id t found w
written-with_id s laws null id t w = extract-written s laws _ id t (lookup-first id _) w
written-with_id s laws (boolean b) id t w = extract-written s laws _ id t (lookup-first id _) w
written-with_id s laws (integer z) id t w = extract-written s laws _ id t (lookup-first id _) w
written-with_id s laws (number n) id t w = extract-written s laws _ id t (lookup-first id _) w
written-with_id s laws (string m) id t w = extract-written s laws _ id t (lookup-first id _) w
written-with_id s laws (array items) id t w = extract-written s laws _ id t (lookup-first id _) w

written-wrapped_text :
    (s : Serde) (laws : SerdeLaws s) (message id t : Text)
    → s.to_string (wrapped_text id message) ≡ some t
    → extract_correlation_id s t ≡ some id
written-wrapped_text s laws message id t w = extract-written s laws _ id t (lookup-first id _) w

-- Whatever the message is, an object, another document or no JSON at all, the identifier that is
-- injected is the one that is extracted, for a reader that reads back what the writer wrote.
pub extract-inject :
    (s : Serde) (laws : SerdeLaws s) (message id t : Text)
    → inject_correlation_id s message id ≡ some t
    → extract_correlation_id s t ≡ some id
unfolding inject_correlation_id
extract-inject s laws message id t h = elim (Option-cases (s.from_str message)) [
  | inl e ↦ written-wrapped_text s laws message id t (ground arith)
  | inr (json, e) ↦ written-with_id s laws json id t (ground arith)
]
