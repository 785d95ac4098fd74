-- ===== src/Database/Stored.antt =====
-- What SQLite returns of a receiver after it was stored.
use taproot_assets_rest_gate.Prelude.{
  Text, true, Option, none, some, List, [], ◌∷◌, text_key, text_eq_iff, ◌≡◌, inl, inr, refl, ap,
  ◌∙◌, arith, Option-cases,
}
use taproot_assets_rest_gate.Json.{Value, Serde, SerdeLaws}
use taproot_assets_rest_gate.Error.{ok, Result-cases}
use taproot_assets_rest_gate.Database.{
  ReceiverInfo, Row, Conditions, metadata_text, metadata_value, select_by_id, upsert,
  store_receiver_sqlite, row_info, read_row, get_receiver_sqlite,
}
use taproot_assets_rest_gate.Database.Rows.{
  IsTable, find_row, stored_row, active_row, find-upsert, upsert-IsTable, select-find,
}

-- What is read back after a receiver is stored.
abbrev pub merged : ReceiverInfo → Option Row → ReceiverInfo
merged info none = info
merged info (some r) = record info {
  public_key = r.public_key;
  address = r.address;
  created_at = r.created_at;
}

find_row-id :
    (id : Text) (rows : List Row) (r : Row) → find_row id rows ≡ some r → r.receiver_id ≡ id
unfolding find_row
find_row-id id [] r h = cc
find_row-id id (x ∷ rows) r h = ground (arith, find_row-id id rows r, text_eq_iff x.receiver_id id)

row_info-stored :
    (info : ReceiverInfo) (text : Option Text) (rows : List Row)
    → let old = find_row info.receiver_id rows in
      row_info (stored_row info text old) info.metadata ≡ merged info old
row_info-stored info text rows = elim (Option-cases (find_row info.receiver_id rows)) [
  | inl e ↦ rw e
  | inr (r, e) ↦ rw e (ground (arith, find_row-id info.receiver_id rows r e))
]

metadata_back :
    (s : Serde)
    → SerdeLaws s
    → (m : Option Value) (text : Option Text) → metadata_text s m ≡ ok text
    → metadata_value s text ≡ ok m
metadata_back s laws none text h = ground arith
metadata_back s laws (some v) text h = elim (Option-cases (s.to_string v)) [
  | inl e ↦ absurd (ground arith)
  | inr (t, e) ↦ ground (arith, laws.read_back v t e)
]

stored_metadata :
    (info : ReceiverInfo) (text : Option Text) (old : Option Row)
    → (stored_row info text old).metadata ≡ text
stored_metadata info text none = refl
stored_metadata info text (some r) = refl

stored_active :
    (info : ReceiverInfo) (text : Option Text) (old : Option Row)
    → (stored_row info text old).is_active ≡ info.is_active
stored_active info text none = refl
stored_active info text (some r) = refl

store_inv :
    (s : Serde) (c : Conditions) (info : ReceiverInfo) (rows rows' : List Row)
    → store_receiver_sqlite s c info rows ≡ ok rows'
    → (text : Option Text) × (metadata_text s info.metadata ≡ ok text)
      × (upsert c info text rows ≡ ok rows')
unfolding store_receiver_sqlite
store_inv s c info rows rows' h = elim (Result-cases (metadata_text s info.metadata)) [
  | inl (text, e) ↦ (text, e, ground arith)
  | inr (x, e) ↦ absurd (ground arith)
]

-- After an active receiver is stored in a table with unique identifiers and keys, SQLite, while it
-- answers, returns it under its identifier as it was given, if the metadata are read back as they
-- were written. Where a row of the identifier was there, its public key, address and date of
-- creation are kept.
pub get-store :
    (s : Serde) (c c' : Conditions) (info : ReceiverInfo) (rows rows' : List Row)
    → SerdeLaws s
    → IsTable rows
    → store_receiver_sqlite s c info rows ≡ ok rows'
    → info.is_active ≡ true
    → c'.sqlite_up ≡ true
    → get_receiver_sqlite s c' info.receiver_id (some rows')
      ≡ ok (some (merged info (find_row info.receiver_id rows)))
unfolding get_receiver_sqlite read_row find_row
get-store s c c' info rows rows' laws t h active up =
    let (text, m, u) = store_inv s c info rows rows' h in
    let old = find_row info.receiver_id rows in
    let found : select_by_id info.receiver_id rows' ≡ some (stored_row info text old) =
      select-find info.receiver_id rows' (upsert-IsTable c info text rows rows' t u)
      ∙ ap active_row (find-upsert c info text rows rows' u)
      ∙ rw (stored_active info text old ∙ active) refl in
    rw (up, found)
      (rw (stored_metadata info text old, metadata_back s laws info.metadata text m)
        (ap (λ i. ok (some i)) (row_info-stored info text rows)))
