-- ===== src/Database/Rows.antt =====
-- The table `receivers` as the statements of src/database.rs keep it.
use taproot_assets_rest_gate.Prelude.{
  Text, Bool, false, Option, none, some, List, [], ◌∷◌, any, if◌then◌else◌, ◌==◌, text_key,
  text_eq_iff, ◌≡◌, ◌↔◌, inl, inr, refl, arith, Bool-cases, Option-cases,
}
use taproot_assets_rest_gate.Error.{ok}
use taproot_assets_rest_gate.Database.{
  ReceiverInfo, Row, Conditions, same_id, key_taken, select_by_id, update_row, new_row, upsert,
}

abbrev pub has_id : Text → List Row → Bool
has_id id rows = any (same_id id) rows

abbrev pub has_key : Text → List Row → Bool
has_key key rows = any (λ r. r.public_key == key) rows

-- The two constraints of the table.
abbrev pub IsTable : List Row → Type 0
IsTable [] = Unit
IsTable (r ∷ rows) =
    (has_id r.receiver_id rows ≡ false) × (has_key r.public_key rows ≡ false) × IsTable rows

has_id-update :
    (info : ReceiverInfo) (text : Option Text) (id : Text) (rows : List Row)
    → has_id id (update_row info text rows) ≡ has_id id rows
unfolding any update_row
has_id-update info text id [] = refl
has_id-update info text id (r ∷ rows) = ground (arith, has_id-update info text id rows)

has_key-update :
    (info : ReceiverInfo) (text : Option Text) (key : Text) (rows : List Row)
    → has_key key (update_row info text rows) ≡ has_key key rows
unfolding any update_row
has_key-update info text key [] = refl
has_key-update info text key (r ∷ rows) = ground (arith, has_key-update info text key rows)

IsTable-update :
    (info : ReceiverInfo) (text : Option Text) (rows : List Row)
    → IsTable rows
    → IsTable (update_row info text rows)
unfolding update_row
IsTable-update info text [] t = tt
IsTable-update info text (r ∷ rows) t = ground (
  arith,
  IsTable-update info text rows t.2,
  has_id-update info text r.receiver_id rows,
  has_key-update info text r.public_key rows,
)

-- With no row of the identifier, the key is taken exactly if a row has it.
key_taken-eq :
    (id key : Text) (rows : List Row)
    → has_id id rows ≡ false
    → key_taken id key rows ≡ has_key key rows
unfolding any
key_taken-eq id key [] h = refl
key_taken-eq id key (r ∷ rows) h = ground (arith, key_taken-eq id key rows)

-- An insertion that succeeds keeps identifiers and public keys unique.
pub upsert-IsTable :
    (c : Conditions) (info : ReceiverInfo) (text : Option Text) (rows rows' : List Row)
    → IsTable rows
    → upsert c info text rows ≡ ok rows'
    → IsTable rows'
unfolding upsert
upsert-IsTable c info text rows rows' t h = elim (Bool-cases (has_id info.receiver_id rows)) [
  | inl old ↦ ground (arith, IsTable-update info text rows t)
  | inr new ↦ ground (arith, key_taken-eq info.receiver_id info.public_key rows new)
]

-- The row of an identifier, active or not.
unfoldable pub find_row : Text → List Row → Option Row
find_row id [] = none
find_row id (r ∷ rows) = if r.receiver_id == id then some r else find_row id rows

find_row-none : (id : Text) (rows : List Row) → (find_row id rows ≡ none) ↔ (has_id id rows ≡ false)
unfolding find_row any
find_row-none id [] = ground arith
find_row-none id (r ∷ rows) = ground (arith, find_row-none id rows)

abbrev pub active_row : Option Row → Option Row
active_row none = none
active_row (some r) = if r.is_active then some r else none

select_absent : (id : Text) (rows : List Row) → has_id id rows ≡ false → select_by_id id rows ≡ none
unfolding select_by_id any
select_absent id [] h = refl
select_absent id (r ∷ rows) h = ground (arith, select_absent id rows)

-- A table has one row of an identifier, so that `select_by_id` reads it if it is active.
pub select-find :
    (id : Text) (rows : List Row)
    → IsTable rows
    → select_by_id id rows ≡ active_row (find_row id rows)
unfolding select_by_id find_row
select-find id [] t = refl
select-find id (r ∷ rows) t =
    ground (arith, select-find id rows t.2, select_absent id rows, text_eq_iff r.receiver_id id)

-- What an update makes of the row that was there.
abbrev pub updated : ReceiverInfo → Option Text → Option Row → Option Row
updated info text none = none
updated info text (some r) =
    some (record r { last_seen = info.last_seen; is_active = info.is_active; metadata = text })

find-update :
    (info : ReceiverInfo) (text : Option Text) (rows : List Row)
    → find_row info.receiver_id (update_row info text rows)
      ≡ updated info text (find_row info.receiver_id rows)
unfolding find_row update_row
find-update info text [] = refl
find-update info text (r ∷ rows) = ground (arith, find-update info text rows)

-- The row after a successful insertion: the new one, or the old one with a new time, state and
-- metadata, but with its public key, address and date.
abbrev pub stored_row : ReceiverInfo → Option Text → Option Row → Row
stored_row info text none = new_row info text
stored_row info text (some r) = record r {
  last_seen = info.last_seen;
  is_active = info.is_active;
  metadata = text;
}

pub find-upsert :
    (c : Conditions) (info : ReceiverInfo) (text : Option Text) (rows rows' : List Row)
    → upsert c info text rows ≡ ok rows'
    → find_row info.receiver_id rows' ≡ some (stored_row info text (find_row info.receiver_id rows))
unfolding upsert find_row
find-upsert c info text rows rows' h =
    let id = info.receiver_id in
    elim (Option-cases (find_row id rows)) [
      | inl e ↦ rw e (ground (arith, (find_row-none id rows).0 e, text_eq_iff id id))
      | inr (r, e) ↦ rw e (ground (arith, find_row-none id rows, find-update info text rows))
    ]
