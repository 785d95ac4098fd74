-- ===== src/Examples/Storage.antt =====
-- A receiver that is stored twice, and deactivated.
use taproot_assets_rest_gate.Prelude.{
  ◌≡◌, ascii, true, false, none, some, List, [], ◌∷◌, get, any, secs, refl, arith, text_eq,
  text_key,
}
use taproot_assets_rest_gate.Prelude.Int.{pos}
use taproot_assets_rest_gate.Error.{ok}
use taproot_assets_rest_gate.Database.{
  ReceiverInfo, Row, Redis, Database, Conditions, update_row, upsert, store_receiver_sqlite,
  store_receiver_redis, store_sqlite_part, store_receiver_info, get_receiver_sqlite,
  get_receiver_info, get_receiver_by_public_key, deactivate_rows, forget_receiver,
  deactivate_receiver,
}
use taproot_assets_rest_gate.Database.Rows
use taproot_assets_rest_gate.Database.Rows.{find_row, upsert-IsTable}
use taproot_assets_rest_gate.Database.Stored.{merged, get-store}
use taproot_assets_rest_gate.Database.Cache.{
  deactivated_not_found, deactivated_key_served, stored_key_differs,
}
use taproot_assets_rest_gate.Examples.Parts.{serde, serde_laws}

abbrev up : Conditions
up = record {
  now = 0;
  sqlite_up = true;
  redis_receivers_up = true;
  redis_pubkeys_up = true;
  key_conflict_fails = true;
  sqlite_error = [];
}

abbrev cache_down : Conditions
cache_down = record up { redis_receivers_up = false }

abbrev row : Row
row = record {
  receiver_id = ascii "r";
  public_key = ascii "k1";
  address = none;
  created_at = pos 1;
  last_seen = pos 1;
  is_active = true;
  metadata = none;
}

abbrev info : ReceiverInfo
info = record {
  receiver_id = ascii "r";
  public_key = ascii "k2";
  address = none;
  created_at = pos 2;
  last_seen = pos 2;
  is_active = true;
  metadata = none;
}

abbrev rows : List Row
rows = row ∷ []

abbrev cache : Redis
cache = record { receivers = []; pubkeys = (ascii "k1", (ascii "r", secs 3600)) ∷ [] }

rows-IsTable : Rows.IsTable rows
unfolding any
rows-IsTable = (refl, refl, tt)

abbrev rows_after : List Row
rows_after = record row { last_seen = pos 2 } ∷ []

upsert_runs : upsert up info none rows ≡ ok rows_after
unfolding upsert update_row any text_eq
upsert_runs = refl

store_runs : store_receiver_sqlite serde up info rows ≡ ok rows_after
unfolding store_receiver_sqlite upsert update_row any text_eq
store_runs = refl

get-store_example :
    get_receiver_sqlite serde up (ascii "r") (some rows_after)
    ≡ ok (some (merged info (find_row (ascii "r") rows)))
get-store_example =
    get-store serde up up info rows rows_after serde_laws rows-IsTable store_runs refl refl

abbrev deactivated : Database
deactivated = record {
  sqlite_pool = some (deactivate_rows (ascii "r") rows);
  redis_conn = some (forget_receiver up (ascii "r") cache);
}

deactivate_runs :
    deactivate_receiver up (ascii "r") (record { sqlite_pool = some rows; redis_conn = some cache })
    ≡ ok deactivated
unfolding deactivate_receiver
deactivate_runs = refl

deactivated_not_found_example : get_receiver_info serde up (ascii "r") deactivated ≡ ok none
deactivated_not_found_example =
    deactivated_not_found serde up up (ascii "r") rows cache deactivated refl refl deactivate_runs

deactivated_key_served_example :
    get_receiver_by_public_key up (ascii "k1") deactivated ≡ ok (some (ascii "r"))
unfolding get text_eq
deactivated_key_served_example =
    deactivated_key_served up up (ascii "r") (ascii "k1") (secs 3600) (some rows) cache deactivated
      refl deactivate_runs refl (omega arith)

abbrev stored : Database
stored = record {
  sqlite_pool = some rows_after;
  redis_conn = some (store_receiver_redis up info cache);
}

store_info_runs :
    store_receiver_info serde up info (record { sqlite_pool = some rows; redis_conn = some cache })
    ≡ ok stored
unfolding store_receiver_info store_sqlite_part store_receiver_sqlite upsert update_row any text_eq
store_info_runs = refl

stored_key_differs_example :
    (get_receiver_info serde up (ascii "r") stored ≡ ok (some info))
    × (get_receiver_info serde cache_down (ascii "r") stored ≡ ok (some (merged info (some row))))
unfolding find_row text_eq
stored_key_differs_example =
    stored_key_differs serde up up cache_down info rows row cache stored serde_laws rows-IsTable
      refl refl refl store_info_runs refl (omega arith) refl refl
