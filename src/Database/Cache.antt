-- ===== src/Database/Cache.antt =====
-- Where the Redis cache and the table disagree.
use taproot_assets_rest_gate.Prelude.{
  ℕ, ◌+◌, ◌<◌, Text, true, false, Option, none, some, List, [], ◌∷◌, get, get-insert, get-remove,
  secs, text_key, text_eq_iff, ◌≡◌, refl, ap, ◌∙◌, inl, inr, arith,
}
use taproot_assets_rest_gate.Json.{Serde, SerdeLaws}
use taproot_assets_rest_gate.Error.{ok, Result-cases}
use taproot_assets_rest_gate.Database.{
  ReceiverInfo, Row, Redis, Conditions, Database, select_by_id, deactivate_rows, forget_receiver,
  deactivate_receiver, get_receiver_redis, get_receiver_sqlite, read_row, get_receiver_info,
  get_key_redis, get_receiver_by_public_key, store_receiver_redis, store_receiver_info,
  store_sqlite_part, store_receiver_sqlite,
}
use taproot_assets_rest_gate.Database.Rows.{IsTable, find_row}
use taproot_assets_rest_gate.Database.Stored.{merged, get-store}

select-deactivate : (id : Text) (rows : List Row) → select_by_id id (deactivate_rows id rows) ≡ none
unfolding select_by_id deactivate_rows
select-deactivate id [] = refl
select-deactivate id (r ∷ rows) = ground (arith, select-deactivate id rows)

-- After a receiver is deactivated, while SQLite and the cache answer, it is not found by its ID.
pub deactivated_not_found :
    (s : Serde) (c c' : Conditions) (id : Text) (rows : List Row) (r : Redis) (db : Database)
    → c.redis_receivers_up ≡ true
    → c'.sqlite_up ≡ true
    → deactivate_receiver c id (record { sqlite_pool = some rows; redis_conn = some r }) ≡ ok db
    → get_receiver_info s c' id db ≡ ok none
unfolding deactivate_receiver forget_receiver get_receiver_info get_receiver_redis
    get_receiver_sqlite read_row
deactivated_not_found s c c' id rows r db cached up h =
    ground (arith, select-deactivate id rows, get-remove id id r.receivers, text_eq_iff id id)

-- But the cache, while it answers, still maps its public key to it until the entry expires:
-- whatever SQLite holds, `get_receiver_by_public_key` returns the receiver that was deactivated.
pub deactivated_key_served :
    (c c' : Conditions) (id key : Text) (expires : ℕ) (pool : Option (List Row)) (r : Redis)
    (db : Database)
    → get key r.pubkeys ≡ some (id, expires)
    → deactivate_receiver c id (record { sqlite_pool = pool; redis_conn = some r }) ≡ ok db
    → c'.redis_pubkeys_up ≡ true
    → c'.now < expires
    → get_receiver_by_public_key c' key db ≡ ok (some id)
unfolding deactivate_receiver forget_receiver get_receiver_by_public_key get_key_redis
deactivated_key_served c c' id key expires pool r db e h up fresh = ground arith

-- What a successful call of `store_receiver_info` leaves.
stored_parts :
    (s : Serde) (c : Conditions) (info : ReceiverInfo) (rows : List Row) (r : Redis) (db : Database)
    → store_receiver_info s c info (record { sqlite_pool = some rows; redis_conn = some r }) ≡ ok db
    → (rows' : List Row) × (store_receiver_sqlite s c info rows ≡ ok rows')
      × (db
          ≡ record { sqlite_pool = some rows'; redis_conn = some (store_receiver_redis c info r) })
unfolding store_receiver_info store_sqlite_part
stored_parts s c info rows r db h = elim (Result-cases (store_receiver_sqlite s c info rows)) [
  | inl (rows', e) ↦ (rows', e, ground arith)
  | inr (x, e) ↦ absurd (ground arith)
]

get-store_redis :
    (c c' : Conditions) (info : ReceiverInfo) (r : Redis)
    → c.redis_receivers_up ≡ true
    → c'.redis_receivers_up ≡ true
    → c'.now < c.now + secs 3600
    → get_receiver_redis c' info.receiver_id (some (store_receiver_redis c info r)) ≡ some info
unfolding get_receiver_redis store_receiver_redis
get-store_redis c c' info r up up' fresh =
    let id = info.receiver_id in
    ground (arith, get-insert id id (info, c.now + secs 3600) r.receivers, text_eq_iff id id)

get_receiver_info-hit :
    (s : Serde) (c : Conditions) (id : Text) (db : Database) (info : ReceiverInfo)
    → get_receiver_redis c id db.redis_conn ≡ some info
    → get_receiver_info s c id db ≡ ok (some info)
unfolding get_receiver_info
get_receiver_info-hit s c id db info e = rw (e, get_receiver_info)

get_receiver_info-down :
    (s : Serde) (c : Conditions) (id : Text) (db : Database)
    → c.redis_receivers_up ≡ false
    → get_receiver_info s c id db ≡ get_receiver_sqlite s c id db.sqlite_pool
unfolding get_receiver_info get_receiver_redis
get_receiver_info-down s c id db e = ground arith

-- An active receiver that is stored again under another public key, in a table with unique
-- identifiers and keys and with metadata that are read back as written, has two: for an hour the
-- cache, while it answers, returns the new one, and while the cache does not answer SQLite returns
-- the old one.
pub stored_key_differs :
    (s : Serde) (c c' c'' : Conditions) (info : ReceiverInfo) (rows : List Row) (old : Row)
    (r : Redis) (db : Database)
    → SerdeLaws s
    → IsTable rows
    → find_row info.receiver_id rows ≡ some old
    → info.is_active ≡ true
    → c.redis_receivers_up ≡ true
    → store_receiver_info s c info (record { sqlite_pool = some rows; redis_conn = some r }) ≡ ok db
    → c'.redis_receivers_up ≡ true
    → c'.now < c.now + secs 3600
    → c''.redis_receivers_up ≡ false
    → c''.sqlite_up ≡ true
    → (get_receiver_info s c' info.receiver_id db ≡ ok (some info))
      × (get_receiver_info s c'' info.receiver_id db ≡ ok (some (merged info (some old))))
stored_key_differs s c c' c'' info rows old r db laws t was active up h up' fresh down sql =
    let (rows', e, same) = stored_parts s c info rows r db h in
    let from_cache = get-store_redis c c' info r up up' fresh in
    let from_table = get-store s c c'' info rows rows' laws t e active sql in
    rw same (
      get_receiver_info-hit s c' info.receiver_id _ info from_cache,
      get_receiver_info-down s c'' info.receiver_id _ down
          ∙ from_table
          ∙ ap (λ o. ok (some (merged info o))) was,
    )
