-- ===== src/Database.antt =====
-- src/database.rs: the receivers, in SQLite and in a Redis cache in front of it.
pub mod Rows
pub mod Stored
pub mod Cache
use taproot_assets_rest_gate.Prelude.{
  ℕ, ◌+◌, Text, ascii, Bool, true, false, not, ◌&&◌, ◌||◌, Option, none, some, List, [], ◌∷◌, ◌++◌,
  Map, get, insert, remove, any, if◌then◌else◌, ◌==◌, text_key, nat_key, ltb, secs,
}
use taproot_assets_rest_gate.Prelude.Int.{ℤ}
use taproot_assets_rest_gate.Json.{Value, Serde}
use taproot_assets_rest_gate.Error.{
  Result, ok, err, AppError, database_error, serialization_error, ok_or, ◌>>=◌, ◌>>◌,
}

pub record ReceiverInfo : Type 0 where
  pub receiver_id : Text
  pub public_key : Text
  pub address : Option Text
  pub created_at : ℤ
  pub last_seen : ℤ
  pub is_active : Bool
  pub metadata : Option Value

-- A row of the table `receivers`, with `is_active` as the test `= 1` reads it and the metadata as
-- text. `receiver_id` is the primary key, and `public_key` is unique.
pub record Row : Type 0 where
  pub receiver_id : Text
  pub public_key : Text
  pub address : Option Text
  pub created_at : ℤ
  pub last_seen : ℤ
  pub is_active : Bool
  pub metadata : Option Text

-- The keys `receiver:…` and `pubkey:…`, each with the time at which it expires.
pub record Redis : Type 0 where
  pub receivers : Map Text (ReceiverInfo × ℕ)
  pub pubkeys : Map Text (Text × ℕ)

pub record Database : Type 0 where
  pub sqlite_pool : Option (List Row)
  pub redis_conn : Option Redis

-- What one call meets: the time, which commands are answered, the text of SQLite's
-- error where it gives one, and what SQLite does with a row that
-- conflicts in its identifier and, with another row, in its public key.
pub record Conditions : Type 0 where
  pub now : ℕ
  pub sqlite_up : Bool
  pub redis_receivers_up : Bool
  pub redis_pubkeys_up : Bool
  pub key_conflict_fails : Bool
  pub sqlite_error : Text

abbrev pub query_failed : Conditions → AppError
query_failed c = database_error (ascii "Failed to query receiver: " ++ c.sqlite_error)

-- `metadata.as_ref().map(serde_json::to_string).transpose()`. What serde_json says of its errors is not
-- modelled.
abbrev pub metadata_text : Serde → Option Value → Result (Option Text)
metadata_text s none = ok none
metadata_text s (some v) = do
  t ← ok_or (s.to_string v) (serialization_error (ascii "metadata"))
  ok (some t)

abbrev pub metadata_value : Serde → Option Text → Result (Option Value)
metadata_value s none = ok none
metadata_value s (some t) = do
  v ← ok_or (s.from_str t) (serialization_error (ascii "metadata"))
  ok (some v)

abbrev pub same_id : Text → Row → Bool
same_id id r = r.receiver_id == id

-- Another row has the public key.
abbrev pub key_taken : Text → Text → List Row → Bool
key_taken id key rows = any (λ r. r.public_key == key && not (r.receiver_id == id)) rows

-- `SELECT … WHERE receiver_id = ? AND is_active = 1`, and that by the public key.
unfoldable pub select_by_id : Text → List Row → Option Row
select_by_id id [] = none
select_by_id id (r ∷ rows) =
    if r.receiver_id == id && r.is_active then some r else select_by_id id rows

unfoldable pub select_by_key : Text → List Row → Option Text
select_by_key key [] = none
select_by_key key (r ∷ rows) =
    if r.public_key == key && r.is_active then some r.receiver_id else select_by_key key rows

-- `ON CONFLICT(receiver_id) DO UPDATE SET last_seen, is_active, metadata`.
unfoldable pub update_row : ReceiverInfo → Option Text → List Row → List Row
update_row info text [] = []
update_row info text (r ∷ rows) =
    (if same_id info.receiver_id r
      then record r { last_seen = info.last_seen; is_active = info.is_active; metadata = text }
      else r)
    ∷ update_row info text rows

abbrev pub new_row : ReceiverInfo → Option Text → Row
new_row info text = record {
  receiver_id = info.receiver_id;
  public_key = info.public_key;
  address = info.address;
  created_at = info.created_at;
  last_seen = info.last_seen;
  is_active = info.is_active;
  metadata = text;
}

abbrev pub store_failed : Conditions → AppError
store_failed c = database_error (ascii "Failed to store receiver: " ++ c.sqlite_error)

-- The `INSERT` statement.
unfoldable pub upsert : Conditions → ReceiverInfo → Option Text → List Row → Result (List Row)
unfolding update_row any
upsert c info text rows =
    if any (same_id info.receiver_id) rows
    then (if key_taken info.receiver_id info.public_key rows && c.key_conflict_fails
        then err (store_failed c)
        else ok (update_row info text rows))
    else if key_taken info.receiver_id info.public_key rows
    then err (store_failed c)
    else ok (new_row info text ∷ rows)

unfoldable pub store_receiver_sqlite :
    Serde → Conditions → ReceiverInfo → List Row → Result (List Row)
unfolding upsert
store_receiver_sqlite s c info rows = do
  text ← metadata_text s info.metadata
  if c.sqlite_up then upsert c info text rows else err (store_failed c)

-- Both keys for an hour; the second is written only if the first command is answered. The result is
-- dropped by the caller.
unfoldable pub store_receiver_redis : Conditions → ReceiverInfo → Redis → Redis
store_receiver_redis c info r =
    if c.redis_receivers_up
    then (if c.redis_pubkeys_up
        then record r {
          receivers = insert info.receiver_id (info, c.now + secs 3600) r.receivers;
          pubkeys = insert info.public_key (info.receiver_id, c.now + secs 3600) r.pubkeys;
        }
        else record r { receivers = insert info.receiver_id (info, c.now + secs 3600) r.receivers })
    else r

-- What `GET` returns of a key: nothing after it has expired.
abbrev pub live : {A : Type 0} → ℕ → Option (A × ℕ) → Option A
live now none = none
live now (some (a, expires)) = if ltb now expires then some a else none

abbrev pub map_redis : (Redis → Redis) → Option Redis → Option Redis
map_redis f none = none
map_redis f (some r) = some (f r)

abbrev pub no_backend : AppError
no_backend = database_error (ascii "No database backend available")

unfoldable pub store_sqlite_part :
    Serde
    → Conditions
    → ReceiverInfo
    → Option (List Row)
    → Option Redis
    → Result (Option (List Row))
store_sqlite_part s c info (some rows) redis = do
  rows' ← store_receiver_sqlite s c info rows
  ok (some rows')
store_sqlite_part s c info none none = err no_backend
store_sqlite_part s c info none (some r) = ok none

-- A failure leaves the database as it was.
unfoldable pub store_receiver_info : Serde → Conditions → ReceiverInfo → Database → Result Database
store_receiver_info s c info db = do
  pool ← store_sqlite_part s c info db.sqlite_pool db.redis_conn
  ok (record {
    sqlite_pool = pool;
    redis_conn = map_redis (store_receiver_redis c info) db.redis_conn;
  })

unfoldable pub get_receiver_redis : Conditions → Text → Option Redis → Option ReceiverInfo
get_receiver_redis c id none = none
get_receiver_redis c id (some r) =
    if c.redis_receivers_up then live c.now (get id r.receivers) else none

abbrev pub row_info : Row → Option Value → ReceiverInfo
row_info r metadata = record {
  receiver_id = r.receiver_id;
  public_key = r.public_key;
  address = r.address;
  created_at = r.created_at;
  last_seen = r.last_seen;
  is_active = r.is_active;
  metadata = metadata;
}

unfoldable pub read_row : Serde → Option Row → Result (Option ReceiverInfo)
read_row s none = ok none
read_row s (some r) = do metadata ← metadata_value s r.metadata; ok (some (row_info r metadata))

unfoldable pub get_receiver_sqlite :
    Serde → Conditions → Text → Option (List Row) → Result (Option ReceiverInfo)
get_receiver_sqlite s c id none = ok none
get_receiver_sqlite s c id (some rows) =
    if c.sqlite_up then read_row s (select_by_id id rows) else err (query_failed c)

-- A hit in the cache is the answer; anything else falls back to SQLite.
unfoldable pub get_receiver_info :
    Serde → Conditions → Text → Database → Result (Option ReceiverInfo)
get_receiver_info s c id db = elim (get_receiver_redis c id db.redis_conn) [
  | some info ↦ ok (some info)
  | none ↦ get_receiver_sqlite s c id db.sqlite_pool
]

unfoldable pub get_key_redis : Conditions → Text → Option Redis → Option Text
get_key_redis c key none = none
get_key_redis c key (some r) = if c.redis_pubkeys_up then live c.now (get key r.pubkeys) else none

unfoldable pub get_key_sqlite : Conditions → Text → Option (List Row) → Result (Option Text)
get_key_sqlite c key none = ok none
get_key_sqlite c key (some rows) =
    if c.sqlite_up
    then ok (select_by_key key rows)
    else err (database_error (ascii "Failed to query by public key: " ++ c.sqlite_error))

unfoldable pub get_receiver_by_public_key : Conditions → Text → Database → Result (Option Text)
get_receiver_by_public_key c key db = elim (get_key_redis c key db.redis_conn) [
  | some id ↦ ok (some id)
  | none ↦ get_key_sqlite c key db.sqlite_pool
]

unfoldable pub deactivate_rows : Text → List Row → List Row
deactivate_rows id [] = []
deactivate_rows id (r ∷ rows) =
    (if same_id id r then record r { is_active = false } else r) ∷ deactivate_rows id rows

-- `DEL receiver:…`, whose failure is ignored.
unfoldable pub forget_receiver : Conditions → Text → Redis → Redis
forget_receiver c id r =
    if c.redis_receivers_up then record r { receivers = remove id r.receivers } else r

abbrev pub deactivate_pool : Conditions → Text → Option (List Row) → Result (Option (List Row))
deactivate_pool c id none = ok none
deactivate_pool c id (some rows) =
    if c.sqlite_up
    then ok (some (deactivate_rows id rows))
    else err (database_error (ascii "Failed to deactivate receiver: " ++ c.sqlite_error))

unfoldable pub deactivate_receiver : Conditions → Text → Database → Result Database
deactivate_receiver c id db = do
  pool ← deactivate_pool c id db.sqlite_pool
  ok (record { sqlite_pool = pool; redis_conn = map_redis (forget_receiver c id) db.redis_conn })
