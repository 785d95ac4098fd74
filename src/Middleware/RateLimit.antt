-- ===== src/Middleware/RateLimit.antt =====
-- `RateLimiter` of src/middleware.rs: a sliding window of accepted requests for each client.
pub mod Window
pub mod Limit
pub mod Store
use taproot_assets_rest_gate.Prelude.{
  ℕ, ◌+◌, ◌-◌, Text, ascii, Bool, true, false, not, ◌&&◌, Option, none, some, List, [], ◌∷◌, ◌++◌,
  Map, get, insert, contains_key, length, keep, is_empty, ltb, leb, if◌then◌else◌, secs, text_key,
}

-- The fields of `RateLimiterService` but for the inner service, which is called on acceptance.
pub record RateLimiter : Type 0 where
  pub store : Map Text (List ℕ)
  pub requests_per_minute : ℕ
  pub last_cleanup : ℕ
  pub cleanup_interval : ℕ
  pub max_tracked_ips : ℕ

-- `RateLimiter::new` and `new_transform`.
unfoldable pub new : ℕ → ℕ → RateLimiter
new requests_per_minute now = record {
  store = [];
  requests_per_minute = requests_per_minute;
  last_cleanup = now;
  cleanup_interval = secs 60;
  max_tracked_ips = 10000;
}

-- `t > now - 60s`, where the difference may lie before the origin of the clock.
abbrev pub in_window : ℕ → ℕ → Bool
in_window now t = ltb now (t + secs 60)

-- The `retain` of the cleanup: what is left of each client's times, and no client without times.
unfoldable pub drop_old : ℕ → Map Text (List ℕ) → Map Text (List ℕ)
drop_old now [] = []
drop_old now ((client, times) ∷ store) =
    let rest = drop_old now store in
    let left = keep (in_window now) times in if is_empty left then rest else (client, left) ∷ rest

unfoldable pub clean_up : RateLimiter → ℕ → RateLimiter
unfolding drop_old
clean_up l now =
    if ltb l.cleanup_interval (now - l.last_cleanup)
    then record l { store = drop_old now l.store; last_cleanup = now }
    else l

abbrev pub or_default : Option (List ℕ) → List ℕ
or_default none = []
or_default (some times) = times

-- The times of a client, of which none are stored at first.
abbrev pub times : Text → RateLimiter → List ℕ
times client l = or_default (get client l.store)

unfoldable pub check : RateLimiter → Text → ℕ → RateLimiter × Bool
check l client now =
    if not (contains_key client l.store) && leb l.max_tracked_ips (length l.store)
    then (l, false)
    else (let left = keep (in_window now) (times client l) in
        if leb l.requests_per_minute (length left)
        then (record l { store = insert client left l.store }, false)
        else (record l { store = insert client (left ++ now ∷ []) l.store }, true))

-- Whether the request goes on to the inner service, or is answered by a 429.
unfoldable pub call : RateLimiter → Text → ℕ → RateLimiter × Bool
call l client now = check (clean_up l now) client now
