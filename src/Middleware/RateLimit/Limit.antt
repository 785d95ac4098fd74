-- ===== src/Middleware/RateLimit/Limit.antt =====
-- What the limiter promises: no client passes more often within a minute than the limit allows.
use taproot_assets_rest_gate.Prelude.{
  ℕ, ◌≤◌, Text, Option, none, some, List, [], ◌∷◌, ◌++◌, get, get-insert, length, length-append,
  length-keep-le, keep, is_empty, text_eq_iff, text_key, ◌≡◌, refl, ap, arith, if◌then◌else◌,
}
use taproot_assets_rest_gate.Middleware.RateLimit.{
  RateLimiter, in_window, clean_up, times, or_default, check, call, new,
}
use taproot_assets_rest_gate.Middleware.RateLimit.Store.{
  IsValid, cleaned, get-drop_old, clean_up-IsValid, call-IsValid,
}
use taproot_assets_rest_gate.Middleware.RateLimit.Window.{accepted, after, InOrder, keep-after}

-- The limiter never stores more times of a client than the limit.
pub record IsBounded (limit : ℕ) (l : RateLimiter) : Type 0 where
  pub valid : IsValid l
  pub fixed : l.requests_per_minute ≡ limit
  pub few : (client : Text) → length (times client l) ≤ limit

length-cleaned-le :
    (now : ℕ) (o : Option (List ℕ)) → length (or_default (cleaned now o)) ≤ length (or_default o)
length-cleaned-le now none = omega arith
length-cleaned-le now (some ts) =
    split (keep (in_window now) ts) (length-keep-le (in_window now) ts)
  where
    split :
        (left : List ℕ)
        → length left ≤ length ts
        → length (or_default (if is_empty left then none else some left)) ≤ length ts
    split [] e = omega arith
    split (x ∷ xs) e = e

clean_up-IsBounded :
    (limit : ℕ) (l : RateLimiter) (now : ℕ) → IsBounded limit l → IsBounded limit (clean_up l now)
clean_up-IsBounded limit l now b = record {
  valid = clean_up-IsValid l now b.valid;
  fixed = unfold clean_up in ground (arith, b.fixed);
  few = λ client.
      unfold clean_up in
      ground (
        arith,
        b.few client,
        get-drop_old now client l.store b.valid.distinct,
        length-cleaned-le now (get client l.store),
      );
}

check_few :
    (l : RateLimiter) (d client : Text) (now : ℕ)
    → length (times client l) ≤ l.requests_per_minute
    → length (times client (check l d now).0) ≤ l.requests_per_minute
unfolding check
check_few l d client now few =
    let left = keep (in_window now) (times d l) in
    ground (
      arith,
      get-insert d client left l.store,
      get-insert d client (left ++ now ∷ []) l.store,
      text_eq_iff d client,
      length-keep-le (in_window now) (times d l),
      length-append left (now ∷ []),
    )

call-IsBounded :
    (limit : ℕ) (l : RateLimiter) (d : Text) (now : ℕ)
    → IsBounded limit l
    → IsBounded limit (call l d now).0
call-IsBounded limit l d now b =
    let c = clean_up-IsBounded limit l now b in
    record {
      valid = call-IsValid l d now b.valid;
      fixed = unfold call check in ground (arith, c.fixed);
      few = λ client.
          unfold call in
          ground (arith, c.fixed, c.few client, check_few (clean_up l now) d client now);
    }

pub after-IsBounded :
    (limit : ℕ) (l : RateLimiter) (calls : List (Text × ℕ))
    → IsBounded limit l
    → IsBounded limit (after l calls)
unfolding after
after-IsBounded limit l [] b = b
after-IsBounded limit l ((d, now) ∷ calls) b =
    after-IsBounded limit (call l d now).0 calls (call-IsBounded limit l d now b)

pub new-IsBounded : (limit start : ℕ) → IsBounded limit (new limit start)
unfolding new get
new-IsBounded limit start = record {
  valid = record { distinct = tt; tracked = omega arith };
  fixed = refl;
  few = λ client. omega arith;
}

-- Whatever the clients ask and whenever, as long as the clock does not go back: of the requests
-- that a fresh limiter lets pass, at most `limit` of one client lie in the minute that ends at the
-- time `end`, which is the last request's or later.
pub window_limit :
    (limit start end : ℕ) (client : Text) (calls : List (Text × ℕ))
    → InOrder start calls end
    → length (keep (in_window end) (accepted client (new limit start) calls)) ≤ limit
unfolding keep new get
window_limit limit start end client calls h =
    let fresh = new-IsBounded limit start in
    let last = after (new limit start) calls in
    omega (
      arith,
      ap length (keep-after client (new limit start) calls start end fresh.valid h),
      length-keep-le (in_window end) (times client last),
      (after-IsBounded limit (new limit start) calls fresh).few client,
    )
