-- ===== src/Middleware/RateLimit/Window.antt =====
-- The stored times of a client against the requests that the limiter let pass.
use mathlib.Core.List.{append-nil, append_assoc}
use taproot_assets_rest_gate.Prelude.{
  ℕ, ◌-◌, ◌≤◌, Text, Bool, true, false, ◌&&◌, Option, none, some, List, [], ◌∷◌, ◌++◌, get-insert,
  keep, is_empty, ltb, ◌==◌, text_eq_iff, text_key, ◌≡◌, refl, sym, ◌∙◌, arith, if◌then◌else◌,
  Bool-cases, inl, inr,
}
use taproot_assets_rest_gate.Middleware.RateLimit.{
  RateLimiter, in_window, clean_up, times, or_default, check, call,
}
use taproot_assets_rest_gate.Middleware.RateLimit.Store.{
  IsValid, cleaned, get-drop_old, call-IsValid,
}

keep-append : (p : ℕ → Bool) (xs ys : List ℕ) → keep p (xs ++ ys) ≡ keep p xs ++ keep p ys
unfolding keep
keep-append p [] ys = refl
keep-append p (x ∷ xs) ys = ground (arith, keep-append p xs ys)

-- A time that has left the window stays out.
keep-keep :
    (now later : ℕ) (xs : List ℕ)
    → now ≤ later
    → keep (in_window later) (keep (in_window now) xs) ≡ keep (in_window later) xs
unfolding keep
keep-keep now later [] h = refl
keep-keep now later (x ∷ xs) h = ground (arith, keep-keep now later xs h)

keep-cleaned :
    (now later : ℕ) (o : Option (List ℕ))
    → now ≤ later
    → keep (in_window later) (or_default (cleaned now o)) ≡ keep (in_window later) (or_default o)
keep-cleaned now later none h = refl
keep-cleaned now later (some ts) h = split (keep (in_window now) ts) (keep-keep now later ts h)
  where
    split :
        (left : List ℕ)
        → keep (in_window later) left ≡ keep (in_window later) ts
        → keep (in_window later) (or_default (if is_empty left then none else some left))
          ≡ keep (in_window later) ts
    split [] e = e
    split (x ∷ xs) e = e

module _ (client : Text) where
  keep-clean_up :
      (l : RateLimiter) (now later : ℕ)
      → IsValid l
      → now ≤ later
      → keep (in_window later) (times client (clean_up l now))
        ≡ keep (in_window later) (times client l)
  unfolding clean_up
  keep-clean_up l now later v h =
      elim (Bool-cases (ltb l.cleanup_interval (now - l.last_cleanup))) [
        | inl e ↦
            rw e (rw (get-drop_old now client l.store v.distinct) (keep-cleaned now later _ h))
        | inr e ↦ rw e
      ]

  -- The times that a call lets pass, of this client.
  abbrev pub passes : Bool → ℕ → List ℕ
  passes true now = now ∷ []
  passes false now = []

  keep-check :
      (l : RateLimiter) (d : Text) (now later : ℕ)
      → now ≤ later
      → let (l', accepted) = check l d now in
        keep (in_window later) (times client l')
        ≡ keep (in_window later) (times client l)
          ++ keep (in_window later) (passes (d == client && accepted) now)
  unfolding check keep
  keep-check l d now later h =
      let left = keep (in_window now) (times d l) in
      ground (
        arith,
        get-insert d client left l.store,
        get-insert d client (left ++ now ∷ []) l.store,
        text_eq_iff d client,
        keep-keep now later (times d l) h,
        keep-append (in_window later) left (now ∷ []),
        append-nil (keep (in_window later) (times client l)),
      )

  keep-call :
      (l : RateLimiter) (d : Text) (now later : ℕ)
      → IsValid l
      → now ≤ later
      → let (l', accepted) = call l d now in
        keep (in_window later) (times client l')
        ≡ keep (in_window later) (times client l)
          ++ keep (in_window later) (passes (d == client && accepted) now)
  unfolding call
  keep-call l d now later v h =
      cc (keep-check (clean_up l now) d now later h, keep-clean_up l now later v h)

  -- The client's accepted requests, and the limiter, after a list of requests.
  unfoldable pub accepted : RateLimiter → List (Text × ℕ) → List ℕ
  accepted l [] = []
  accepted l ((d, now) ∷ calls) =
      let (l', passed) = call l d now in passes (d == client && passed) now ++ accepted l' calls

unfoldable pub after : RateLimiter → List (Text × ℕ) → RateLimiter
after l [] = l
after l ((d, now) ∷ calls) = after (call l d now).0 calls

-- The clock does not go back, and `end` is not before the last request.
abbrev pub InOrder : ℕ → List (Text × ℕ) → ℕ → Type 0
InOrder start [] end = start ≤ end
InOrder start ((d, now) ∷ calls) end = (start ≤ now) × InOrder now calls end

InOrder-le : (start end : ℕ) (calls : List (Text × ℕ)) → InOrder start calls end → start ≤ end
InOrder-le start end [] h = h
InOrder-le start end ((d, now) ∷ calls) h = omega (arith, InOrder-le now end calls h.1)

-- The stored times of a client are its accepted requests, as far as the window reaches.
pub keep-after :
    (client : Text) (l : RateLimiter) (calls : List (Text × ℕ)) (start end : ℕ)
    → IsValid l
    → InOrder start calls end
    → keep (in_window end) (times client (after l calls))
      ≡ keep (in_window end) (times client l) ++ keep (in_window end) (accepted client l calls)
unfolding after accepted keep
keep-after client l [] start end v h = sym (append-nil (keep (in_window end) (times client l)))
keep-after client l ((d, now) ∷ calls) start end v h =
    let (l', passed) = call l d now in
    let mine = passes client (d == client && passed) now in
    keep-after client l' calls now end (call-IsValid l d now v) h.1
    ∙ rw
        (
          keep-call client l d now end v (InOrder-le now end calls h.1),
          keep-append (in_window end) mine (accepted client l' calls),
          append_assoc,
        )
        refl
