-- ===== src/Middleware/RateLimit/Store.antt =====
-- The store keeps one entry for a client, and no more clients than the limit.
use taproot_assets_rest_gate.Prelude.{
  ℕ, ◌≤◌, Text, false, not, ◌&&◌, Option, none, some, List, [], ◌∷◌, ◌++◌, Map, get, insert, IsMap,
  IsMap-insert, length, length-insert_new, length-insert_old, keep, is_empty, leb, contains_key,
  text_eq_iff, text_key, ◌≡◌, refl, arith, if◌then◌else◌, Bool-cases, Option-cases, inl, inr,
}
use taproot_assets_rest_gate.Middleware.RateLimit.{
  RateLimiter, in_window, drop_old, clean_up, times, check, call,
}

pub record IsValid (l : RateLimiter) : Type 0 where
  pub distinct : IsMap l.store
  pub tracked : length l.store ≤ l.max_tracked_ips

-- What a cleanup leaves of a client's entry.
abbrev pub cleaned : ℕ → Option (List ℕ) → Option (List ℕ)
cleaned now none = none
cleaned now (some ts) =
    let left = keep (in_window now) ts in if is_empty left then none else some left

pub get-drop_old :
    (now : ℕ) (client : Text) (store : Map Text (List ℕ))
    → IsMap store
    → get client (drop_old now store) ≡ cleaned now (get client store)
unfolding get drop_old
get-drop_old now client [] d = refl
get-drop_old now client ((c, ts) ∷ store) d =
    ground (arith, get-drop_old now client store d.1, text_eq_iff c client)

IsMap-drop_old : (now : ℕ) (store : Map Text (List ℕ)) → IsMap store → IsMap (drop_old now store)
unfolding drop_old
IsMap-drop_old now [] d = tt
IsMap-drop_old now ((c, ts) ∷ store) d =
    ground (arith, IsMap-drop_old now store d.1, get-drop_old now c store d.1)

length-drop_old-le :
    (now : ℕ) (store : Map Text (List ℕ)) → length (drop_old now store) ≤ length store
unfolding drop_old
length-drop_old-le now [] = omega arith
length-drop_old-le now ((c, ts) ∷ store) = ground (arith, length-drop_old-le now store)

pub clean_up-IsValid : (l : RateLimiter) (now : ℕ) → IsValid l → IsValid (clean_up l now)
unfolding clean_up
clean_up-IsValid l now v =
    ground (arith, IsMap-drop_old now l.store v.distinct, length-drop_old-le now l.store)

insert-IsValid :
    (l : RateLimiter) (client : Text) (ts : List ℕ)
    → IsValid l
    → (not (contains_key client l.store) && leb l.max_tracked_ips (length l.store)) ≡ false
    → IsValid (record l { store = insert client ts l.store })
insert-IsValid l client ts v room = record {
  distinct = IsMap-insert client ts l.store v.distinct;
  tracked = elim (Option-cases (get client l.store)) [
    | inl e ↦ ground (arith, length-insert_new client ts l.store e)
    | inr (old, e) ↦ ground (arith, length-insert_old client ts old l.store v.distinct e)
  ];
}

-- Every request, accepted or not, keeps one entry for each client and at most `max_tracked_ips`.
pub call-IsValid :
    (l : RateLimiter) (client : Text) (now : ℕ) → IsValid l → IsValid (call l client now).0
unfolding call check
call-IsValid l client now v =
    let v' = clean_up-IsValid l now v in
    let l' = clean_up l now in
    elim (Bool-cases
      (not (contains_key client l'.store) && leb l'.max_tracked_ips (length l'.store))) [
        | inl full ↦ rw full v'
        | inr room ↦ rw room (
            ground (
              arith,
              insert-IsValid l' client (keep (in_window now) (times client l')) v' room,
              insert-IsValid l' client (keep (in_window now) (times client l') ++ now ∷ []) v' room,
            ))
      ]
