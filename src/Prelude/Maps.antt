-- ===== src/Prelude/Maps.antt =====
-- `HashMap` as an association list. The order of its entries is not observed by the program, but
-- for the order in which lists of keys are returned.
use Prim.Native.Nat.{suc, ◌≤◌}
use mathlib.Core.Path.{◌≡◌, refl, ap}
use mathlib.Core.Bool.{Bool}
use mathlib.Core.List.{List, [], ◌∷◌}
use mathlib.Core.Option
use mathlib.Core.Option.{Option, none, some}
use native.Mathlib.Omega.{arith}
use taproot_assets_rest_gate.Prelude.Tests.{if◌then◌else◌, Eq, ◌==◌, ==_iff, is_some}
use taproot_assets_rest_gate.Prelude.Lists.{length}

abbrev pub Map {ℓ κ} : Type ℓ → Type κ → Type (ℓ ⊔ κ)
Map K V = List (K × V)

module _ {ℓ κ} {K : Type ℓ} {V : Type κ} where
  abbrev pub keys : Map K V → List K
  keys [] = []
  keys ((k, v) ∷ m) = k ∷ keys m

  abbrev pub values : Map K V → List V
  values [] = []
  values ((k, v) ∷ m) = v ∷ values m

  unfoldable pub retain : (K → V → Bool) → Map K V → Map K V
  retain p [] = []
  retain p ((k, v) ∷ m) = let rest = retain p m in if p k v then (k, v) ∷ rest else rest

  pub length-retain-le : (p : K → V → Bool) (m : Map K V) → length (retain p m) ≤ length m
  unfolding retain
  length-retain-le p [] = omega arith
  length-retain-le p ((k, v) ∷ m) = ground (arith, length-retain-le p m)

  abbrev pub if_kept : (K → V → Bool) → K → Option V → Option V
  if_kept p k none = none
  if_kept p k (some v) = if p k v then some v else none

module _ {ℓ κ} {K : Type ℓ} {V : Type κ} ⦃e : Eq K⦄ where
  unfoldable pub get : K → Map K V → Option V
  get k [] = none
  get k ((j, v) ∷ m) = if j == k then some v else get k m

  unfoldable pub remove : K → Map K V → Map K V
  remove k [] = []
  remove k ((j, v) ∷ m) = let rest = remove k m in if j == k then rest else (j, v) ∷ rest

  unfoldable pub insert : K → V → Map K V → Map K V
  insert k v m = (k, v) ∷ remove k m

  -- `if let Some(v) = m.get_mut(k) { *v = f(*v) }`.
  unfoldable pub modify : K → (V → V) → Map K V → Map K V
  modify k f [] = []
  modify k f ((j, v) ∷ m) = (j, if j == k then f v else v) ∷ modify k f m

  abbrev pub contains_key : K → Map K V → Bool
  contains_key k m = is_some (get k m)

  -- No key occurs twice.
  abbrev pub IsMap : Map K V → Type κ
  IsMap [] = Unit
  IsMap ((k, v) ∷ m) = (get k m ≡ none) × IsMap m

  pub get-remove : (k j : K) (m : Map K V) → get j (remove k m) ≡ (if k == j then none else get j m)
  unfolding get remove
  get-remove k j [] = ground arith
  get-remove k j ((i, v) ∷ m) = ground (arith, get-remove k j m, ==_iff i k, ==_iff i j, ==_iff k j)

  pub get-insert :
      (k j : K) (v : V) (m : Map K V) → get j (insert k v m) ≡ (if k == j then some v else get j m)
  unfolding get insert
  get-insert k j v m = ground (arith, get-remove k j m)

  pub get-modify :
      (k j : K) (f : V → V) (m : Map K V)
      → get j (modify k f m) ≡ (if k == j then Option.map f (get j m) else get j m)
  unfolding get modify
  get-modify k j f [] = ground arith
  get-modify k j f ((i, v) ∷ m) =
      ground (arith, get-modify k j f m, ==_iff i k, ==_iff i j, ==_iff k j)

  pub get-retain :
      (p : K → V → Bool) (j : K) (m : Map K V)
      → IsMap m
      → get j (retain p m) ≡ if_kept p j (get j m)
  unfolding get retain
  get-retain p j [] d = refl
  get-retain p j ((i, v) ∷ m) d = ground (arith, get-retain p j m d.1, ==_iff i j)

  pub IsMap-remove : (k : K) (m : Map K V) → IsMap m → IsMap (remove k m)
  unfolding remove
  IsMap-remove k [] d = tt
  IsMap-remove k ((i, v) ∷ m) d = ground (arith, IsMap-remove k m d.1, get-remove k i m)

  pub IsMap-insert : (k : K) (v : V) (m : Map K V) → IsMap m → IsMap (insert k v m)
  unfolding insert
  IsMap-insert k v m d = ground (arith, get-remove k k m, ==_iff k k, IsMap-remove k m d)

  pub IsMap-modify : (k : K) (f : V → V) (m : Map K V) → IsMap m → IsMap (modify k f m)
  unfolding modify
  IsMap-modify k f [] d = tt
  IsMap-modify k f ((i, v) ∷ m) d = ground (arith, IsMap-modify k f m d.1, get-modify k i f m)

  pub IsMap-retain : (p : K → V → Bool) (m : Map K V) → IsMap m → IsMap (retain p m)
  unfolding retain
  IsMap-retain p [] d = tt
  IsMap-retain p ((i, v) ∷ m) d = ground (arith, IsMap-retain p m d.1, get-retain p i m d.1)

  pub remove_absent : (k : K) (m : Map K V) → get k m ≡ none → remove k m ≡ m
  unfolding get remove
  remove_absent k [] h = refl
  remove_absent k ((i, v) ∷ m) h = ground (arith, remove_absent k m)

  pub length-remove_absent : (k : K) (m : Map K V) → get k m ≡ none → length (remove k m) ≡ length m
  length-remove_absent k m h = ap length (remove_absent k m h)

  pub length-remove :
      (k : K) (m : Map K V) (v : V)
      → IsMap m
      → get k m ≡ some v
      → suc (length (remove k m)) ≡ length m
  unfolding get remove
  length-remove k [] v d h = ground arith
  length-remove k ((i, w) ∷ m) v d h =
      ground (arith, length-remove k m v d.1, ==_iff i k, length-remove_absent k m)

  pub length-modify : (k : K) (f : V → V) (m : Map K V) → length (modify k f m) ≡ length m
  unfolding modify
  length-modify k f [] = refl
  length-modify k f ((i, w) ∷ m) = ap suc (length-modify k f m)

  pub length-insert_new :
      (k : K) (v : V) (m : Map K V) → get k m ≡ none → length (insert k v m) ≡ suc (length m)
  unfolding insert
  length-insert_new k v m h = ap suc (length-remove_absent k m h)

  pub length-insert_old :
      (k : K) (v w : V) (m : Map K V)
      → IsMap m
      → get k m ≡ some w
      → length (insert k v m) ≡ length m
  unfolding insert
  length-insert_old k v w m d h = length-remove k m w d h

pub ruleset map_laws = (get-remove, get-insert, get-modify)
