-- ===== src/Json.antt =====
-- The JSON documents of serde_json, and the accessors that the gateway uses.
use taproot_assets_rest_gate.Prelude.{
  Text, Bool, true, Option, none, some, List, [], ◌∷◌, ◌==◌, ==_iff, text_key, ◌≡◌, refl, arith,
  if◌then◌else◌, is_some,
}
use taproot_assets_rest_gate.Prelude.Int.{ℤ}

-- `integer` holds the numbers that `as_i64` returns, `number` the others by their text.
mutual
  pub data Value : Type 0 where
    null : Value
    boolean : Bool → Value
    integer : ℤ → Value
    number : Text → Value
    string : Text → Value
    array : Items → Value
    object : Fields → Value

  pub data Items : Type 0 where
    nil : Items
    cons : Value → Items → Items

  pub data Fields : Type 0 where
    end : Fields
    field : Text → Value → Fields → Fields

abbrev pub items : Items → List Value
items nil = []
items (cons v r) = v ∷ items r

abbrev pub of_list : List Value → Items
of_list [] = nil
of_list (v ∷ r) = cons v (of_list r)

pub items-of_list : (vs : List Value) → items (of_list vs) ≡ vs
items-of_list [] = refl
items-of_list (v ∷ r) = λ i. v ∷ items-of_list r i

unfoldable pub lookup : Text → Fields → Option Value
lookup k end = none
lookup k (field j v r) = if j == k then some v else lookup k r

-- `Map::insert`: an old value is replaced.
unfoldable pub insert : Text → Value → Fields → Fields
insert k v end = field k v end
insert k v (field j w r) = let rest = insert k v r in if j == k then field k v r else field j w rest

pub lookup-insert :
    (k j : Text) (v : Value) (r : Fields)
    → lookup j (insert k v r) ≡ (if k == j then some v else lookup j r)
unfolding lookup insert
lookup-insert k j v end = refl
lookup-insert k j v (field i w r) =
    ground (arith, lookup-insert k j v r, ==_iff i k, ==_iff i j, ==_iff k j)

abbrev pub contains_key : Text → Fields → Bool
contains_key k r = is_some (lookup k r)

abbrev pub as_object : Value → Option Fields
as_object (object r) = some r
as_object v = none

abbrev pub as_array : Value → Option (List Value)
as_array (array r) = some (items r)
as_array v = none

abbrev pub as_str : Value → Option Text
as_str (string s) = some s
as_str v = none

abbrev pub as_i64 : Value → Option ℤ
as_i64 (integer z) = some z
as_i64 v = none

abbrev pub as_bool : Value → Option Bool
as_bool (boolean b) = some b
as_bool v = none

-- `Value::get`: a field of an object.
abbrev pub at : Text → Value → Option Value
at k (object r) = lookup k r
at k v = none

infixl 20 ◌and_then◌
abbrev pub ◌and_then◌ {ℓ κ} : {A : Type ℓ} {B : Type κ} → Option A → (A → Option B) → Option B
none and_then f = none
some a and_then f = f a

-- serde_json's reader and writer, which are not part of the program.
pub record Serde : Type 0 where
  pub from_str : Text → Option Value
  pub to_string : Value → Option Text

-- What is documented of them: a document is written, and read back as it was.
pub record SerdeLaws (s : Serde) : Type 0 where
  pub written : (v : Value) → is_some (s.to_string v) ≡ true
  pub read_back : (v : Value) (t : Text) → s.to_string v ≡ some t → s.from_str t ≡ some v
