-- ===== src/Examples/Parts.antt =====
-- Concrete libraries for the examples: status codes, a JSON notation that can be read back, and a
-- signature scheme in which the signature is the key followed by the message.
use taproot_assets_rest_gate.Prelude.{
  ℕ, Text, true, false, ◌&&◌, Option, none, some, List, [], ◌∷◌, ◌++◌, leb, ltb, text_eq, nat_eq,
  if◌then◌else◌, ◌≡◌, refl, arith, ◌∙◌, sym, ap,
}
use taproot_assets_rest_gate.Prelude.Int.{pos, negsuc}
use taproot_assets_rest_gate.Json.{
  Value, null, boolean, integer, number, string, array, object, Items, nil, cons, Fields, end,
  field, Serde, SerdeLaws,
}
use taproot_assets_rest_gate.Error.{Http, HttpLaws}
use taproot_assets_rest_gate.Crypto.{Library, parsed}

abbrev pub http : Http
http = record {
  from_u16_ok = λ s. leb 100 s && ltb s 1000;
  is_success = λ s. leb 200 s && ltb s 300;
}

pub http_laws : HttpLaws http
http_laws = record { success_iff = λ s. ground arith; from_u16_iff = λ s. ground arith }

-- Instructions of a stack machine, each with an argument, that build the document.
unfoldable pub write_text : Text → Text → Text
write_text [] k = 0 ∷ 0 ∷ k
write_text (c ∷ s) k = write_text s (1 ∷ c ∷ k)

unfoldable mutual
  unfolding write_text

  pub write_value : Value → Text → Text
  write_value null k = 2 ∷ 0 ∷ k
  write_value (boolean true) k = 3 ∷ 1 ∷ k
  write_value (boolean false) k = 3 ∷ 0 ∷ k
  write_value (integer (pos n)) k = 4 ∷ n ∷ k
  write_value (integer (negsuc n)) k = 5 ∷ n ∷ k
  write_value (number t) k = write_text t (6 ∷ 0 ∷ k)
  write_value (string t) k = write_text t (7 ∷ 0 ∷ k)
  write_value (array r) k = write_items r (8 ∷ 0 ∷ k)
  write_value (object r) k = write_fields r (9 ∷ 0 ∷ k)

  pub write_items : Items → Text → Text
  write_items nil k = 10 ∷ 0 ∷ k
  write_items (cons v r) k = write_items r (write_value v (11 ∷ 0 ∷ k))

  pub write_fields : Fields → Text → Text
  write_fields end k = 12 ∷ 0 ∷ k
  write_fields (field t v r) k = write_fields r (write_value v (write_text t (13 ∷ 0 ∷ k)))

pub data Cell : Type 0 where
  text : Text → Cell
  value : Value → Cell
  items : Items → Cell
  fields : Fields → Cell

push_char : ℕ → List Cell → List Cell
push_char n (text s ∷ st) = text (n ∷ s) ∷ st
push_char n st = []

of_text : (Text → Value) → List Cell → List Cell
of_text f (text s ∷ st) = value (f s) ∷ st
of_text f st = []

of_items : List Cell → List Cell
of_items (items r ∷ st) = value (array r) ∷ st
of_items st = []

of_fields : List Cell → List Cell
of_fields (fields r ∷ st) = value (object r) ∷ st
of_fields st = []

push_item : List Cell → List Cell
push_item (value v ∷ items r ∷ st) = items (cons v r) ∷ st
push_item st = []

push_field : List Cell → List Cell
push_field (text t ∷ value v ∷ fields r ∷ st) = fields (field t v r) ∷ st
push_field st = []

unfoldable pub execute : ℕ → ℕ → List Cell → List Cell
unfolding push_char of_text of_items of_fields push_item push_field
execute op n st =
    if nat_eq op 0
    then text [] ∷ st
    else if nat_eq op 1
    then push_char n st
    else if nat_eq op 2
    then value null ∷ st
    else if nat_eq op 3
    then value (boolean (nat_eq n 1)) ∷ st
    else if nat_eq op 4
    then value (integer (pos n)) ∷ st
    else if nat_eq op 5
    then value (integer (negsuc n)) ∷ st
    else if nat_eq op 6
    then of_text number st
    else if nat_eq op 7
    then of_text string st
    else if nat_eq op 8
    then of_items st
    else if nat_eq op 9
    then of_fields st
    else if nat_eq op 10
    then items nil ∷ st
    else if nat_eq op 11
    then push_item st
    else if nat_eq op 12
    then fields end ∷ st
    else push_field st

unfoldable pub read : Text → List Cell → Option Value
read (op ∷ n ∷ k) st = read k (execute op n st)
read [] (value v ∷ []) = some v
read _ _ = none

read-write_text : (s k : Text) (st : List Cell) → read (write_text s k) st ≡ read k (text s ∷ st)
unfolding read write_text execute
read-write_text [] k st = refl
read-write_text (c ∷ s) k st = read-write_text s (1 ∷ c ∷ k) st

mutual
  unfolding read write_value execute

  read-write_value :
      (v : Value) (k : Text) (st : List Cell) → read (write_value v k) st ≡ read k (value v ∷ st)
  read-write_value null k st = refl
  read-write_value (boolean true) k st = refl
  read-write_value (boolean false) k st = refl
  read-write_value (integer (pos n)) k st = refl
  read-write_value (integer (negsuc n)) k st = refl
  read-write_value (number t) k st = read-write_text t (6 ∷ 0 ∷ k) st
  read-write_value (string t) k st = read-write_text t (7 ∷ 0 ∷ k) st
  read-write_value (array r) k st = read-write_items r (8 ∷ 0 ∷ k) st
  read-write_value (object r) k st = read-write_fields r (9 ∷ 0 ∷ k) st

  read-write_items :
      (r : Items) (k : Text) (st : List Cell) → read (write_items r k) st ≡ read k (items r ∷ st)
  read-write_items nil k st = refl
  read-write_items (cons v r) k st =
      read-write_items r _ st ∙ read-write_value v (11 ∷ 0 ∷ k) (items r ∷ st)

  read-write_fields :
      (r : Fields) (k : Text) (st : List Cell) → read (write_fields r k) st ≡ read k (fields r ∷ st)
  read-write_fields end k st = refl
  read-write_fields (field t v r) k st =
      read-write_fields r _ st
      ∙ read-write_value v _ (fields r ∷ st)
      ∙ read-write_text t (13 ∷ 0 ∷ k) (value v ∷ fields r ∷ st)

abbrev pub serde : Serde
serde = record { from_str = λ t. read t []; to_string = λ v. some (write_value v []) }

pub serde_laws : SerdeLaws serde
unfolding read
serde_laws = record {
  written = λ v. refl;
  read_back = λ v t h. ap (λ x. read x []) (sym (some_injective h)) ∙ read-write_value v [] [];
}
  where
    some_injective : {s t : Text} → some s ≡ some t → s ≡ t
    some_injective h = cc

abbrev pub library : Library
library = record {
  PublicKey = Text;
  XOnlyPublicKey = Text;
  Signature = Text;
  SchnorrSignature = Text;
  Message = Text;
  public_key = parsed;
  x_only_public_key = parsed;
  hex_decode = parsed;
  base64_decode = parsed;
  signature = parsed;
  schnorr_signature = parsed;
  sha256 = λ m. m;
  from_digest_slice = parsed;
  from_digest = λ m. m;
  verify_ecdsa = λ m s k. text_eq s (k ++ m);
  verify_schnorr = λ s m k. text_eq s (k ++ m);
}
