-- ===== src/Api/Addresses/Pages.antt =====
-- Pages of addresses: the offset goes to tapd, and is applied again to its answer.
use taproot_assets_rest_gate.Prelude.{
  ℕ, ◌≤◌, Text, ascii, true, Option, none, some, List, [], ◌∷◌, Map, get, length, drop_all,
  text_key, ◌≡◌, ◌⊎◌, inl, inr, ◌++◌, sym, refl, arith, ◌∙◌, ap, zero, suc,
}
use taproot_assets_rest_gate.Prelude.Decimal.{decimal}
use taproot_assets_rest_gate.Json.{Value}
use taproot_assets_rest_gate.Error.{ok}
use taproot_assets_rest_gate.Api.Bodies.Addresses.{Addr}
use taproot_assets_rest_gate.Api.Upstream.{
  Request, Reply, Client, done, send, ◌>>=◌, parse_upstream,
}
use taproot_assets_rest_gate.Api.Endpoint.{Gateway, endpoint, get_request}
use taproot_assets_rest_gate.Api.Addresses.{
  Reader, AddressQueryParams, part, shown, joined, with_parts, query_parts, list_addresses,
  addrs_url, listed, page, taken, read_as,
}

-- What tapd answers with: a success whose document lists these addresses.
pub record Answers (r : Reader) (g : Gateway) (reply : Reply) (xs : List Addr) : Type 0 where
  pub document : Value
  pub lists : Map Text (List Addr)
  pub success : g.http.is_success reply.status ≡ true
  pub json : reply.json ≡ done document
  pub read : r.addr_lists document ≡ some lists
  pub found : get (ascii "addrs") lists ≡ some xs

taken-nil : (limit : Option ℕ) → taken limit [] ≡ []
taken-nil none = refl
taken-nil (some zero) = refl
taken-nil (some (suc n)) = refl

page_empty :
    (p : AddressQueryParams) (n : ℕ) (xs : List Addr)
    → p.offset ≡ some n
    → length xs ≤ n
    → page (some p) xs ≡ []
unfolding page
page_empty p n xs o le = rw o (rw (drop_all n xs le) (taken-nil p.limit))

listed_answer :
    (r : Reader) (g : Gateway) (reply : Reply) (xs : List Addr) (params : Option AddressQueryParams)
    → Answers r g reply xs
    → listed params (read_as r.mismatch r.addr_lists (parse_upstream g.http reply))
      ≡ ok (page params xs)
unfolding parse_upstream
listed_answer r g reply xs params a = rw a.success (rw a.json (rw a.read (rw a.found refl)))

-- A call that is answered lists the addresses of the answer by the page that was asked for.
list_addresses-done :
    (r : Reader) (g : Gateway) (p : AddressQueryParams) (reply : Reply) (client : Client)
    → client (get_request g (addrs_url g (some p))) ≡ done reply
    → (list_addresses r g (some p) client).1
      ≡ listed (some p) (read_as r.mismatch r.addr_lists (parse_upstream g.http reply))
unfolding list_addresses send ◌>>=◌
list_addresses-done r g p reply client h = ground arith

append_assoc {ℓ} : {A : Type ℓ} (xs ys zs : List A) → (xs ++ ys) ++ zs ≡ xs ++ (ys ++ zs)
append_assoc [] ys zs = refl
append_assoc (x ∷ xs) ys zs = ap (λ r. x ∷ r) (append_assoc xs ys zs)

-- A text that ends in a parameter, after a separator.
abbrev pub EndsIn : Text → ℕ → Text → Type 0
EndsIn t sep url = (before : Text) × (url ≡ before ++ sep ∷ t)

joined-EndsIn : (u : Text) (us : List Text) (t : Text) → EndsIn t b'&' (joined (u ∷ (us ++ t ∷ [])))
unfolding joined
joined-EndsIn u [] t = (u, refl)
joined-EndsIn u (v ∷ vs) t =
    let (before, e) = joined-EndsIn v vs t in
    (
      u ++ b'&' ∷ before,
      ap (λ r. u ++ b'&' ∷ r) e ∙ sym (append_assoc u (b'&' ∷ before) (b'&' ∷ t)),
    )

with_parts-EndsIn :
    (url : Text) (ts : List Text) (t : Text)
    → EndsIn t b'?' (with_parts url (ts ++ t ∷ [])) ⊎ EndsIn t b'&' (with_parts url (ts ++ t ∷ []))
unfolding joined
with_parts-EndsIn url [] t = inl (url, refl)
with_parts-EndsIn url (u ∷ us) t =
    let (before, e) = joined-EndsIn u us t in
    inr (
      url ++ b'?' ∷ before,
      ap (λ r. url ++ b'?' ∷ r) e ∙ sym (append_assoc url (b'?' ∷ before) (b'&' ∷ t)),
    )

-- The parts before the last one.
part-append :
    (name : Text) (o : Option Text) (ts : List Text) (t : Text)
    → part name o (ts ++ t ∷ []) ≡ part name o ts ++ t ∷ []
part-append name none ts t = refl
part-append name (some u) ts t = refl

query_parts-last :
    (p : AddressQueryParams) (n : ℕ)
    → p.offset ≡ some n
    → (ts : List Text) × (query_parts p ≡ ts ++ (ascii "offset=" ++ decimal n) ∷ [])
unfolding query_parts
query_parts-last p n o =
    let last : Text = ascii "offset=" ++ decimal n in
    let limits = part (ascii "limit=") (shown p.limit) [] in
    let befores = part (ascii "created_before=") p.created_before limits in
    (
      part (ascii "created_after=") p.created_after befores,
      rw o (
          rw (part-append (ascii "limit=") (shown p.limit) [] last) (
            rw (part-append (ascii "created_before=") p.created_before limits last)
              (part-append (ascii "created_after=") p.created_after befores last))),
    )

-- The URL says the offset, as its last parameter.
addrs_url-EndsIn :
    (g : Gateway) (p : AddressQueryParams) (n : ℕ)
    → p.offset ≡ some n
    → EndsIn (ascii "offset=" ++ decimal n) b'?' (addrs_url g (some p))
      ⊎ EndsIn (ascii "offset=" ++ decimal n) b'&' (addrs_url g (some p))
unfolding addrs_url
addrs_url-EndsIn g p n o =
    let (ts, e) = query_parts-last p n o in
    rw e (with_parts-EndsIn (endpoint g (ascii "addrs")) ts (ascii "offset=" ++ decimal n))

list_addresses-sent :
    (r : Reader) (g : Gateway) (p : AddressQueryParams) (reply : Reply) (client : Client)
    → client (get_request g (addrs_url g (some p))) ≡ done reply
    → (list_addresses r g (some p) client).0 ≡ get_request g (addrs_url g (some p)) ∷ []
unfolding list_addresses send ◌>>=◌
list_addresses-sent r g p reply client h = ground arith

-- The request that was sent says the offset as the last parameter of its query.
abbrev pub Tells : Gateway → ℕ → List Request → Type 0
Tells g n sent =
    (url : Text) × (sent ≡ get_request g url ∷ [])
    × (EndsIn (ascii "offset=" ++ decimal n) b'?' url
        ⊎ EndsIn (ascii "offset=" ++ decimal n) b'&' url)

-- tapd is told the offset in the query of its URL. The page that it answers with, no longer than this
-- offset, is nevertheless answered to the caller as an empty list: the offset is applied to it again.
pub page_skipped :
    (r : Reader) (g : Gateway) (p : AddressQueryParams) (n : ℕ) (reply : Reply) (xs : List Addr)
    → (client : Client) → p.offset ≡ some n
    → client (get_request g (addrs_url g (some p))) ≡ done reply
    → Answers r g reply xs
    → length xs ≤ n
    → let (sent, result) = list_addresses r g (some p) client in Tells g n sent × (result ≡ ok [])
page_skipped r g p n reply xs client o h a le = (
  (addrs_url g (some p), list_addresses-sent r g p reply client h, addrs_url-EndsIn g p n o),
  list_addresses-done r g p reply client h
      ∙ listed_answer r g reply xs (some p) a
      ∙ ap ok (page_empty p n xs o le),
)
