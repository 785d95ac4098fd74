-- ===== src/Crypto/Keys.antt =====
-- A signature is accepted under a key of its kind only.
use taproot_assets_rest_gate.Prelude.{
  Text, true, some, length, ◌==◌, nat_key, ◌≡◌, ◌≢◌, ◌⊎◌, ◌↔◌, inl, inr, refl, ap, arith,
  Bool-cases,
}
use taproot_assets_rest_gate.Error.{Result, ok, err, ◌>>=◌}
use taproot_assets_rest_gate.Crypto.{
  Parsed, parsed, rejected, Library, or_invalid, is_parsed, signature_bytes, verify_signature,
  verify_schnorr_signature, derive_public_key_from_receiver_id, verify_with_key,
}

-- The library accepts the signature, under the key that the text stands for: an x-only key where
-- it has 64 characters, a full one otherwise.
abbrev pub IsSignedEcdsa : Library → Text → Text → Text → Type 0
IsSignedEcdsa lib message signature key =
    (k : lib.PublicKey) × (s : lib.Signature) × (m : lib.Message) × (bytes : Text) × (lib.public_key
        key
      ≡ parsed k)
    × (signature_bytes lib signature ≡ ok bytes)
    × (lib.signature bytes ≡ parsed s)
    × (lib.from_digest_slice (lib.sha256 message) ≡ parsed m)
    × (lib.verify_ecdsa m s k ≡ true)

abbrev pub IsSignedSchnorr : Library → Text → Text → Text → Type 0
IsSignedSchnorr lib message signature key =
    (k : lib.XOnlyPublicKey) × (s : lib.SchnorrSignature) × (bytes : Text) × (lib.x_only_public_key
        key
      ≡ parsed k)
    × (signature_bytes lib signature ≡ ok bytes)
    × (lib.schnorr_signature bytes ≡ parsed s)
    × (lib.verify_schnorr s (lib.from_digest (lib.sha256 message)) k ≡ true)

or_invalid_ok :
    {A : Type 0} (p : Parsed A) (m : Text) (a : A) → or_invalid p m ≡ ok a → p ≡ parsed a
or_invalid_ok (parsed b) m a h = ground arith
or_invalid_ok (rejected e) m a h = ground arith

-- What a chain that succeeds passed through.
result_inv :
    {A B : Type 0} (first : Result A) {rest : A → Result B} {value : B}
    → (first >>= rest) ≡ ok value
    → (middle : A) × ((first ≡ ok middle) × (rest middle ≡ ok value))
result_inv (ok middle) passed = (middle, (refl, passed))
result_inv (err failure) passed = absurd (ground arith)

ok_injective : {A : Type 0} {a b : A} → ok a ≡ ok b → a ≡ b
ok_injective h = cc

module _ (lib : Library) (message signature key : Text) where
  verify_signature_sound :
      verify_signature lib message signature key ≡ ok true → IsSignedEcdsa lib message signature key
  unfolding verify_signature
  verify_signature_sound h =
      let (k, (p, h₁)) = result_inv (or_invalid (lib.public_key key) _) h in
      let (bytes, (q, h₂)) = result_inv (signature_bytes lib signature) h₁ in
      let (s, (r, h₃)) = result_inv (or_invalid (lib.signature bytes) _) h₂ in
      let (m, (t, h₄)) =
        result_inv (or_invalid (lib.from_digest_slice (lib.sha256 message)) _) h₃ in
      (
        k,
        s,
        m,
        bytes,
        or_invalid_ok _ _ k p,
        q,
        or_invalid_ok _ _ s r,
        or_invalid_ok _ _ m t,
        ok_injective h₄,
      )

  verify_signature_complete :
      IsSignedEcdsa lib message signature key → verify_signature lib message signature key ≡ ok true
  unfolding verify_signature
  verify_signature_complete (k, s, m, bytes, p, q, r, t, v) = rw (p, q) (rw r (rw t (ap ok v)))

  verify_schnorr_signature_sound :
      verify_schnorr_signature lib message signature key ≡ ok true
      → IsSignedSchnorr lib message signature key
  unfolding verify_schnorr_signature
  verify_schnorr_signature_sound h =
      let (k, (p, h₁)) = result_inv (or_invalid (lib.x_only_public_key key) _) h in
      let (bytes, (q, h₂)) = result_inv (signature_bytes lib signature) h₁ in
      let (s, (r, h₃)) = result_inv (or_invalid (lib.schnorr_signature bytes) _) h₂ in
      (k, s, bytes, or_invalid_ok _ _ k p, q, or_invalid_ok _ _ s r, ok_injective h₃)

  verify_schnorr_signature_complete :
      IsSignedSchnorr lib message signature key
      → verify_schnorr_signature lib message signature key ≡ ok true
  unfolding verify_schnorr_signature
  verify_schnorr_signature_complete (k, s, bytes, p, q, r, v) = rw (p, q) (rw r (ap ok v))

-- The signature is good under the key, which is an x-only key where it has 64 characters.
abbrev pub IsSigned : Library → Text → Text → Text → Type 0
IsSigned lib message signature key =
    ((length key ≡ 64) × IsSignedSchnorr lib message signature key)
    ⊎ ((length key ≢ 64) × IsSignedEcdsa lib message signature key)

-- A signature is accepted exactly when key and signature parse and the library verifies it, by
-- Schnorr under a key of 64 characters and by ECDSA under any other.
pub verify_with_key_iff :
    (lib : Library) (message signature key : Text)
    → (verify_with_key lib message signature key ≡ ok true) ↔ IsSigned lib message signature key
unfolding verify_with_key
verify_with_key_iff lib message signature key = elim (Bool-cases (length key == 64)) [
  | inl e ↦
      let same : length key ≡ 64 = ground arith in
      rw e (
        (λ h. inl (same, verify_schnorr_signature_sound lib message signature key h)),
        elim [
          | inl (_, s) ↦ verify_schnorr_signature_complete lib message signature key s
          | inr (n, _) ↦ absurd (n same)
        ],
      )
  | inr e ↦
      let differs : length key ≢ 64 = ground arith in
      rw e (
        (λ h. inr (differs, verify_signature_sound lib message signature key h)),
        elim [
          | inl (p, _) ↦ absurd (differs p)
          | inr (_, s) ↦ verify_signature_complete lib message signature key s
        ],
      )
]

-- A key that is read off a receiver ID is the ID, and of the kind that its length promises, so that
-- the choice between the two kinds of signature by the length does not fail on the key.
derived_key :
    (lib : Library) (receiver_id key : Text)
    → derive_public_key_from_receiver_id lib receiver_id ≡ ok (some key)
    → (key ≡ receiver_id)
      × (((length key ≡ 64) × (is_parsed (lib.x_only_public_key key) ≡ true))
          ⊎ (((length key ≡ 66) ⊎ (length key ≡ 130)) × (is_parsed (lib.public_key key) ≡ true)))
unfolding derive_public_key_from_receiver_id
derived_key lib receiver_id key h =
    let same : key ≡ receiver_id = ground arith in (same, rw same (ground arith))
