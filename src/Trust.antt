-- ===== src/Trust.antt =====
-- server/src/update_trust.rs: the pinned key, and detached signatures under it. Ed25519 itself is
-- ring's: a parameter, from a raw key, a payload and a signature to whether it verifies.
use luminos.Prelude.{
  ℕ, zero, suc, ◌≡◌, ◌↔◌, refl, Bool, true, not, [], ◌∷◌, Result, ok, ◌>>=◌, ◌>>◌, refuse_if, ◌==◌,
  length, arith,
}
use luminos.Text.{Text, text_eq}

pub data UpdateTrustError : Type 0 where
  invalid_pinned_key invalid_signature : UpdateTrustError

abbrev pub pinned_update_public_key_spki : Text
pinned_update_public_key_spki =
    0x30 ∷ 0x2a ∷ 0x30 ∷ 0x05 ∷ 0x06 ∷ 0x03 ∷ 0x2b ∷ 0x65 ∷ 0x70 ∷ 0x03 ∷ 0x21 ∷ 0x00 ∷ 0xda ∷ 0x85
    ∷ 0x81 ∷ 0xba ∷ 0xcd ∷ 0x43 ∷ 0x80 ∷ 0x51 ∷ 0xfc ∷ 0xe1 ∷ 0x68 ∷ 0x3a ∷ 0x67 ∷ 0xb4 ∷ 0x6a
    ∷ 0x1a ∷ 0x26 ∷ 0xc1 ∷ 0x80 ∷ 0x62 ∷ 0xea ∷ 0xd9 ∷ 0x07 ∷ 0xdc ∷ 0xff ∷ 0x2f ∷ 0x34 ∷ 0xa7
    ∷ 0xfe ∷ 0x93 ∷ 0x6e ∷ 0x97 ∷ []

abbrev pub ed25519_spki_prefix : Text
ed25519_spki_prefix =
    0x30 ∷ 0x2a ∷ 0x30 ∷ 0x05 ∷ 0x06 ∷ 0x03 ∷ 0x2b ∷ 0x65 ∷ 0x70 ∷ 0x03 ∷ 0x21 ∷ 0x00 ∷ []

abbrev take : ℕ → Text → Text
take zero s = []
take (suc n) [] = []
take (suc n) (b ∷ s) = b ∷ take n s

abbrev drop : ℕ → Text → Text
drop zero s = s
drop (suc n) [] = []
drop (suc n) (b ∷ s) = drop n s

unfoldable pub pinned_public_key_spki : Text
pinned_public_key_spki = pinned_update_public_key_spki

-- The checks on the pinned bytes, for any bytes.
unfoldable pub raw_key : Text → Result UpdateTrustError Text
raw_key spki = do
  refuse_if (not (length spki == 44)) invalid_pinned_key
  refuse_if (not (text_eq (take (length ed25519_spki_prefix) spki) ed25519_spki_prefix))
      invalid_pinned_key
  let raw = drop (length ed25519_spki_prefix) spki
  refuse_if (not (length raw == 32)) invalid_pinned_key
  ok raw

unfoldable pub pinned_public_key_raw : Result UpdateTrustError Text
unfolding raw_key pinned_public_key_spki
pinned_public_key_raw = raw_key pinned_public_key_spki

unfoldable pub verify_detached_signature :
    (Text → Text → Text → Bool) → Text → Text → Result UpdateTrustError (Unit {0})
verify_detached_signature ed25519 payload signature = do
  refuse_if (not (length signature == 64)) invalid_signature
  public_key ← pinned_public_key_raw
  refuse_if (not (ed25519 public_key payload signature)) invalid_signature

-- The 32 bytes of the pinned key.
abbrev pub pinned_key : Text
pinned_key = drop 12 pinned_update_public_key_spki

pub pinned_public_key_raw_lem : pinned_public_key_raw ≡ ok pinned_key
unfolding pinned_public_key_raw text_eq
pinned_public_key_raw_lem = refl

-- A signature is accepted exactly if it has 64 bytes and verifies under the pinned key; the pinned
-- key itself is never refused.
pub verify_detached_signature_iff :
    (ed25519 : Text → Text → Text → Bool) (payload signature : Text)
    → (verify_detached_signature ed25519 payload signature ≡ ok tt)
      ↔ ((length signature ≡ 64) × (ed25519 pinned_key payload signature ≡ true))
unfolding verify_detached_signature
verify_detached_signature_iff ed25519 payload signature = (
  λ h. (ground (arith, pinned_public_key_raw_lem), ground (arith, pinned_public_key_raw_lem)),
  λ (sized, verified). ground (arith, pinned_public_key_raw_lem),
)
