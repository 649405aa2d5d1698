-- ===== src/Discovery/Gate.antt =====
-- The order of the steps in server/src/update_discovery.rs: nothing of a manifest is used, stored
-- or offered before its signature has been verified.
use luminos.Prelude.{◌≡◌, sym, ◌∙◌, false, ok, err, arith, Result-cases, Option-cases, inl, inr}
use luminos.Text.{Text}
use luminos.State.Types.{UpdateChannel}
use luminos.State.Channel
use luminos.State.Db.{Db, Env}
use luminos.Trust.{verify_detached_signature, verify_detached_signature_iff, pinned_key}
use luminos.Discovery.Types.{DiscoveryError, ValidatedManifest, Crates}
use luminos.Discovery.Manifest.{validate_manifest_value, verify_and_parse_manifest}
use luminos.Discovery.Service.{
  fetch_pair, check_channel, fetch_validated_manifest_for_versions, check_channel_for_versions,
  evaluate_signed_manifest_with_state,
}

module _ (x : Crates) (env : Env) where
  open env use {parse_from_rfc3339 as f}

  pub parsed_is_verified :
      (c : UpdateChannel) (bytes signature : Text) (m : ValidatedManifest)
      → verify_and_parse_manifest x f c bytes signature ≡ ok m
      → verify_detached_signature x.ed25519 bytes signature ≡ ok tt
  unfolding verify_and_parse_manifest
  parsed_is_verified c bytes signature m h = ground arith

  pub parsed_value :
      (c : UpdateChannel) (bytes signature : Text) (m : ValidatedManifest)
      → verify_and_parse_manifest x f c bytes signature ≡ ok m
      → (value : x.Value) × (validate_manifest_value x f value c ≡ ok m)
  unfolding verify_and_parse_manifest
  parsed_value c bytes signature m h = elim (Option-cases (x.from_slice bytes)) [
    | inl missing ↦ absurd (ground arith)
    | inr (value, read) ↦ (value, ground arith)
  ]

  forged_is_refused :
      (c : UpdateChannel) (bytes signature : Text)
      → x.ed25519 pinned_key bytes signature ≡ false
      → (e : DiscoveryError) × (verify_and_parse_manifest x f c bytes signature ≡ err e)
  forged_is_refused c bytes signature bad =
      elim (Result-cases (verify_and_parse_manifest x f c bytes signature)) [
        | inr failed ↦ failed
        | inl (m, read) ↦
            let (sized, good) =
              (verify_detached_signature_iff x.ed25519 bytes signature).0
                (parsed_is_verified c bytes signature m read) in
            absurd (cc (sym good ∙ bad))
      ]

  check_forged :
      (c : UpdateChannel) (running : Text) (db : Db) (bytes signature : Text) (e : DiscoveryError)
      → Channel.is_disabled c ≡ false
      → fetch_pair x env c ≡ ok (bytes, signature)
      → verify_and_parse_manifest x f c bytes signature ≡ err e
      → check_channel x env c running db ≡ (err e, db)
  unfolding check_channel evaluate_signed_manifest_with_state
  check_forged c running db bytes signature e on fetched bad = ground arith

  check_forged_for_versions :
      (c : UpdateChannel) (running agent : Text) (db : Db) (bytes signature : Text)
      (e : DiscoveryError)
      → Channel.is_disabled c ≡ false
      → fetch_pair x env c ≡ ok (bytes, signature)
      → verify_and_parse_manifest x f c bytes signature ≡ err e
      → check_channel_for_versions x env c running agent db ≡ (err e, db)
  unfolding check_channel_for_versions fetch_validated_manifest_for_versions
  check_forged_for_versions c running agent db bytes signature e on fetched bad = ground arith

  -- A fetched manifest whose signature does not verify under the pinned key ends both checks of an
  -- enabled channel with an error, and not one statement is sent to the store.
  pub forged_is_inert :
      (c : UpdateChannel) (running agent : Text) (db : Db) (bytes signature : Text)
      → Channel.is_disabled c ≡ false
      → fetch_pair x env c ≡ ok (bytes, signature)
      → x.ed25519 pinned_key bytes signature ≡ false
      → (e : DiscoveryError) × (check_channel x env c running db ≡ (err e, db))
        × (check_channel_for_versions x env c running agent db ≡ (err e, db))
  forged_is_inert c running agent db bytes signature on fetched bad =
      let (e, refused) = forged_is_refused c bytes signature bad in
      (
        e,
        check_forged c running db bytes signature e on fetched refused,
        check_forged_for_versions c running agent db bytes signature e on fetched refused,
      )
