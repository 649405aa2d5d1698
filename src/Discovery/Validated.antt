-- ===== src/Discovery/Validated.antt =====
-- What a manifest that passes `validate_manifest_value` of server/src/update_discovery.rs is.
use luminos.Prelude.{
  ℕ, ◌≤◌, ◌<◌, ◌≡◌, refl, true, false, Option, some, ◌++◌, ok, arith, Option-cases, Result-cases,
  inl, inr, ◌⊎◌,
}
use luminos.Text.{Text, codes, text_eq_iff, ends_with}
use luminos.Version.{NumericVersion}
use luminos.State.Types.{UpdateChannel, ManifestReplayCandidate}
use luminos.State.Channel
use luminos.State.Validate
use luminos.State.Validate.{validate_digest, parse_timestamp}
use luminos.State.Rows.{check_candidate}
use luminos.Distribution.Policy.{
  Url, validate_package_size, validate_release_asset_url, max_package_bytes,
}
use luminos.Discovery.Types.{ManifestDocument, ValidatedManifest, Crates}
use luminos.Discovery.Manifest.{
  parse_version, valid_lower_hex, valid_release_id, expected_channel_name, validate_document,
  validate_manifest_value,
}
use mathlib.Core.List.{reverse-append}
use luminos.State.Types
use luminos.Distribution.Assets.{IsLeaf, validate_release_asset_url_iff}
use luminos.Discovery.Service.{candidate}
use luminos.Discovery.Versions.{parse_versions_agree}

-- What the parts of a validated manifest satisfy.
pub record IsSound (parse_url : Text → Option Url) (parse_from_rfc3339 : Text → Option ℕ)
    (m : ValidatedManifest) : Type 0 where
  pub release : valid_release_id m.version m.release_id ≡ true
  pub commit : valid_lower_hex m.source_commit 40 ≡ true
  pub digest : valid_lower_hex m.package_sha256 64 ≡ true
  pub size_pos : 0 < m.package_size
  pub size_bounded : m.package_size ≤ max_package_bytes
  pub download :
      validate_release_asset_url parse_url m.package_download_url m.package_filename ≡ ok tt
  pub signature :
      validate_release_asset_url parse_url m.package_signature_url
        (m.package_filename ++ codes ".sig")
      ≡ ok tt

module _ (parse_url : Text → Option Url) (f : Text → Option ℕ) (d : ManifestDocument)
    (c : UpdateChannel) (m : ValidatedManifest) (h : validate_document parse_url f d c ≡ ok m) where
  document-IsSound : IsSound parse_url f m
  unfolding validate_document validate_package_size
  document-IsSound = record {
    release = ground arith;
    commit = ground arith;
    digest = ground arith;
    size_pos = ground arith;
    size_bounded = ground arith;
    download = ground arith;
    signature = ground arith;
  }

  document-version : (v : NumericVersion) × (parse_version m.version ≡ ok v)
  unfolding validate_document
  document-version = elim (Result-cases (parse_version d.version)) [
    | inl (v, read) ↦ (v, ground arith)
    | inr (e, failed) ↦ absurd (ground arith)
  ]

  document-published : (t : ℕ) × (f m.published_at ≡ some t)
  unfolding validate_document
  document-published = elim (Option-cases (f d.published_at)) [
    | inl missing ↦ absurd (ground arith)
    | inr (t, read) ↦ (t, ground arith)
  ]

  document-channel : expected_channel_name c ≡ ok d.channel
  unfolding validate_document
  document-channel = elim (Result-cases (expected_channel_name c)) [
    | inl (name, named) ↦ ground (arith, text_eq_iff d.channel name)
    | inr (e, failed) ↦ absurd (ground arith)
  ]

value_document :
    (x : Crates) (f : Text → Option ℕ) (value : x.Value) (c : UpdateChannel) (m : ValidatedManifest)
    → validate_manifest_value x f value c ≡ ok m
    → (d : ManifestDocument) × (validate_document x.parse_url f d c ≡ ok m)
unfolding validate_manifest_value
value_document x f value c m h = elim (Option-cases (x.from_value value)) [
  | inl missing ↦ absurd (ground arith)
  | inr (d, read) ↦ (d, ground arith)
]

-- A name that makes a signature's name with `.sig` behind it is a package's name.
signed_extension :
    (name : Text)
    → (ends_with (name ++ codes ".sig") (codes ".popkg") ≡ true)
      ⊎ (ends_with (name ++ codes ".sig") (codes ".popkg.sig") ≡ true)
    → ends_with name (codes ".popkg") ≡ true
unfolding ends_with
signed_extension name (inl h) = absurd (cc (rw reverse-append at h))
signed_extension name (inr h) = rw reverse-append at h

-- A validated manifest names a safe `.popkg` file under official asset URLs for the package and its
-- `.sig`, with digests in lower-case hex, a size from 1 byte to 512 MiB, and a release id that
-- begins with the version.
pub validate_manifest_value-IsSound :
    (x : Crates) (f : Text → Option ℕ) (value : x.Value) (c : UpdateChannel) (m : ValidatedManifest)
    → validate_manifest_value x f value c ≡ ok m
    → IsSound x.parse_url f m
      × IsLeaf m.package_filename
      × (ends_with m.package_filename (codes ".popkg") ≡ true)
validate_manifest_value-IsSound x f value c m h =
    let (d, read) = value_document x f value c m h in
    let sound = document-IsSound x.parse_url f d c m read in
    let (leaf, clean, url, tag, parsed, official) =
      (validate_release_asset_url_iff x.parse_url m.package_download_url m.package_filename).0
        sound.download in
    let (sig_leaf, sig_clean, sig_url, sig_tag, sig_parsed, sig_official) =
      (validate_release_asset_url_iff x.parse_url m.package_signature_url
          (m.package_filename ++ codes ".sig")).0
        sound.signature in
    (sound, leaf, signed_extension m.package_filename sig_leaf.extension)

named_channel :
    (c : UpdateChannel) (name : Text)
    → expected_channel_name c ≡ ok name
    → Channel.is_disabled c ≡ false
unfolding expected_channel_name
named_channel Types.stable name h = refl
named_channel Types.beta name h = refl
named_channel Types.disabled name h = cc

candidate_checked :
    (x : Crates) (f : Text → Option ℕ) (c : UpdateChannel) (bytes : Text) (m : ValidatedManifest)
    (v : NumericVersion) (t : ℕ)
    → Channel.is_disabled c ≡ false
    → Validate.parse_version m.version ≡ ok v
    → f m.published_at ≡ some t
    → validate_digest (x.sha256_hex bytes) ≡ ok tt
    → check_candidate f (candidate x c bytes m) ≡ ok (v, t)
unfolding check_candidate parse_timestamp
candidate_checked x f c bytes m v t e r p s = ground arith

-- The candidate of a validated manifest passes the checks of the store, as the manifest's version,
-- if the digest of its bytes is printed as 64 lower-case hex digits.
pub validated_is_storable :
    (x : Crates) (f : Text → Option ℕ) (value : x.Value) (c : UpdateChannel) (bytes : Text)
    (m : ValidatedManifest)
    → validate_manifest_value x f value c ≡ ok m
    → validate_digest (x.sha256_hex bytes) ≡ ok tt
    → (v : NumericVersion) × (t : ℕ) × (parse_version m.version ≡ ok v)
      × (check_candidate f (candidate x c bytes m) ≡ ok (v, t))
validated_is_storable x f value c bytes m h s =
    let (d, read) = value_document x f value c m h in
    let (v, version) = document-version x.parse_url f d c m read in
    let (t, published) = document-published x.parse_url f d c m read in
    (
      v,
      t,
      version,
      candidate_checked x f c bytes m v t
          (named_channel c d.channel (document-channel x.parse_url f d c m read))
          ((parse_versions_agree m.version v).0 version) published s,
    )
