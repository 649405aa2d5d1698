-- ===== src/Tests/Discovery.antt =====
-- The theorems on discovery at concrete inputs.
use luminos.Prelude.{◌≡◌, ◌↔◌, ◌⊎◌, refl, true, false, some, ok, err, arith, ℕ}
use luminos.Text.{
  codes, text_eq, starts_with, ends_with, contains, contains_byte, split, to_ascii_lowercase, Text,
  is_ascii_digit, is_lower_hex, is_ascii_alphanumeric, parse_u64,
}
use luminos.Version.{NumericVersion, version_ltb, version_leb}
use luminos.State.Types.{stable}
use luminos.State.Validate
use luminos.State.Validate.{validate_digest, parse_timestamp}
use luminos.State.Channel
use luminos.State.Db.{statement}
use luminos.State.Sql.{select_replay, upsert_replay}
use luminos.State.Rows.{check_candidate, replay_check}
use luminos.State.Store.{observe_manifest}
use luminos.Distribution.Policy.{
  parse_https_url, validate_leaf_filename, has_release_path_escape, official_release_path,
  validate_release_asset_url, validate_package_size, validate_manifest_response_size,
  validate_signature_response_size, stable_manifest_url, channel_manifest_url,
  channel_signature_url,
}
use luminos.Distribution.Assets.{IsLeaf}
use luminos.Trust.{verify_detached_signature, pinned_public_key_raw}
use luminos.Discovery.Types.{Response, DiscoveryError, update_available, up_to_date, incompatible}
use luminos.Discovery.Manifest.{
  parse_version, parse_part, version_of_parts, valid_lower_hex, valid_release_id,
  expected_channel_name, validate_document, validate_manifest_value, verify_and_parse_manifest,
  outcome_for_manifest_for_versions,
}
use luminos.Discovery.Fetch.{fetch_bounded, read_bounded, read_chunks, IsBounded, fetch_bounded_iff}
use luminos.Discovery.Service.{
  urls, fetch_pair, candidate, decide, check_channel, check_channel_for_versions, fetch_enabled,
  fetch_validated_manifest_for_versions,
}
use luminos.Discovery.Versions.{parse_versions_agree}
use luminos.Discovery.Validated.{IsSound, validate_manifest_value-IsSound, validated_is_storable}
use luminos.Discovery.Outcome.{HasVersions, outcome_iff}
use luminos.Discovery.Gate.{forged_is_inert}
use luminos.Discovery.Offer.{IsEarned, offer-IsEarned}
use luminos.Tests.Data.{env, empty_db, digest}
use luminos.Tests.Remote.{
  crates, accepts, refuses, manifest, manifest_bytes, signature, filename, parse_url,
}

fetch_bounded_iff_example :
    (fetch_bounded (crates accepts) stable_manifest_url 1000 ≡ ok manifest_bytes) ↔ (
      (response : Response) × ((crates accepts).send stable_manifest_url ≡ some response)
      × IsBounded 1000 response manifest_bytes)
fetch_bounded_iff_example =
    fetch_bounded_iff (crates accepts) stable_manifest_url 1000 manifest_bytes (omega arith)

abbrev v130 : NumericVersion
v130 = record { major = 1; minor = 3; patch = 0 }

parse_versions_agree_example :
    (parse_version (codes "1.3.0") ≡ ok v130) ↔ (Validate.parse_version (codes "1.3.0") ≡ ok v130)
parse_versions_agree_example = parse_versions_agree (codes "1.3.0") v130

manifest_valid :
    validate_manifest_value (crates accepts) env.parse_from_rfc3339 tt stable ≡ ok manifest
unfolding text_eq starts_with ends_with contains contains_byte split to_ascii_lowercase
    is_ascii_digit is_lower_hex is_ascii_alphanumeric parse_u64 parse_https_url
    validate_leaf_filename has_release_path_escape official_release_path validate_release_asset_url
    validate_package_size parse_version parse_part version_of_parts valid_lower_hex valid_release_id
    expected_channel_name validate_document validate_manifest_value
manifest_valid = refl

validate_manifest_value-IsSound_example :
    IsSound parse_url env.parse_from_rfc3339 manifest
    × IsLeaf filename
    × (ends_with filename (codes ".popkg") ≡ true)
validate_manifest_value-IsSound_example =
    validate_manifest_value-IsSound (crates accepts) env.parse_from_rfc3339 tt stable manifest
      manifest_valid

digest_valid : validate_digest digest ≡ ok tt
unfolding validate_digest is_lower_hex
digest_valid = refl

validated_is_storable_example :
    (v : NumericVersion) × (t : ℕ) × (parse_version (codes "1.3.0") ≡ ok v)
    × (check_candidate env.parse_from_rfc3339
          (candidate (crates accepts) stable manifest_bytes manifest)
        ≡ ok (v, t))
validated_is_storable_example =
    validated_is_storable (crates accepts) env.parse_from_rfc3339 tt stable manifest_bytes manifest
      manifest_valid digest_valid

abbrev v : ℕ → NumericVersion
v minor = record { major = 1; minor = minor; patch = 0 }

versions_read : HasVersions (codes "1.2.0") (codes "1.2.0") manifest (v 2) (v 2) (v 0) (v 1) (v 3)
unfolding parse_version split is_ascii_digit parse_u64 parse_part starts_with
versions_read = record {
  running_read = refl;
  agent_read = refl;
  photoos_read = refl;
  minimum_agent_read = refl;
  offered_read = refl;
}

outcome_iff_example :
    ((outcome_for_manifest_for_versions (codes "1.2.0") (codes "1.2.0") manifest
        ≡ ok (update_available (codes "1.3.0") (codes "1.3.0-20260210") filename))
      ↔ ((version_ltb (v 2) (v 0) ≡ false)
          × (version_ltb (v 2) (v 1) ≡ false)
          × (version_ltb (v 2) (v 3) ≡ true)))
    × ((outcome_for_manifest_for_versions (codes "1.2.0") (codes "1.2.0") manifest ≡ ok up_to_date)
        ↔ ((version_ltb (v 2) (v 0) ≡ false)
            × (version_ltb (v 2) (v 1) ≡ false)
            × (version_ltb (v 2) (v 3) ≡ false)))
    × ((outcome_for_manifest_for_versions (codes "1.2.0") (codes "1.2.0") manifest
          ≡ ok incompatible)
        ↔ ((version_ltb (v 2) (v 0) ≡ true) ⊎ (version_ltb (v 2) (v 1) ≡ true)))
outcome_iff_example =
    outcome_iff (codes "1.2.0") (codes "1.2.0") manifest (v 2) (v 2) (v 0) (v 1) (v 3) versions_read

fetched : fetch_pair (crates refuses) env stable ≡ ok (manifest_bytes, signature)
unfolding fetch_pair urls fetch_bounded read_bounded read_chunks text_eq channel_manifest_url
    channel_signature_url
fetched = refl

forged_is_inert_example :
    (e : DiscoveryError) × (check_channel (crates refuses) env stable (codes "1.2.0") empty_db
      ≡ (err e, empty_db))
    × (check_channel_for_versions
          (crates refuses)
          env
          stable
          (codes "1.2.0")
          (codes "1.2.0")
          empty_db
        ≡ (err e, empty_db))
forged_is_inert_example =
    forged_is_inert (crates refuses) env stable (codes "1.2.0") (codes "1.2.0") empty_db
      manifest_bytes signature refl fetched refl

offered :
    (fetch_validated_manifest_for_versions
      (crates accepts)
      env
      stable
      (codes "1.2.0")
      (codes "1.2.0")
      empty_db).0
    ≡ ok (manifest, update_available (codes "1.3.0") (codes "1.3.0-20260210") filename)
unfolding fetch_validated_manifest_for_versions fetch_enabled fetch_pair urls fetch_bounded
    read_bounded read_chunks text_eq channel_manifest_url channel_signature_url starts_with
    ends_with contains contains_byte split to_ascii_lowercase is_ascii_digit is_lower_hex
    is_ascii_alphanumeric parse_u64 parse_https_url validate_leaf_filename has_release_path_escape
    official_release_path validate_release_asset_url validate_package_size parse_version parse_part
    version_of_parts valid_lower_hex valid_release_id expected_channel_name validate_document
    validate_manifest_value verify_and_parse_manifest validate_manifest_response_size
    validate_signature_response_size verify_detached_signature pinned_public_key_raw
    observe_manifest check_candidate Validate.parse_version parse_timestamp validate_digest
    statement select_replay upsert_replay replay_check Channel.as_str decide
    outcome_for_manifest_for_versions version_ltb version_leb
offered = refl

offer-IsEarned_example :
    (bytes : Text) × (s : Text) × (fetch_pair (crates accepts) env stable ≡ ok (bytes, s))
    × IsEarned
        (crates accepts)
        env.parse_from_rfc3339
        stable
        (codes "1.2.0")
        manifest
        (codes "1.3.0")
        (codes "1.3.0-20260210")
        filename
        bytes
        s
offer-IsEarned_example =
    offer-IsEarned (crates accepts) env stable (codes "1.2.0") (codes "1.2.0") empty_db manifest
      (codes "1.3.0") (codes "1.3.0-20260210") filename offered
