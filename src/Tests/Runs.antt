-- ===== src/Tests/Runs.antt =====
-- Runs of the handlers at the site of the tests: a download, a verification and an installation.
use luminos.Prelude.{◌≡◌, refl, ◌++◌, ok}
use luminos.Text.{
  codes, text_eq, trim, ends_with, without_prefix, contains, contains_byte, is_ascii_alphanumeric,
  is_lower_hex, lines, parse_u64, split, split_once, to_ascii_lowercase,
}
use luminos.State.Db.{statement, transaction}
use luminos.State.Store.{
  save_verified_operation, claim_verified_operation_for_install, ensure_schema, get_channel,
  observe_manifest,
}
use luminos.Agent.Flow.{
  StagedPackage, expected, check_installed, check_uploaded, check_verified, identity_eq,
  install_verified, parse_upload_identity, staged_filename, upload_and_verify, upload_succeeded,
}
use luminos.Updates.Server.{
  Response, Server, clock, lift, on_agent, on_check, on_disk, on_store, respond, ◌>>=◌,
}
use luminos.Updates.Access.{token_result, admin_result, read_update_token, require_admin}
use luminos.Updates.Channel.{fetch_update_agent_version, update_state_store}
use luminos.Updates.Download.{
  staged_download_response, download_update, download_manifest,
  package_download_request_from_manifest,
}
use luminos.Updates.Staged.{
  staged_package_from_signed_manifest, is_parent, read_package, read_staged,
}
use luminos.Updates.Operation.{
  verified_response, verified_agent_package_from_operation, explicit_install_approval,
  verified_operation_from_agent,
}
use luminos.Updates.Verify.{verify_staged_update, record_verified, staged_again, verify_manifest}
use luminos.Updates.Install.{install_verified_update, claim_and_install, install_claimed, or_failed}
use luminos.Updates.Once.{after_install}
use luminos.Updates.Progress.{install_request}
use luminos.Agent.Transport.{get_json, post_json, send, upload_file}
use luminos.Discovery.Fetch.{fetch_bounded, read_bounded}
use luminos.Discovery.Manifest.{
  expected_channel_name, outcome_for_manifest, parse_part, valid_lower_hex, valid_release_id,
  validate_document, validate_manifest_value, verify_and_parse_manifest,
}
use luminos.Discovery.Service.{decide, fetch_pair, fetch_validated_manifest_for_versions, urls}
use luminos.Distribution.Policy.{
  channel_manifest_url, channel_signature_url, has_release_path_escape, official_release_path,
  parse_https_url, validate_leaf_filename, validate_manifest_response_size, validate_package_size,
  validate_release_asset_url, validate_signature_response_size,
}
use luminos.Download.Files.{cleanup_partial, create_new, join, plain_step, read, rename, write_all}
use luminos.Download.Http.{fetch_signature, read_signature, redirect_loop, response_with_redirects}
use luminos.Download.Request.{validate_filename, validate_request}
use luminos.Download.Stage.{
  check_total, close_partial, download_and_stage, download_to_partial, finish_stage, or_cleanup,
  stream_chunks, stream_to_partial,
}
use luminos.State.Rows.{
  channel_or_stable, check_candidate, check_verified_operation, record_of_row, replay_check,
}
use luminos.State.Sql.{
  default_preferences, insert_operation, insert_verified, select_channel, select_replay,
  select_verified, update_claimed, upsert_replay,
}
use luminos.State.Validate.{
  file_name, package_size_for_db, package_size_from_db, parse_timestamp, validate_digest,
  validate_package_filename, validate_release_id,
}
use luminos.Trust.{pinned_public_key_raw, verify_detached_signature}
use luminos.Updates.Target.{current_manifest, is_other_target, update_staging_directory}
use luminos.Version.Numeric.{version_leb, version_ltb}
use luminos.Agent.Flow
use luminos.Discovery.Manifest
use luminos.Download.Request
use luminos.State.Channel
use luminos.State.Status
use luminos.State.Validate
use luminos.Tests.Data.{env, digest, operation, empty_db}
use luminos.Tests.Remote.{filename, manifest}
use luminos.Tests.Site.{site, headers, target, staging, start, install_now}

abbrev pub reread : StagedPackage
reread = record { path = staging ++ codes "/" ++ filename; size = 7; sha256 = digest }

abbrev pub downloaded : Response
downloaded = staged_download_response target reread

abbrev pub verified_now : Response
verified_now =
    verified_response target
      (record { identity = expected reread filename; version = codes "1.3.0" }) (codes "op-1")

abbrev pub saved : Server
saved = record start { db = (save_verified_operation env operation empty_db).1 }

pub download_done : (download_update env site headers target start).0 ≡ ok downloaded
unfolding send get_json read_bounded fetch_bounded parse_part Manifest.parse_version valid_lower_hex
    valid_release_id expected_channel_name validate_document validate_manifest_value
    verify_and_parse_manifest outcome_for_manifest decide urls fetch_pair
    fetch_validated_manifest_for_versions channel_manifest_url channel_signature_url parse_https_url
    validate_leaf_filename has_release_path_escape official_release_path validate_release_asset_url
    validate_manifest_response_size validate_signature_response_size validate_package_size
    plain_step cleanup_partial create_new write_all read rename join redirect_loop
    response_with_redirects read_signature fetch_signature validate_filename Request.valid_sha256
    validate_request check_total stream_chunks close_partial stream_to_partial download_to_partial
    or_cleanup finish_stage download_and_stage Channel.as_str Channel.from_db statement
    channel_or_stable check_candidate replay_check default_preferences select_channel select_replay
    upsert_replay ensure_schema get_channel observe_manifest Validate.parse_version parse_timestamp
    validate_digest text_eq ends_with contains_byte contains split is_lower_hex
    is_ascii_alphanumeric to_ascii_lowercase parse_u64 without_prefix pinned_public_key_raw
    verify_detached_signature admin_result require_admin update_state_store
    fetch_update_agent_version package_download_request_from_manifest download_manifest
    download_update lift ◌>>=◌ on_store on_check on_disk on_agent is_other_target
    update_staging_directory current_manifest version_ltb version_leb
download_done = refl

pub verification_done : (verify_staged_update env site headers target start).0 ≡ ok verified_now
unfolding Flow.valid_sha256 staged_filename upload_succeeded parse_upload_identity identity_eq
    check_verified check_uploaded upload_and_verify send get_json post_json upload_file read_bounded
    fetch_bounded parse_part Manifest.parse_version valid_lower_hex valid_release_id
    expected_channel_name validate_document validate_manifest_value verify_and_parse_manifest
    outcome_for_manifest decide urls fetch_pair fetch_validated_manifest_for_versions
    channel_manifest_url channel_signature_url parse_https_url validate_leaf_filename
    has_release_path_escape official_release_path validate_release_asset_url
    validate_manifest_response_size validate_signature_response_size validate_package_size join
    Channel.as_str Channel.from_db statement transaction channel_or_stable check_candidate
    replay_check check_verified_operation default_preferences select_channel select_replay
    upsert_replay insert_operation insert_verified Status.as_str ensure_schema get_channel
    observe_manifest save_verified_operation Validate.parse_version parse_timestamp validate_digest
    validate_release_id file_name validate_package_filename package_size_for_db text_eq ends_with
    contains_byte contains split is_lower_hex is_ascii_alphanumeric to_ascii_lowercase trim
    parse_u64 split_once without_prefix lines pinned_public_key_raw verify_detached_signature
    admin_result require_admin token_result read_update_token update_state_store
    fetch_update_agent_version verified_operation_from_agent lift ◌>>=◌ on_store on_check on_agent
    clock is_parent read_staged read_package staged_package_from_signed_manifest is_other_target
    update_staging_directory current_manifest staged_again record_verified verify_manifest
    verify_staged_update version_ltb version_leb
verification_done = refl

reread_done :
    staged_package_from_signed_manifest site.fs site.crates.sha256_hex target manifest
      (codes "/srv")
    ≡ ok reread
unfolding join text_eq ends_with split is_parent read_staged read_package
    staged_package_from_signed_manifest is_other_target update_staging_directory
reread_done = refl

pub token_found : token_result site ≡ ok (codes "token")
unfolding text_eq contains split trim split_once lines token_result
token_found = refl

pub installed :
    (after_install env site headers install_now saved).log
    ≡ install_request (codes "token") filename
unfolding Flow.valid_sha256 check_installed install_verified send post_json statement transaction
    check_verified_operation record_of_row default_preferences insert_operation insert_verified
    select_verified update_claimed Status.as_str Status.from_db ensure_schema
    save_verified_operation claim_verified_operation_for_install Validate.parse_version
    parse_timestamp validate_digest validate_release_id file_name validate_package_filename
    package_size_for_db package_size_from_db text_eq ends_with contains_byte contains split
    is_lower_hex trim parse_u64 split_once without_prefix lines admin_result require_admin
    token_result update_state_store or_failed install_claimed claim_and_install
    install_verified_update explicit_install_approval verified_agent_package_from_operation lift
    ◌>>=◌ on_store on_agent clock respond
installed = refl
