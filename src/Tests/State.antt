-- ===== src/Tests/State.antt =====
-- The theorems on the update state at concrete inputs.
use luminos.Prelude.{◌<◌, ◌≡◌, ◌≢◌, refl, none, some, [], ◌∷◌, ok, if◌then◌else◌}
use luminos.Text.{
  u64_modulus, codes, text_eq, starts_with, ends_with, contains, contains_byte, split, trim_start,
  trim_end, trim, space_width, is_ascii_digit, is_lower_hex, parse_u64,
}
use luminos.Version.{version_leb}
use luminos.State.Types.{pos, beta, accepted, installing, constraint_violated, sqlx}
use luminos.State.Channel
use luminos.State.Status
use luminos.State.Validate.{
  parse_version, parse_timestamp, validate_digest, validate_release_id, file_name,
  validate_package_filename, package_size_for_db,
}
use luminos.State.Db.{ReplayRow, Db, statement, transaction}
use luminos.State.Sql.{
  upsert_channel, select_replay, upsert_replay, insert_operation, insert_verified,
}
use luminos.State.Rows.{check_candidate, replay_check, check_verified_operation}
use luminos.State.Store.{
  get_channel, set_channel, replay_row, observe_manifest, save_verified_operation,
  get_verified_operation, claim_verified_operation_for_install,
}
use luminos.State.Requests.{observe, set_chan, save, save_verified, claim, perform, run}
use luminos.State.Newer.{IsNewer, Advances}
use luminos.State.Replay.{run-Advances}
use luminos.State.Rollback.{no_rollback}
use luminos.State.Claims.{claim_single_use}
use luminos.State.Identity.{
  save_verified-get, save_verified-claim, run-verified, save_verified-taken,
}
use luminos.State.Atomic.{perform-error}
use luminos.State.Preferences.{set_channel-get}
use luminos.State.Versions.{parse_version_canonical}
use luminos.Tests.Data.{january, february, env, empty_db, older, newer, operation, finished}

older_accepted : (observe_manifest env older empty_db).0 ≡ ok accepted
unfolding observe_manifest check_candidate text_eq split parse_version statement parse_timestamp
    validate_digest is_ascii_digit is_lower_hex parse_u64 starts_with select_replay upsert_replay
    Channel.as_str replay_check
older_accepted = refl

newer_accepted :
    (observe_manifest env newer
      (run env (set_chan beta ∷ observe older ∷ []) (observe_manifest env older empty_db).1)).0
    ≡ ok accepted
unfolding observe_manifest check_candidate text_eq split parse_version statement parse_timestamp
    validate_digest is_ascii_digit is_lower_hex parse_u64 starts_with select_replay upsert_replay
    Channel.as_str replay_check run perform set_channel upsert_channel version_leb
newer_accepted = refl

no_rollback_example :
    IsNewer env
      (replay_row older (codes "2026-02-11 08:00:00"))
      (replay_row newer (codes "2026-02-11 08:00:00"))
no_rollback_example =
    no_rollback env older newer empty_db (set_chan beta ∷ observe older ∷ []) refl older_accepted
      newer_accepted

abbrev old_row : ReplayRow
old_row = replay_row older (codes "2026-01-11 08:00:00")

-- The channel has been seen at the older version.
abbrev seen_db : Db
seen_db = record empty_db {
  tables = record empty_db.tables {
    replay = λ key. if text_eq key (codes "stable") then some old_row else none;
  };
}

-- The row moves to the newer version, and a replay of the older one does not move it back.
run-Advances_example :
    Advances env (some old_row) (some (replay_row newer (codes "2026-02-11 08:00:00")))
unfolding observe_manifest check_candidate text_eq split parse_version statement parse_timestamp
    validate_digest is_ascii_digit is_lower_hex parse_u64 starts_with select_replay upsert_replay
    Channel.as_str replay_check run perform set_channel upsert_channel version_leb
run-Advances_example =
    run-Advances env (set_chan beta ∷ observe newer ∷ observe older ∷ []) seen_db (codes "stable")

pub operation_saved : (save_verified_operation env operation empty_db).0 ≡ ok tt
unfolding save_verified_operation check_verified_operation text_eq split parse_version
    parse_timestamp validate_digest is_ascii_digit is_lower_hex parse_u64 starts_with ends_with trim
    trim_start trim_end contains contains_byte space_width validate_release_id
    validate_package_filename file_name package_size_for_db transaction statement insert_operation
    insert_verified Status.as_str
operation_saved = refl

save_verified-get_example :
    (get_verified_operation env (codes "op-1") (save_verified_operation env operation empty_db).1).0
    ≡ ok (some operation)
save_verified-get_example = save_verified-get env operation empty_db operation_saved refl

save_verified-claim_example :
    (claim_verified_operation_for_install env
      (codes "op-1")
      january
      (save_verified_operation env operation empty_db).1).0
    ≡ ok (some (record operation { status = installing; updated_at = january }))
unfolding text_eq
save_verified-claim_example =
    save_verified-claim env operation empty_db january 1768046400 operation_saved refl (λ n. refl)

claim_single_use_example :
    (claim_verified_operation_for_install env (codes "op-1") february (
      run env
        (save finished ∷ claim (codes "op-1") january ∷ [])
        (claim_verified_operation_for_install env
          (codes "op-1")
          january
          (save_verified_operation env operation empty_db).1).1)).0
    ≢ ok (some operation)
unfolding text_eq
claim_single_use_example =
    claim_single_use env (codes "op-1") january (save_verified_operation env operation empty_db).1
      (record operation { status = installing; updated_at = january })
      (save finished ∷ claim (codes "op-1") january ∷ []) february operation
      (save_verified-claim env operation empty_db january 1768046400 operation_saved refl
        (λ n. refl))
      (refl, (tt, tt))

saved_row :
    (save_verified_operation env operation empty_db).1.tables.verified (codes "op-1")
    ≡ some (record {
      release_id = operation.release_id;
      package_filename = operation.package_filename;
      package_sha256 = operation.package_sha256;
      package_size = pos 4096;
    })
unfolding save_verified_operation check_verified_operation text_eq split parse_version
    parse_timestamp validate_digest is_ascii_digit is_lower_hex parse_u64 starts_with ends_with trim
    trim_start trim_end contains contains_byte space_width validate_release_id
    validate_package_filename file_name package_size_for_db transaction statement insert_operation
    insert_verified Status.as_str
saved_row = refl

run-verified_example :
    (run env
        (claim (codes "op-1") january ∷ save finished ∷ [])
        (save_verified_operation env operation empty_db).1).tables.verified
      (codes "op-1")
    ≡ some (record {
      release_id = operation.release_id;
      package_filename = operation.package_filename;
      package_sha256 = operation.package_sha256;
      package_size = pos 4096;
    })
run-verified_example =
    run-verified env (codes "op-1") _ (claim (codes "op-1") january ∷ save finished ∷ [])
      (save_verified_operation env operation empty_db).1 saved_row

saved_operation_row :
    (save_verified_operation env operation empty_db).1.tables.operations (codes "op-1")
    ≡ some (record {
      target_version = codes "1.3.0";
      status = codes "verified";
      updated_at = february;
    })
unfolding save_verified_operation check_verified_operation text_eq split parse_version
    parse_timestamp validate_digest is_ascii_digit is_lower_hex parse_u64 starts_with ends_with trim
    trim_start trim_end contains contains_byte space_width validate_release_id
    validate_package_filename file_name package_size_for_db transaction statement insert_operation
    insert_verified Status.as_str
saved_operation_row = refl

save_verified-taken_example :
    ((save_verified_operation env operation (save_verified_operation env operation empty_db).1).0
      ≢ ok tt)
    × ((save_verified_operation env operation
          (save_verified_operation env operation empty_db).1).1.tables
        ≡ (save_verified_operation env operation empty_db).1.tables)
save_verified-taken_example =
    save_verified-taken env operation (save_verified_operation env operation empty_db).1 _
      saved_operation_row

saved_twice :
    (perform env (save_verified operation) (save_verified_operation env operation empty_db).1).0
    ≡ some (sqlx constraint_violated)
unfolding perform save_verified_operation check_verified_operation text_eq split parse_version
    parse_timestamp validate_digest is_ascii_digit is_lower_hex parse_u64 starts_with ends_with trim
    trim_start trim_end contains contains_byte space_width validate_release_id
    validate_package_filename file_name package_size_for_db transaction statement insert_operation
    insert_verified Status.as_str
saved_twice = refl

perform-error_example :
    (perform env
      (save_verified operation)
      (save_verified_operation env operation empty_db).1).1.tables
    ≡ (save_verified_operation env operation empty_db).1.tables
perform-error_example =
    perform-error env (save_verified operation) (save_verified_operation env operation empty_db).1
      (sqlx constraint_violated) (λ same. cc) saved_twice

channel_set : (set_channel env beta empty_db).0 ≡ ok tt
unfolding set_channel statement upsert_channel Channel.as_str text_eq
channel_set = refl

set_channel-get_example :
    ((get_channel env (set_channel env beta empty_db).1).0 ≡ ok beta)
    × ((set_channel env beta empty_db).1.tables.replay ≡ empty_db.tables.replay)
    × ((set_channel env beta empty_db).1.tables.operations ≡ empty_db.tables.operations)
    × ((set_channel env beta empty_db).1.tables.verified ≡ empty_db.tables.verified)
set_channel-get_example = set_channel-get env beta empty_db channel_set refl

parsed : parse_version (codes "12.0.7") ≡ ok (record { major = 12; minor = 0; patch = 7 })
unfolding text_eq split parse_version is_ascii_digit parse_u64 starts_with
parsed = refl

parse_version_canonical_example :
    (codes "12.0.7" ≡ codes "12.0.7") × (12 < u64_modulus) × (0 < u64_modulus) × (7 < u64_modulus)
parse_version_canonical_example =
    parse_version_canonical (codes "12.0.7") (codes "12.0.7")
      (record { major = 12; minor = 0; patch = 7 }) parsed parsed
