-- ===== src/Tests/Updates.antt =====
-- The theorems on the handlers at concrete inputs.
use luminos.Prelude.{
  ◌<◌, ◌≡◌, ◌≢◌, ◌↔◌, ◌⊎◌, refl, true, none, some, [], ◌∷◌, ◌++◌, ok, arith, if◌then◌else◌,
}
use luminos.Text.{
  codes, text_eq, trim, trim_start, trim_end, space_width, starts_with, ends_with, without_prefix,
  u64_modulus,
}
use luminos.State.Types.{pos, installing, VerifiedUpdateOperationRecord}
use luminos.State.Db.{Preferences, Table, ReplayRow, VerifiedRow}
use luminos.State.Store.{replay_row}
use luminos.State.Newer.{Advances}
use luminos.State.Identity.{save_verified-claim}
use luminos.Discovery.Types.{ValidatedManifest}
use luminos.Updates.Server.{Server}
use luminos.Updates.Access.{get_user_id, unauthorized, forbidden}
use luminos.Updates.Channel.{check_for_updates}
use luminos.Updates.Download.{download_update}
use luminos.Updates.Staged.{staged_package_from_signed_manifest}
use luminos.Updates.Operation.{verified_agent_package_from_operation}
use luminos.Updates.Verify.{verify_staged_update}
use luminos.Updates.Install.{install_verified_update}
use luminos.Updates.Visits.{check, install, Arrival, arrive, visits}
use luminos.Updates.Runs.{HasRun}
use luminos.Updates.Refine.{visits-HasRun}
use luminos.Updates.Once.{after_install, install_sends_once}
use luminos.Updates.Guards.{IsAdmin, only_admin}
use luminos.Updates.Downloaded.{IsOffered, HasStaged, download_ends}
use luminos.Updates.Located.{IsLocated, staged_package_iff}
use luminos.Updates.Verified.{HasVerified, verify_ends}
use luminos.Updates.Claimed.{package_for, claimed_package}
use luminos.Updates.Progress.{install_request, MayInstall, verified_installs}
use luminos.Updates.Kept.{visits_keep}
use luminos.Updates.Allowed.{IsAllowed, install_needs}
use luminos.Updates.Silent.{IsSilent, disabled-IsSilent}
use luminos.Tests.Data.{env, february, digest, other_digest, older, operation, empty_db}
use luminos.Tests.Remote.{filename, manifest}
use luminos.Tests.State.{operation_saved}
use luminos.Tests.Site.{site, headers, target, operation_id, start, install_now}
use luminos.Tests.Runs.{
  reread, downloaded, verified_now, saved, download_done, verification_done, token_found, installed,
}

installed_changes : (after_install env site headers install_now saved).log ≢ saved.log
installed_changes same = absurd (ground (arith, installed))

trimmed : trim operation_id ≡ operation_id
unfolding trim trim_start trim_end space_width starts_with ends_with text_eq
trimmed = refl

administrator : IsAdmin site headers
unfolding get_user_id without_prefix starts_with text_eq
administrator = record { user = pos 1; decoded = refl; role = refl }

parsed_id : site.is_uuid (trim operation_id) ≡ true
unfolding text_eq
parsed_id = rw trimmed refl

dated : env.parse_from_rfc3339 february ≡ some 1770724800
unfolding text_eq
dated = refl

may_install : MayInstall env site headers install_now (codes "token")
may_install = record {
  admin = administrator;
  approval = refl;
  parsed = parsed_id;
  configured = token_found;
  time = λ n. 1770724800;
  readable = λ n. dated;
}

abbrev check_now : Arrival
check_now = record { site = site; headers = headers; visit = check }

abbrev install_again : Arrival
install_again = record { site = site; headers = headers; visit = install install_now }

abbrev anonymous : Arrival
anonymous = record { site = site; headers = none; visit = install install_now }

nobody : ¬ IsAdmin site none
unfolding get_user_id
nobody h = absurd (ground (arith, h.decoded))

install_sends_once_example :
    (after_install env site headers install_now (
      visits env
        (check_now ∷ install_again ∷ [])
        (after_install env site headers install_now saved))).log
    ≡ (visits env
        (check_now ∷ install_again ∷ [])
        (after_install env site headers install_now saved)).log
install_sends_once_example =
    install_sends_once env site headers install_now saved (check_now ∷ install_again ∷ []) site
      headers install_now refl installed_changes

install_needs_example :
    IsAllowed env site headers install_now saved (after_install env site headers install_now saved)
install_needs_example = install_needs env site headers install_now saved installed_changes

verified_installs_example :
    (install_verified_update env site headers install_now
      (verify_staged_update env site headers target start).1).1.log
    ≡ (verify_staged_update env site headers target start).1.log
      ++ install_request (codes "token") filename
verified_installs_example =
    verified_installs env site headers target start verified_now verification_done site headers
      install_now (codes "token") may_install trimmed (λ n. refl)

verify_ends_example :
    (m : ValidatedManifest) × IsOffered env site start.db target m
    × HasVerified env site target m
        (verify_staged_update env site headers target start).1
        verified_now
verify_ends_example = verify_ends env site headers target start verified_now verification_done

download_ends_example :
    (m : ValidatedManifest) × IsOffered env site start.db target m
    × HasStaged site target m (download_update env site headers target start).1 downloaded
download_ends_example = download_ends env site headers target start downloaded download_done

visits-HasRun_example : HasRun env saved (visits env (check_now ∷ install_again ∷ []) saved)
visits-HasRun_example = visits-HasRun env (check_now ∷ install_again ∷ []) saved

only_admin_example :
    (arrive env anonymous saved ≡ (unauthorized, saved))
    ⊎ (arrive env anonymous saved ≡ (forbidden, saved))
only_admin_example = only_admin env anonymous saved nobody

abbrev row : VerifiedRow
row = record {
  release_id = codes "1.3.0-20260210";
  package_filename = filename;
  package_sha256 = digest;
  package_size = pos 4096;
}

abbrev saved_keys : Table VerifiedRow
saved_keys = λ key. if text_eq key operation_id then some row else none

abbrev old_replay : ReplayRow
old_replay =
    replay_row (record older { manifest_sha256 = other_digest }) (codes "2026-01-11 08:00:00")

abbrev seen_keys : Table ReplayRow
seen_keys = λ key. if text_eq key (codes "stable") then some old_replay else none

-- The channel has been seen at an older version, and an operation is verified.
abbrev with_row : Server
with_row = record start {
  db = record empty_db {
    tables = record empty_db.tables { verified = saved_keys; replay = seen_keys };
  };
}

there : with_row.db.tables.verified operation_id ≡ some row
unfolding text_eq
there = refl

visits_keep_example :
    Advances env
      (some old_replay)
      ((visits env (check_now ∷ install_again ∷ []) with_row).db.tables.replay (codes "stable"))
    × ((visits env (check_now ∷ install_again ∷ []) with_row).db.tables.verified operation_id
        ≡ some row)
unfolding text_eq
visits_keep_example =
    visits_keep env (check_now ∷ install_again ∷ []) with_row (codes "stable") operation_id row
      there

abbrev off : Preferences
off = record { channel = codes "disabled"; updated_at = february }

abbrev switched_off : Server
switched_off = record start {
  db = record empty_db { tables = record empty_db.tables { preferences = some off } };
}

disabled-IsSilent_example :
    IsSilent switched_off (check_for_updates env site headers switched_off).1
    × IsSilent switched_off (download_update env site headers target switched_off).1
    × IsSilent switched_off (verify_staged_update env site headers target switched_off).1
disabled-IsSilent_example = disabled-IsSilent env off site headers target switched_off refl refl

small : 7 < u64_modulus
small = omega arith

staged_package_iff_example :
    (staged_package_from_signed_manifest site.fs site.crates.sha256_hex target manifest
        (codes "/srv")
      ≡ ok reread)
    ↔ IsLocated site.fs site.crates.sha256_hex target manifest (codes "/srv") reread
staged_package_iff_example =
    staged_package_iff site.fs site.crates.sha256_hex target manifest (codes "/srv") reread small

abbrev claimed : VerifiedUpdateOperationRecord
claimed = record operation { status = installing; updated_at = february }

claimed_package_example : verified_agent_package_from_operation claimed ≡ ok (package_for claimed)
claimed_package_example = claimed_package env operation_id february saved.db claimed (
    save_verified-claim env operation empty_db february 1770724800 operation_saved dated
      (λ n. refl))
