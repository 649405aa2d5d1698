-- ===== src/Discovery/Outcome.antt =====
-- When server/src/update_discovery.rs offers an update.
use luminos.Prelude.{◌≡◌, ◌↔◌, true, false, ok, arith, ◌⊎◌}
use luminos.Text.{Text}
use luminos.Version.{NumericVersion, version_ltb, version_leb-not_ltb}
use luminos.Discovery.Types.{up_to_date, incompatible, update_available, ValidatedManifest}
use luminos.Discovery.Manifest.{parse_version, outcome_for_manifest_for_versions}

-- The five versions that the decision reads.
pub record HasVersions (running agent : Text) (m : ValidatedManifest) (r a mp ma o : NumericVersion)
    : Type 0 where
  pub running_read : parse_version running ≡ ok r
  pub agent_read : parse_version agent ≡ ok a
  pub photoos_read : parse_version m.minimum_photoos_version ≡ ok mp
  pub minimum_agent_read : parse_version m.minimum_update_agent_version ≡ ok ma
  pub offered_read : parse_version m.version ≡ ok o

module _ (running agent : Text) (m : ValidatedManifest) (r a mp ma o : NumericVersion)
    (read : HasVersions running agent m r a mp ma o) where
  -- Between readable versions the outcome is an offer exactly if both minimums are met and the
  -- offered version is above the running one, and then it names the manifest's release; it is
  -- up to date exactly if the minimums are met and the offered version is not above; it is
  -- incompatible exactly if a minimum is not met.
  pub outcome_iff :
      ((outcome_for_manifest_for_versions running agent m
          ≡ ok (update_available m.version m.release_id m.package_filename))
        ↔ ((version_ltb r mp ≡ false) × (version_ltb a ma ≡ false) × (version_ltb r o ≡ true)))
      × ((outcome_for_manifest_for_versions running agent m ≡ ok up_to_date)
          ↔ ((version_ltb r mp ≡ false) × (version_ltb a ma ≡ false) × (version_ltb r o ≡ false)))
      × ((outcome_for_manifest_for_versions running agent m ≡ ok incompatible)
          ↔ ((version_ltb r mp ≡ true) ⊎ (version_ltb a ma ≡ true)))
  unfolding outcome_for_manifest_for_versions
  outcome_iff = (
    (λ h. ground (arith, version_leb-not_ltb o r), λ h. ground (arith, version_leb-not_ltb o r)),
    (λ h. ground (arith, version_leb-not_ltb o r), λ h. ground (arith, version_leb-not_ltb o r)),
    (λ h. ground arith, λ h. ground arith),
  )
