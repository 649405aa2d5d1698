-- ===== src/Discovery/Service.antt =====
-- The calls of server/src/update_discovery.rs that fetch a manifest and record it in the store.
use luminos.Prelude.{Bool, Option, none, some, Result, ok, err, ok_or, map_err}
use luminos.Prelude
use luminos.Text.{Text}
use luminos.State.Types.{
  UpdateChannel, ManifestReplayCandidate, ReplayDecision, accepted, already_seen,
  rejected_regression,
}
use luminos.State.Channel
use luminos.State.Db.{Db, Env, Store}
use luminos.State.Store.{observe_manifest}
use luminos.Distribution.Policy.{
  channel_manifest_url, channel_signature_url, max_manifest_bytes, max_signature_bytes,
}
use luminos.Discovery.Types.{
  DiscoveryOutcome, disabled, replay_rejected, DiscoveryError, invalid_manifest, state,
  ValidatedManifest, Crates,
}
use luminos.Discovery.Manifest.{
  verify_and_parse_manifest, outcome_for_manifest, outcome_for_manifest_for_versions,
}
use luminos.Discovery.Fetch.{fetch_bounded}

abbrev pub Check : Type 0 → Type 0
Check A = Db → Result DiscoveryError A × Db

abbrev after :
    {A B : Type 0} → Result DiscoveryError A × Db → (A → Check B) → Result DiscoveryError B × Db
after (ok a, db) f = f a db
after (err e, db) f = (err e, db)

infixl 5 ◌>>=◌ ◌>>◌
abbrev ◌>>=◌ : {A B : Type 0} → Check A → (A → Check B) → Check B
◌>>=◌ m f db = after (m db) f

abbrev ◌>>◌ : {A B : Type 0} → Check A → Check B → Check B
◌>>◌ m k = m >>= λ _. k

abbrev lift : {A : Type 0} → Result DiscoveryError A → Check A
lift r db = (r, db)

-- `From<UpdateStateError>` under `?`.
abbrev from_store : {A : Type 0} → Store A → Check A
from_store m db = let (r, db') = m db in (map_err state r, db')

abbrev pub candidate : Crates → UpdateChannel → Text → ValidatedManifest → ManifestReplayCandidate
candidate x channel manifest_bytes manifest = record {
  channel = channel;
  version = manifest.version;
  published_at = manifest.published_at;
  manifest_sha256 = x.sha256_hex manifest_bytes;
}

-- The `match decision` of the callers; `outcome` is what the accepting arm computes.
unfoldable pub decide :
    Result DiscoveryError DiscoveryOutcome → ReplayDecision → Result DiscoveryError DiscoveryOutcome
decide outcome rejected_regression = ok replay_rejected
decide outcome accepted = outcome
decide outcome already_seen = outcome

module _ (x : Crates) (env : Env) where
  unfoldable pub evaluate_signed_manifest :
      UpdateChannel → Text → Text → Text → Result DiscoveryError DiscoveryOutcome
  evaluate_signed_manifest expected_channel running_version manifest_bytes signature_bytes =
      Prelude.◌>>=◌
        (verify_and_parse_manifest x env.parse_from_rfc3339 expected_channel manifest_bytes
          signature_bytes)
        (λ manifest. outcome_for_manifest running_version manifest)

  unfoldable pub evaluate_signed_manifest_for_versions :
      UpdateChannel → Text → Text → Text → Text → Result DiscoveryError DiscoveryOutcome
  evaluate_signed_manifest_for_versions expected_channel running_version update_agent_version
        manifest_bytes signature_bytes =
      Prelude.◌>>=◌
        (verify_and_parse_manifest x env.parse_from_rfc3339 expected_channel manifest_bytes
          signature_bytes)
        (λ manifest.
          outcome_for_manifest_for_versions running_version update_agent_version manifest)

  unfoldable pub evaluate_signed_manifest_with_state :
      UpdateChannel → Text → Text → Text → Check DiscoveryOutcome
  evaluate_signed_manifest_with_state expected_channel running_version manifest_bytes
        signature_bytes =
      do
        manifest ← lift (
            verify_and_parse_manifest x env.parse_from_rfc3339 expected_channel manifest_bytes
              signature_bytes)
        decision ←
            from_store (observe_manifest env (candidate x expected_channel manifest_bytes manifest))
        lift (decide (outcome_for_manifest running_version manifest) decision)

  unfoldable pub evaluate_signed_manifest_with_state_for_versions :
      UpdateChannel → Text → Text → Text → Text → Check DiscoveryOutcome
  evaluate_signed_manifest_with_state_for_versions expected_channel running_version
        update_agent_version manifest_bytes signature_bytes =
      do
        manifest ← lift (
            verify_and_parse_manifest x env.parse_from_rfc3339 expected_channel manifest_bytes
              signature_bytes)
        decision ←
            from_store (observe_manifest env (candidate x expected_channel manifest_bytes manifest))
        lift (
            decide (outcome_for_manifest_for_versions running_version update_agent_version manifest)
              decision)

  -- The service has URLs of its own only in tests: `test_urls` is `None`.
  unfoldable pub urls : UpdateChannel → Result DiscoveryError (Text × Text)
  urls channel =
      Prelude.◌>>=◌
        (ok_or (invalid_manifest "disabled channel has no manifest URL")
          (channel_manifest_url channel))
        (λ manifest.
          Prelude.◌>>=◌
            (ok_or (invalid_manifest "disabled channel has no signature URL")
              (channel_signature_url channel))
            (λ signature. ok (manifest, signature)))

  -- The two requests of a check.
  unfoldable pub fetch_pair : UpdateChannel → Result DiscoveryError (Text × Text)
  fetch_pair channel = Prelude.◌>>=◌ (urls channel) (λ pair.
      Prelude.◌>>=◌ (fetch_bounded x pair.0 max_manifest_bytes) (λ manifest.
        Prelude.◌>>=◌ (fetch_bounded x pair.1 max_signature_bytes)
          (λ signature. ok (manifest, signature))))

  check_enabled : UpdateChannel → Text → Check DiscoveryOutcome
  check_enabled channel running_version = do
    fetched ← lift (fetch_pair channel)
    evaluate_signed_manifest_with_state channel running_version fetched.0 fetched.1

  unfoldable pub check_channel : UpdateChannel → Text → Check DiscoveryOutcome
  unfolding check_enabled
  check_channel channel running_version =
      Prelude.if◌then◌else◌ (Channel.is_disabled channel) (lift (ok disabled))
        (check_enabled channel running_version)

  unfoldable pub fetch_enabled :
      UpdateChannel → Text → Text → Check (ValidatedManifest × DiscoveryOutcome)
  fetch_enabled channel running_version update_agent_version = do
    fetched ← lift (fetch_pair channel)
    manifest ← lift (verify_and_parse_manifest x env.parse_from_rfc3339 channel fetched.0 fetched.1)
    decision ← from_store (observe_manifest env (candidate x channel fetched.0 manifest))
    outcome ← lift (
        decide (outcome_for_manifest_for_versions running_version update_agent_version manifest)
          decision)
    lift (ok (manifest, outcome))

  unfoldable pub fetch_validated_manifest_for_versions :
      UpdateChannel → Text → Text → Check (ValidatedManifest × DiscoveryOutcome)
  unfolding fetch_enabled
  fetch_validated_manifest_for_versions channel running_version update_agent_version =
      Prelude.if◌then◌else◌ (Channel.is_disabled channel)
        (lift (err (invalid_manifest "disabled channel cannot download packages")))
        (fetch_enabled channel running_version update_agent_version)

  check_fetched : UpdateChannel → Text → Text → Check DiscoveryOutcome
  check_fetched channel running_version update_agent_version = do
    found ← fetch_validated_manifest_for_versions channel running_version update_agent_version
    lift (ok found.1)

  unfoldable pub check_channel_for_versions : UpdateChannel → Text → Text → Check DiscoveryOutcome
  unfolding check_fetched
  check_channel_for_versions channel running_version update_agent_version =
      Prelude.if◌then◌else◌ (Channel.is_disabled channel) (lift (ok disabled))
        (check_fetched channel running_version update_agent_version)
