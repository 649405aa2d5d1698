-- ===== src/Updates/Target.antt =====
-- The target of a download or verification in server/src/handlers/updates.rs, the signed manifest
-- that it is bound to, and the staging directory.
use luminos.Prelude.{
  Bool, false, ◌||◌, not, List, [], ◌∷◌, Result, ok, err, refuse_if, if◌then◌else◌,
}
use luminos.Text.{Text, codes, text_eq, is_empty, starts_with, split}
use luminos.State.Types.{UpdateChannel}
use luminos.State.Channel
use luminos.State.Db.{Env}
use luminos.State.Store.{get_channel}
use luminos.Discovery.Types.{
  DiscoveryOutcome, disabled, up_to_date, incompatible, replay_rejected, update_available,
  ValidatedManifest,
}
use luminos.Discovery.Service.{fetch_validated_manifest_for_versions}
use luminos.Download.Files.{join}
use luminos.Updates.Server.{
  Response, error_response, Site, Handler, lift, ◌>>=◌, ◌>>◌, on_store, on_check,
}
use luminos.Updates.Channel.{
  update_state_store, update_state_error, fetch_update_agent_version, initialized,
}

-- `DownloadUpdateRequest` and `VerifyStagedUpdateRequest` have the same fields.
pub record UpdateTarget : Type 0 where
  pub version : Text
  pub release_id : Text
  pub package_filename : Text

-- `validate_download_target` and `validate_verify_target`.
unfoldable pub is_other_target : UpdateTarget → ValidatedManifest → Bool
is_other_target target manifest =
    not (text_eq target.version manifest.version)
    || not (text_eq target.release_id manifest.release_id)
    || not (text_eq target.package_filename manifest.package_filename)

abbrev any_parent : List Text → Bool
any_parent [] = false
any_parent (component ∷ rest) = text_eq component (codes "..") || any_parent rest

-- A path is absolute if it begins with a separator; its components stand between separators. The
-- texts of the two errors are left out.
unfoldable pub update_staging_directory : Text → Result (Unit {0}) Text
update_staging_directory runtime_root =
    if is_empty runtime_root || not (starts_with runtime_root (codes "/"))
    then err tt
    else if any_parent (split b'/' runtime_root)
    then err tt
    else ok (join (join runtime_root (codes "updates")) (codes "staging"))

abbrev pub offered : DiscoveryOutcome → Result Response (Unit {0})
offered (update_available version release_id package_filename) = ok tt
offered up_to_date = err (error_response 409 (codes "already_up_to_date"))
offered incompatible = err (error_response 409 (codes "update_incompatible"))
offered replay_rejected = err (error_response 409 (codes "manifest_replay_rejected"))
offered disabled = err (error_response 409 (codes "updates_disabled"))

-- The manifest that the channel offers, if the target names it.
abbrev pub offered_manifest : Env → Site → UpdateTarget → UpdateChannel → Handler ValidatedManifest
offered_manifest env site target channel = do
  lift (refuse_if (Channel.is_disabled channel) (error_response 409 (codes "updates_disabled")))
  agent ← fetch_update_agent_version site
  lift (initialized site.discovery_ready (codes "discovery_initialization_failed"))
  found ←
      on_check
        (fetch_validated_manifest_for_versions site.crates env channel site.running_version agent)
        (error_response 502 (codes "signed_manifest_refresh_failed"))
  lift (offered found.1)
  lift (
      refuse_if (is_other_target target found.0)
        (error_response 409 (codes "update_target_changed")))
  lift (ok found.0)

-- The part that `download_update` and `verify_staged_update` share, behind the test for an
-- administrator: the manifest of the offered update that the target names.
unfoldable pub current_manifest : Env → Site → UpdateTarget → Handler ValidatedManifest
current_manifest env site target = do
  update_state_store env
  channel ← on_store (get_channel env) update_state_error
  offered_manifest env site target channel
