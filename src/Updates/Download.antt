-- ===== src/Updates/Download.antt =====
-- `download_update` of server/src/handlers/updates.rs.
use luminos.Prelude.{[], ◌∷◌, Result, ok, err, map_err}
use luminos.Prelude
use luminos.Text.{Text, codes}
use luminos.State.Db.{Env}
use luminos.Discovery.Types.{ValidatedManifest}
use luminos.Agent.Flow.{StagedPackage}
use luminos.Download.Request.{PackageDownloadRequest}
use luminos.Download.Stage.{download_and_stage}
use luminos.Updates.Server.{
  text, number, Response, error_response, Site, Handler, lift, ◌>>=◌, ◌>>◌, on_disk,
}
use luminos.Updates.Access.{Headers, require_admin}
use luminos.Updates.Channel.{json_response, initialized}
use luminos.Updates.Target.{UpdateTarget, update_staging_directory, current_manifest}

unfoldable pub package_download_request_from_manifest :
    ValidatedManifest → Text → Result (Unit {0}) PackageDownloadRequest
package_download_request_from_manifest manifest runtime_root =
    Prelude.◌>>=◌ (update_staging_directory runtime_root) (λ staging_directory. ok (record {
      download_url = manifest.package_download_url;
      signature_url = manifest.package_signature_url;
      filename = manifest.package_filename;
      expected_size = manifest.package_size;
      expected_sha256 = manifest.package_sha256;
      staging_directory = staging_directory;
    }))

abbrev pub staged_download_response : UpdateTarget → StagedPackage → Response
staged_download_response target staged = json_response 201 (
    (codes "status", text (codes "staged"))
    ∷ (codes "version", text target.version)
    ∷ (codes "release_id", text target.release_id)
    ∷ (codes "package_filename", text target.package_filename)
    ∷ (codes "size", number staged.size)
    ∷ (codes "sha256", text staged.sha256)
    ∷ [])

unfoldable pub download_manifest : Site → UpdateTarget → ValidatedManifest → Handler Response
download_manifest site target manifest = do
  request ← lift (
      map_err (λ (e : Unit {0}). error_response 500 (codes "invalid_update_staging_path"))
        (package_download_request_from_manifest manifest site.runtime_directory))
  lift (initialized site.downloader_ready (codes "download_initialization_failed"))
  staged ←
      on_disk (download_and_stage site.net site.disk request)
        (error_response 502 (codes "package_download_failed"))
  lift (ok (staged_download_response target staged))

unfoldable pub download_update : Env → Site → Headers → UpdateTarget → Handler Response
download_update env site headers target = do
  require_admin site headers
  manifest ← current_manifest env site target
  download_manifest site target manifest
