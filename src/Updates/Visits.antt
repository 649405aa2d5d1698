-- ===== src/Updates/Visits.antt =====
-- The requests of the routes of server/src/handlers/updates.rs, and the server over a list of them.
use luminos.Prelude.{Option, List, [], ◌∷◌}
use luminos.Text.{Text}
use luminos.State.Db.{Env}
use luminos.Updates.Server.{Response, Site, Server, Handler, respond}
use luminos.Updates.Access.{Headers}
use luminos.Updates.Proxy.{
  FormField, update_status, update_releases, update_packages, update_history, upload_package,
  verify_package, install_package, rollback_release,
}
use luminos.Updates.Channel.{get_update_channel, set_update_channel, check_for_updates}
use luminos.Updates.Target.{UpdateTarget}
use luminos.Updates.Download.{download_update}
use luminos.Updates.Operation.{InstallVerifiedUpdateRequest}
use luminos.Updates.Verify.{verify_staged_update}
use luminos.Updates.Install.{install_verified_update}

pub data Visit : Type 0 where
  status releases packages history : Visit
  upload : List (Option FormField) → Visit
  verify_named install_named : (filename : Text) → Visit
  rollback : (version : Text) → Visit
  channel check : Visit
  choose : (name : Text) → Visit
  download verify : UpdateTarget → Visit
  install : InstallVerifiedUpdateRequest → Visit

unfoldable pub handle : Env → Site → Headers → Visit → Handler Response
handle env site headers status = update_status site headers
handle env site headers releases = update_releases site headers
handle env site headers packages = update_packages site headers
handle env site headers history = update_history site headers
handle env site headers (upload form) = upload_package site headers form
handle env site headers (verify_named filename) = verify_package site headers filename
handle env site headers (install_named filename) = install_package site headers filename
handle env site headers (rollback version) = rollback_release site headers version
handle env site headers channel = get_update_channel env site headers
handle env site headers check = check_for_updates env site headers
handle env site headers (choose name) = set_update_channel env site headers name
handle env site headers (download target) = download_update env site headers target
handle env site headers (verify target) = verify_staged_update env site headers target
handle env site headers (install request) = install_verified_update env site headers request

-- A request with what its handler meets outside.
pub record Arrival : Type 1 where
  pub site : Site
  pub headers : Headers
  pub visit : Visit

unfoldable pub arrive : Env → Arrival → Server → Response × Server
arrive env a = respond (handle env a.site a.headers a.visit)

unfoldable pub visits : Env → List Arrival → Server → Server
visits env [] s = s
visits env (a ∷ later) s = visits env later (arrive env a s).1
