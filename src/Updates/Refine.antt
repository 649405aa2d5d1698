-- ===== src/Updates/Refine.antt =====
-- Each handler of server/src/handlers/updates.rs as a run of the update state.
use luminos.Prelude.{refl, Bool, true, false, Option, List, [], ◌∷◌, Result, ok, err}
use luminos.Text.{Text}
use luminos.State.Types.{UpdateChannel, VerifiedUpdateOperationRecord}
use luminos.State.Db.{Env}
use luminos.Discovery.Types.{ValidatedManifest}
use luminos.Agent.Transport.{AgentRequest}
use luminos.Agent.Flow.{InstallApproval, VerifiedAgentPackage}
use luminos.Updates.Server.{Response, Site, Server, respond}
use luminos.Updates.Access.{Headers, require_admin, read_update_token}
use luminos.Updates.Proxy.{
  FormField, forward, agent_get, agent_post, spawn_request, agent_post_background, update_status,
  update_releases, update_packages, update_history, upload_package, verify_package, install_package,
  rollback_release,
}
use luminos.Updates.Channel.{
  persist_update_channel_name, update_state_store, fetch_update_agent_version,
  check_updates_with_service, get_update_channel, set_update_channel, check_enabled_channel,
  check_unless_disabled, check_for_updates,
}
use luminos.Updates.Target.{UpdateTarget, current_manifest}
use luminos.Updates.Download.{download_manifest, download_update}
use luminos.Updates.Operation.{mark_update_operation_failed}
use luminos.Updates.Verify.{record_verified, verify_manifest, verify_staged_update}
use luminos.Updates.Install.{or_failed, install_claimed, claim_and_install, install_verified_update}
use luminos.Updates.Visits.{
  Visit, status, releases, packages, history, upload, verify_named, install_named, rollback,
  channel, check, choose, download, verify, install, handle, Arrival, arrive, visits,
}
use luminos.Updates.Moves.{Moves}
use luminos.Updates.Rules.{run_rules}
use luminos.Updates.Runs.{HasRun, HasRun-IsPath, none-HasRun}

module _ (env : Env) (site : Site) (headers : Headers) where
  admin-HasRun : Moves (HasRun env) (require_admin site headers)
  unfolding require_admin
  admin-HasRun = search run_rules

  token-HasRun : Moves (HasRun env) (read_update_token site)
  unfolding read_update_token
  token-HasRun = search run_rules

  forward-HasRun :
      (request : AgentRequest) (r : Response) → Moves (HasRun env) (forward site request r)
  unfolding forward
  forward-HasRun request r = record { along = λ s. none-HasRun env s _ refl }

  spawn-HasRun : (request : AgentRequest) → Moves (HasRun env) (spawn_request request)
  unfolding spawn_request
  spawn-HasRun request = record { along = λ s. none-HasRun env s _ refl }

  get-HasRun : (path : Text) → Moves (HasRun env) (agent_get site path)
  unfolding agent_get
  get-HasRun path = search (run_rules, forward-HasRun)

  post-HasRun : (path key value : Text) → Moves (HasRun env) (agent_post site path key value)
  unfolding agent_post
  post-HasRun path key value = search (run_rules, token-HasRun, forward-HasRun)

  background-HasRun :
      (path key value : Text) → Moves (HasRun env) (agent_post_background site path key value)
  unfolding agent_post_background
  background-HasRun path key value = search (run_rules, token-HasRun, spawn-HasRun)

  upload-HasRun :
      (form : List (Option FormField)) → Moves (HasRun env) (upload_package site headers form)
  unfolding upload_package
  upload-HasRun form = search (run_rules, admin-HasRun, token-HasRun, forward-HasRun) depth 8

  pub store-HasRun : Moves (HasRun env) (update_state_store env)
  unfolding update_state_store
  store-HasRun = search run_rules

  version-HasRun : Moves (HasRun env) (fetch_update_agent_version site)
  unfolding fetch_update_agent_version
  version-HasRun = search run_rules

  persist-HasRun : (value : Text) → Moves (HasRun env) (persist_update_channel_name env value)
  unfolding persist_update_channel_name
  persist-HasRun value = search run_rules

  service-HasRun :
      (running agent : Text)
      → Moves (HasRun env) (check_updates_with_service env site running agent)
  unfolding check_updates_with_service
  service-HasRun running agent = search run_rules

  enabled-HasRun : Moves (HasRun env) (check_enabled_channel env site)
  unfolding check_enabled_channel
  enabled-HasRun = search (run_rules, version-HasRun, service-HasRun)

  unless-HasRun :
      (c : UpdateChannel) (b : Bool) → Moves (HasRun env) (check_unless_disabled env site c b)
  unfolding check_unless_disabled
  unless-HasRun c true = search run_rules
  unless-HasRun c false = enabled-HasRun

  manifest-HasRun : (target : UpdateTarget) → Moves (HasRun env) (current_manifest env site target)
  unfolding current_manifest
  manifest-HasRun target = search (run_rules, store-HasRun, version-HasRun) depth 20 fits 4000

  staging-HasRun :
      (target : UpdateTarget) (m : ValidatedManifest)
      → Moves (HasRun env) (download_manifest site target m)
  unfolding download_manifest
  staging-HasRun target m = search run_rules depth 10

  mark-HasRun :
      (o : VerifiedUpdateOperationRecord)
      → Moves (HasRun env) (mark_update_operation_failed env site o)
  unfolding mark_update_operation_failed
  mark-HasRun o = search run_rules

  or_failed-HasRun :
      {A : Type 0} (o : VerifiedUpdateOperationRecord) (r : Result Response A)
      → Moves (HasRun env) (or_failed env site o r)
  unfolding or_failed
  or_failed-HasRun o (ok a) = search run_rules
  or_failed-HasRun o (err r) = search (run_rules, mark-HasRun)

  record-HasRun :
      (target : UpdateTarget) (p : VerifiedAgentPackage)
      → Moves (HasRun env) (record_verified env site target p)
  unfolding record_verified
  record-HasRun target p = search run_rules depth 10

  verify-HasRun :
      (target : UpdateTarget) (m : ValidatedManifest)
      → Moves (HasRun env) (verify_manifest env site target m)
  unfolding verify_manifest
  verify-HasRun target m = search (run_rules, token-HasRun, record-HasRun) depth 10

  pub claimed-HasRun :
      (consent : InstallApproval) (o : VerifiedUpdateOperationRecord)
      → Moves (HasRun env) (install_claimed env site consent o)
  unfolding install_claimed
  claimed-HasRun consent o = search (run_rules, or_failed-HasRun) depth 10

  claiming-HasRun :
      (consent : InstallApproval) (id at : Text)
      → Moves (HasRun env) (claim_and_install env site consent id at)
  unfolding claim_and_install
  claiming-HasRun consent id at = search (run_rules, claimed-HasRun)

  -- Every handler.
  pub handle-HasRun : (v : Visit) → Moves (HasRun env) (handle env site headers v)
  unfolding handle update_status update_releases update_packages update_history verify_package
      install_package rollback_release get_update_channel set_update_channel check_for_updates
      download_update verify_staged_update install_verified_update
  handle-HasRun status = search (run_rules, admin-HasRun, get-HasRun)
  handle-HasRun releases = search (run_rules, admin-HasRun, get-HasRun)
  handle-HasRun packages = search (run_rules, admin-HasRun, get-HasRun)
  handle-HasRun history = search (run_rules, admin-HasRun, get-HasRun)
  handle-HasRun (upload form) = upload-HasRun form
  handle-HasRun (verify_named filename) = search (run_rules, admin-HasRun, post-HasRun)
  handle-HasRun (install_named filename) = search (run_rules, admin-HasRun, background-HasRun)
  handle-HasRun (rollback version) = search (run_rules, admin-HasRun, background-HasRun)
  handle-HasRun channel = search (run_rules, admin-HasRun, store-HasRun)
  handle-HasRun check = search (run_rules, admin-HasRun, store-HasRun, unless-HasRun) depth 8
  handle-HasRun (choose name) =
      search (run_rules, admin-HasRun, store-HasRun, persist-HasRun) depth 8
  handle-HasRun (download target) =
      search (run_rules, admin-HasRun, manifest-HasRun, staging-HasRun)
  handle-HasRun (verify target) = search (run_rules, admin-HasRun, manifest-HasRun, verify-HasRun)
  handle-HasRun (install request) =
      search (run_rules, admin-HasRun, store-HasRun, claiming-HasRun) depth 10

arrive-HasRun : (env : Env) (a : Arrival) (s : Server) → HasRun env s (arrive env a s).1
unfolding arrive respond
arrive-HasRun env a s = (handle-HasRun env a.site a.headers a.visit).along s

-- Whatever requests arrive, with any tokens and any behaviour of the Agent, the release server and
-- the disk, the handlers do to the database what a run of update-state methods does, and in that
-- run `save_operation` writes no status but `failed`.
pub visits-HasRun :
    (env : Env) (arrivals : List Arrival) (s : Server) → HasRun env s (visits env arrivals s)
unfolding visits
visits-HasRun env [] s = (HasRun-IsPath env).here s
visits-HasRun env (a ∷ later) s =
    (HasRun-IsPath env).chain s (arrive env a s).1 (visits env later (arrive env a s).1)
      (arrive-HasRun env a s) (visits-HasRun env later (arrive env a s).1)
