-- ===== src/Updates/Channel.antt =====
-- The channel and the check for updates in server/src/handlers/updates.rs.
use luminos.Prelude.{
  ℕ, Bool, true, false, ◌&&◌, not, Option, none, some, List, [], ◌∷◌, Result, ok, err, ok_or,
  refuse_if, ltb, leb, if◌then◌else◌,
}
use luminos.Text.{Text, codes, text_eq, is_empty}
use luminos.State.Types.{UpdateChannel, stable, beta}
use luminos.State.Types
use luminos.State.Channel
use luminos.State.Db.{Env}
use luminos.State.Store.{ensure_schema, get_channel, set_channel}
use luminos.Discovery.Types.{
  DiscoveryOutcome, disabled, up_to_date, incompatible, replay_rejected, update_available,
}
use luminos.Discovery.Service.{check_channel_for_versions}
use luminos.Agent.Transport.{AgentTransportError, AgentResponse, new, get_json}
use luminos.Updates.Server.{
  Field, text, number, flag, fields, Response, error_response, Site, Handler, lift, ◌>>=◌, ◌>>◌,
  on_store, on_check, on_agent,
}
use luminos.Updates.Access.{Headers, require_admin}
use luminos.Updates.Proxy.{agent_base_url}

unfoldable pub update_channel_name : UpdateChannel → Text
update_channel_name stable = codes "stable"
update_channel_name beta = codes "beta"
update_channel_name Types.disabled = codes "disabled"

unfoldable pub parse_update_channel_name : Text → Option UpdateChannel
parse_update_channel_name value =
    if text_eq value (codes "stable")
    then some stable
    else if text_eq value (codes "beta")
    then some beta
    else if text_eq value (codes "disabled")
    then some Types.disabled
    else none

abbrev pub update_state_error : Response
update_state_error = error_response 500 (codes "update_state_error")

abbrev pub invalid_update_channel : Response
invalid_update_channel = error_response 400 (codes "invalid_update_channel")

-- Both errors get the same answer.
unfoldable pub persist_update_channel_name : Env → Text → Handler UpdateChannel
persist_update_channel_name env value = do
  channel ← lift (ok_or invalid_update_channel (parse_update_channel_name value))
  on_store (set_channel env channel) invalid_update_channel
  lift (ok channel)

unfoldable pub update_state_store : Env → Handler (Unit {0})
update_state_store env = on_store (ensure_schema env) update_state_error

abbrev agent_version : Option Text → Result Response Text
agent_version none = err (error_response 502 (codes "invalid_agent_response"))
agent_version (some version) =
    if is_empty version
    then err (error_response 502 (codes "invalid_agent_response"))
    else ok version

abbrev checked_status : Result AgentTransportError AgentResponse → Result Response Text
checked_status (err e) = err (error_response 502 (codes "agent_unavailable"))
checked_status (ok response) =
    if leb 200 response.status && ltb response.status 300
    then agent_version (response.body.get_str (codes "agent_version"))
    else err (record {
      status = 502;
      payload = fields (
          (codes "error", text (codes "agent_status_failed"))
          ∷ (codes "status", number response.status)
          ∷ []);
    })

unfoldable pub fetch_update_agent_version : Site → Handler Text
fetch_update_agent_version site = do
  response ← on_agent (get_json site.agent (new agent_base_url none) (codes "/status"))
  lift (checked_status response)

abbrev pub update_check_failed : Response
update_check_failed = error_response 502 (codes "update_check_failed")

unfoldable pub check_updates_with_service :
    Env → Site → Text → Text → Handler (UpdateChannel × DiscoveryOutcome)
check_updates_with_service env site running_version update_agent_version = do
  channel ← on_store (get_channel env) update_check_failed
  outcome ←
      on_check
        (check_channel_for_versions site.crates env channel running_version update_agent_version)
        update_check_failed
  lift (ok (channel, outcome))

abbrev outcome_fields : DiscoveryOutcome → List (Text × Field)
outcome_fields disabled =
    (codes "status", text (codes "disabled")) ∷ (codes "update_available", flag false) ∷ []
outcome_fields up_to_date =
    (codes "status", text (codes "up_to_date")) ∷ (codes "update_available", flag false) ∷ []
outcome_fields incompatible =
    (codes "status", text (codes "incompatible")) ∷ (codes "update_available", flag false) ∷ []
outcome_fields replay_rejected =
    (codes "status", text (codes "replay_rejected")) ∷ (codes "update_available", flag false) ∷ []
outcome_fields (update_available version release_id package_filename) =
    (codes "status", text (codes "update_available"))
    ∷ (codes "update_available", flag true)
    ∷ (codes "version", text version)
    ∷ (codes "release_id", text release_id)
    ∷ (codes "package_filename", text package_filename)
    ∷ []

unfoldable pub discovery_response_payload :
    UpdateChannel → Text → Text → DiscoveryOutcome → List (Text × Field)
discovery_response_payload channel running_version update_agent_version outcome =
    (codes "channel", text (update_channel_name channel))
    ∷ (codes "running_version", text running_version)
    ∷ (codes "update_agent_version", text update_agent_version)
    ∷ outcome_fields outcome

abbrev pub json_response : ℕ → List (Text × Field) → Response
json_response status entries = record { status = status; payload = fields entries }

unfoldable pub get_update_channel : Env → Site → Headers → Handler Response
get_update_channel env site headers = do
  require_admin site headers
  update_state_store env
  channel ← on_store (get_channel env) update_state_error
  lift (ok (json_response 200 ((codes "channel", text (update_channel_name channel)) ∷ [])))

unfoldable pub set_update_channel : Env → Site → Headers → Text → Handler Response
set_update_channel env site headers value = do
  require_admin site headers
  update_state_store env
  channel ← persist_update_channel_name env value
  lift (
      ok (
        json_response 200 (
          (codes "channel", text (update_channel_name channel)) ∷ (codes "saved", flag true) ∷ [])))

-- A service whose `new` can fail.
abbrev pub initialized : Bool → Text → Result Response (Unit {0})
initialized ready code = refuse_if (not ready) (error_response 500 code)

-- Behind the test of the channel.
unfoldable pub check_enabled_channel : Env → Site → Handler Response
check_enabled_channel env site = do
  agent ← fetch_update_agent_version site
  lift (initialized site.discovery_ready (codes "discovery_initialization_failed"))
  checked ← check_updates_with_service env site site.running_version agent
  lift (
      ok (
        json_response 200
          (discovery_response_payload checked.0 site.running_version agent checked.1)))

abbrev not_checked : Site → UpdateChannel → Response
not_checked site channel =
    json_response 200
      (discovery_response_payload channel site.running_version (codes "not_checked") disabled)

-- The test for the disabled channel, before anything is sent.
unfoldable pub check_unless_disabled : Env → Site → UpdateChannel → Bool → Handler Response
check_unless_disabled env site channel true = lift (ok (not_checked site channel))
check_unless_disabled env site channel false = check_enabled_channel env site

unfoldable pub check_for_updates : Env → Site → Headers → Handler Response
check_for_updates env site headers = do
  require_admin site headers
  update_state_store env
  channel ← on_store (get_channel env) update_state_error
  check_unless_disabled env site channel (Channel.is_disabled channel)
