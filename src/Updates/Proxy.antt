-- ===== src/Updates/Proxy.antt =====
-- The handlers of server/src/handlers/updates.rs that pass a request on to the Agent.
use luminos.Prelude.{
  ℕ, Bool, true, false, ◌&&◌, ◌||◌, not, Option, none, some, List, [], ◌∷◌, ◌++◌, Result, ok, err,
  refuse_if, ltb, leb, if◌then◌else◌, length,
}
use luminos.Text.{Text, codes, is_empty, ends_with, contains, contains_byte, trim}
use luminos.State.Validate.{file_name}
use luminos.Distribution.Policy.{is_text, max_package_bytes}
use luminos.Agent.Transport.{Body, get, post, no_body, json_body, bytes_body, AgentRequest}
use luminos.Updates.Server.{
  text, number, flag, Payload, fields, agent_body, Response, error_response, Site, Handler, lift,
  ◌>>=◌, ◌>>◌,
}
use luminos.Updates.Access.{Headers, require_admin, read_update_token}

abbrev pub agent_base_url : Text
agent_base_url = codes "http://127.0.0.1:8091"

-- `StatusCode::from_u16(…).unwrap_or(StatusCode::BAD_GATEWAY)`
unfoldable pub status_code : ℕ → ℕ
status_code status = if leb 100 status && ltb status 1000 then status else 502

abbrev passed_on : Option Body → Payload
passed_on (some body) = agent_body body
passed_on none = fields ((codes "error", text (codes "invalid_agent_response")) ∷ [])

abbrev reply : Response → Option (ℕ × Option Body) → Result Response Response
reply failed none = err failed
reply failed (some (status, body)) =
    ok (record { status = status_code status; payload = passed_on body })

-- `.send().await`, with the answer for a request that gets none, and the Agent's answer passed on.
unfoldable pub forward : Site → AgentRequest → Response → Handler Response
unfolding status_code
forward site request failed s =
    (reply failed (site.agent.answer s.log request), record s { log = s.log ++ request ∷ [] })

unfoldable pub agent_get : Site → Text → Handler Response
agent_get site path =
    forward site
      (record {
        method = get;
        url = agent_base_url ++ path;
        token = none;
        filename_header = none;
        body = no_body;
      })
      (error_response 502 (codes "agent_unavailable"))

abbrev pub tokened_post : Text → Text → Text → Text → AgentRequest
tokened_post token path key value = record {
  method = post;
  url = agent_base_url ++ path;
  token = some token;
  filename_header = none;
  body = json_body key value;
}

unfoldable pub agent_post : Site → Text → Text → Text → Handler Response
agent_post site path key value = do
  token ← read_update_token site
  forward site (tokened_post token path key value)
      (error_response 502 (codes "agent_request_failed"))

abbrev pub accepted_response : Response
accepted_response = record {
  status = 202;
  payload = fields ((codes "accepted", flag true) ∷ (codes "poll_after_seconds", number 5) ∷ []);
}

-- The spawned request stands in the log where it is spawned; its answer is only printed.
unfoldable pub spawn_request : AgentRequest → Handler Response
spawn_request request s = (ok accepted_response, record s { log = s.log ++ request ∷ [] })

unfoldable pub agent_post_background : Site → Text → Text → Text → Handler Response
agent_post_background site path key value = do
  token ← read_update_token site
  spawn_request (tokened_post token path key value)

unfoldable pub update_status : Site → Headers → Handler Response
update_status site headers = do require_admin site headers; agent_get site (codes "/status")

unfoldable pub update_releases : Site → Headers → Handler Response
update_releases site headers = do require_admin site headers; agent_get site (codes "/releases")

unfoldable pub update_packages : Site → Headers → Handler Response
update_packages site headers = do require_admin site headers; agent_get site (codes "/packages")

unfoldable pub update_history : Site → Headers → Handler Response
update_history site headers = do require_admin site headers; agent_get site (codes "/history")

abbrev pub is_bad_package_name : Text → Bool
is_bad_package_name filename =
    is_empty filename
    || not (is_text (file_name filename) filename)
    || not (ends_with filename (codes ".popkg"))

abbrev invalid_filename : Response
invalid_filename = error_response 400 (codes "invalid_filename")

-- A field of the form: `none` for what is missing, also for bytes that cannot be read.
pub record FormField : Type 0 where
  pub name : Option Text
  pub file_name : Option Text
  pub bytes : Option Text

abbrev name_of : Option Text → Text
name_of none = []
name_of (some s) = s

abbrev checked_bytes : Text → Option Text → Result Response (Text × Text)
checked_bytes filename none = err (error_response 400 (codes "file_read_failed"))
checked_bytes filename (some bytes) =
    if is_empty bytes || ltb max_package_bytes (length bytes)
    then err (error_response 413 (codes "invalid_package_size"))
    else ok (filename, bytes)

-- The field "file": its name and its bytes.
unfoldable pub checked_field : FormField → Result Response (Text × Text)
checked_field field =
    let filename = trim (name_of field.file_name) in
    if is_bad_package_name filename
    then err invalid_filename
    else checked_bytes filename field.bytes

-- The loop over the fields; `none` is a field that cannot be read.
unfoldable pub find_file : List (Option FormField) → Result Response (Text × Text)
unfolding checked_field
find_file [] = err (error_response 400 (codes "file_required"))
find_file (none ∷ rest) = err (error_response 400 (codes "multipart_error"))
find_file (some field ∷ rest) = elim (is_text field.name (codes "file")) [
  | true ↦ checked_field field
  | false ↦ find_file rest
]

unfoldable pub upload_package : Site → Headers → List (Option FormField) → Handler Response
upload_package site headers multipart = do
  require_admin site headers
  file ← lift (find_file multipart)
  token ← read_update_token site
  forward site
      (record {
        method = post;
        url = agent_base_url ++ codes "/upload-package";
        token = some token;
        filename_header = some file.0;
        body = bytes_body file.1;
      })
      (error_response 502 (codes "agent_upload_failed"))

unfoldable pub verify_package : Site → Headers → Text → Handler Response
verify_package site headers filename = do
  require_admin site headers
  lift (refuse_if (is_bad_package_name (trim filename)) invalid_filename)
  agent_post site (codes "/verify-package") (codes "filename") (trim filename)

unfoldable pub install_package : Site → Headers → Text → Handler Response
install_package site headers filename = do
  require_admin site headers
  lift (refuse_if (is_bad_package_name (trim filename)) invalid_filename)
  agent_post_background site (codes "/install-package") (codes "filename") (trim filename)

abbrev is_bad_version : Text → Bool
is_bad_version version =
    is_empty version
    || contains_byte version b'/'
    || contains_byte version 0x5c
    || contains version (codes "..")

unfoldable pub rollback_release : Site → Headers → Text → Handler Response
rollback_release site headers version = do
  require_admin site headers
  lift (refuse_if (is_bad_version (trim version)) (error_response 400 (codes "invalid_version")))
  agent_post_background site (codes "/rollback") (codes "version") (trim version)
