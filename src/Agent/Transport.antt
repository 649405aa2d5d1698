-- ===== src/Agent/Transport.antt =====
-- `AgentTransport` of server/src/update_agent.rs. The Agent is another program: what it answers may
-- depend on all requests before. A run keeps the log of the requests that the code asks reqwest to
-- send: a redirect that reqwest follows is part of the request, and one that it cannot build stands
-- in the log without an answer.
use luminos.Prelude.{
  ℕ, Bool, Option, none, some, List, [], ◌∷◌, ◌++◌, reverse, Result, ok, err, ◌==◌, if◌then◌else◌,
}
use luminos.Text.{Text, codes}

-- A JSON body by what `body.get(key).and_then(Value::as_…)` returns.
pub record Body : Type 0 where
  pub get_str : Text → Option Text
  pub get_u64 : Text → Option ℕ
  pub get_bool : Text → Option Bool

pub record AgentResponse : Type 0 where
  pub status : ℕ
  pub body : Body

-- The messages that other crates put into the errors are left out.
pub data AgentTransportError : Type 0 where
  request_failed : AgentTransportError
  file_failed : AgentTransportError
  invalid_json : ℕ → AgentTransportError

pub data Method : Type 0 where
  get post : Method

-- What a request carries: a JSON object of one text under one key, a streamed file by its path, or
-- bytes.
pub data RequestBody : Type 0 where
  no_body : RequestBody
  json_body : (key value : Text) → RequestBody
  file_body : (path : Text) → RequestBody
  bytes_body : (bytes : Text) → RequestBody

-- A request with the headers and the body that its sender sets.
pub record AgentRequest : Type 0 where
  pub method : Method
  pub url : Text
  pub token : Option Text
  pub filename_header : Option Text
  pub body : RequestBody

pub record AgentTransport : Type 0 where
  pub base_url : Text
  pub token : Option Text

-- The Agent's answer to a request after a log: a status, and a body if it is JSON; `none` is a
-- request that gets no answer. `file_size` is the metadata of a file that can be opened.
pub record AgentEnv : Type 0 where
  pub answer : List AgentRequest → AgentRequest → Option (ℕ × Option Body)
  pub file_size : Text → Option ℕ

abbrev pub Log : Type 0
Log = List AgentRequest

abbrev trim_slashes : Text → Text
trim_slashes [] = []
trim_slashes (b ∷ s) = if b == b'/' then trim_slashes s else b ∷ s

-- `AgentTransport::new`: `trim_end_matches('/')`.
unfoldable pub new : Text → Option Text → AgentTransport
new base_url token = record { base_url = reverse (trim_slashes (reverse base_url)); token = token }

unfoldable pub url : AgentTransport → Text → Text
url t path = t.base_url ++ (codes "/" ++ trim_slashes path)

unfoldable pub decode : ℕ × Option Body → Result AgentTransportError AgentResponse
decode (status, none) = err (invalid_json status)
decode (status, some body) = ok (record { status = status; body = body })

-- `.send().await` and `decode`: the request stands in the log in any case.
unfoldable pub send : AgentEnv → AgentRequest → Log → Result AgentTransportError AgentResponse × Log
unfolding decode
send env request log = elim (env.answer log request) [
  | none ↦ (err request_failed, log ++ request ∷ [])
  | some raw ↦ (decode raw, log ++ request ∷ [])
]

abbrev pub get_request : AgentTransport → Text → AgentRequest
get_request t path = record {
  method = get;
  url = url t path;
  token = none;
  filename_header = none;
  body = no_body;
}

unfoldable pub get_json :
    AgentEnv → AgentTransport → Text → Log → Result AgentTransportError AgentResponse × Log
get_json env t path = send env (get_request t path)

abbrev pub post_request : AgentTransport → Text → Text → AgentRequest
post_request t path filename = record {
  method = post;
  url = url t path;
  token = t.token;
  filename_header = none;
  body = json_body (codes "filename") filename;
}

unfoldable pub post_json :
    AgentEnv → AgentTransport → Text → Text → Log → Result AgentTransportError AgentResponse × Log
post_json env t path filename = send env (post_request t path filename)

abbrev pub upload_request : AgentTransport → Text → Text → Text → AgentRequest
upload_request t path filename package_path = record {
  method = post;
  url = url t path;
  token = t.token;
  filename_header = some filename;
  body = file_body package_path;
}

unfoldable pub upload_file :
    AgentEnv
    → AgentTransport
    → Text
    → Text
    → Text
    → Log
    → Result AgentTransportError AgentResponse × Log
upload_file env t path filename package_path log = elim (env.file_size package_path) [
  | none ↦ (err file_failed, log)
  | some size ↦ send env (upload_request t path filename package_path) log
]
