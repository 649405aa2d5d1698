-- ===== src/Updates/Server.antt =====
-- What a handler of server/src/handlers/updates.rs works on, its answers, and the monad of its early
-- returns.
use luminos.Prelude.{ℕ, Bool, Option, List, [], ◌∷◌, Result, ok, err, map_err}
use luminos.Text.{Text, codes}
use luminos.State.Types.{ℤ}
use luminos.State.Db.{Db, Store}
use luminos.Discovery.Types.{Crates}
use luminos.Discovery.Service.{Check}
use luminos.Agent.Transport.{AgentEnv, Body, Log}
use luminos.Download.Files.{World, Disk, Io}
use luminos.Download.Http.{Net}

-- A value of a JSON object that a handler builds.
pub data Field : Type 0 where
  text : Text → Field
  number : ℕ → Field
  flag : Bool → Field

-- The keys of an object with their values, or a body that the Agent sent. The `message` of an error
-- is left out.
pub data Payload : Type 0 where
  fields : List (Text × Field) → Payload
  agent_body : Body → Payload

pub record Response : Type 0 where
  pub status : ℕ
  pub payload : Payload

abbrev pub error_response : ℕ → Text → Response
error_response status code = record {
  status = status;
  payload = fields ((codes "error", text code) ∷ []);
}

-- What a path is, without following a link at its end.
pub data FileKind : Type 0 where
  regular directory symlink other : FileKind

-- An open file: whether it is regular and its length (`none` if the metadata cannot be read), and
-- what its reads return one after another; behind them is the end of the file.
pub record OpenFile : Type 0 where
  pub metadata : Option (Bool × ℕ)
  pub reads : List (Option Text)

pub record FileSystem : Type 0 where
  pub symlink_metadata : Text → Option FileKind
  pub canonicalize : Text → Option Text
  pub open_file : Text → Option OpenFile

-- What a handler meets outside during one request: jsonwebtoken's decoder (the subject of a valid
-- token), the role that the `users` table has for an id, the text of the Agent's environment file,
-- the Agent, the release server, the disk, uuid, and the clock by the number of statements sent.
pub record Site : Type 1 where
  pub decode_token : Text → Option ℤ
  pub role_of : ℤ → Option Text
  pub env_file : Option Text
  pub agent : AgentEnv
  pub crates : Crates
  pub discovery_ready : Bool
  pub net : Net
  pub disk : Disk
  pub downloader_ready : Bool
  pub fs : FileSystem
  pub is_uuid : Text → Bool
  pub new_uuid : Text
  pub now : ℕ → Text
  pub running_version : Text
  pub runtime_directory : Text

-- The database, the requests that were sent to the Agent, and the files that a download writes.
pub record Server : Type 0 where
  pub db : Db
  pub log : Log
  pub world : World

abbrev pub Handler : Type 0 → Type 0
Handler A = Server → Result Response A × Server

-- The rest of a handler behind a result.
abbrev pub continue : {A B : Type 0} → Result Response A → (A → Handler B) → Handler B
continue (ok a) f s = f a s
continue (err r) f s = (err r, s)

-- A Result with an early return: `Err(response) => return response`.
unfoldable pub lift : {A : Type 0} → Result Response A → Handler A
lift r s = (r, s)

infixl 5 ◌>>=◌ ◌>>◌
unfoldable pub ◌>>=◌ : {A B : Type 0} → Handler A → (A → Handler B) → Handler B
◌>>=◌ m f s = let (r, s') = m s in continue r f s'

abbrev pub ◌>>◌ : {A B : Type 0} → Handler A → Handler B → Handler B
◌>>◌ m k = m >>= λ _. k

-- A call of the update state with an answer for its error.
unfoldable pub on_store : {A : Type 0} → Store A → Response → Handler A
on_store m failed s = let (r, db) = m s.db in (map_err (λ e. failed) r, record s { db = db })

-- A call of the update state whose result is not looked at: `let _ = …`.
unfoldable pub ignore_store : {A : Type 0} → Store A → Handler (Unit {0})
ignore_store m s = let (r, db) = m s.db in (ok tt, record s { db = db })

unfoldable pub on_check : {A : Type 0} → Check A → Response → Handler A
on_check m failed s = let (r, db) = m s.db in (map_err (λ e. failed) r, record s { db = db })

unfoldable pub on_disk : {A : Type 0} → Io A → Response → Handler A
on_disk m failed s =
    let (r, world) = m s.world in (map_err (λ e. failed) r, record s { world = world })

-- A call of the Agent; the caller sees its result.
unfoldable pub on_agent : {A E : Type 0} → (Log → Result E A × Log) → Handler (Result E A)
on_agent m s = let (r, log) = m s.log in (ok r, record s { log = log })

-- The time that `Utc::now()` gives.
unfoldable pub clock : Site → Handler Text
clock site s = (ok (site.now s.db.statements), s)

abbrev answer : Result Response Response → Response
answer (ok r) = r
answer (err r) = r

-- The answer of a handler and the server after it.
unfoldable pub respond : Handler Response → Server → Response × Server
respond m s = let (r, s') = m s in (answer r, s')
