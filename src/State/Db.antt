-- ===== src/State/Db.antt =====
-- The four tables that server/migrations/20260922200500_update_discovery_state.sql and
-- server/migrations/20260922213000_update_verified_operation_identity.sql create, and the monad of
-- the statements that server/src/update_state.rs sends to them.
use luminos.Prelude.{
  ℕ, ◌+◌, Bool, false, ◌||◌, Option, none, some, Result, ok, err, ltb, ◌==◌, if◌then◌else◌, length,
}
use luminos.Text.{Text, codes, text_eq}
use luminos.State.Types.{ℤ, pos, negsuc, unavailable, constraint_violated, UpdateStateError, sqlx}

-- A table by its TEXT primary key.
abbrev pub Table : Type 0 → Type 0
Table Row = Text → Option Row

abbrev pub put : {Row : Type 0} → Text → Row → Table Row → Table Row
put key row table = λ k. if text_eq key k then some row else table k

-- photoos_update_preferences: its only row.
pub record Preferences : Type 0 where
  pub channel : Text
  pub updated_at : Text

-- photoos_update_manifest_replay, by channel.
pub record ReplayRow : Type 0 where
  pub version : Text
  pub published_at : Text
  pub manifest_sha256 : Text
  pub observed_at : Text

-- photoos_update_operations, by operation_id.
pub record OperationRow : Type 0 where
  pub target_version : Text
  pub status : Text
  pub updated_at : Text

-- photoos_update_verified_operations, by operation_id.
pub record VerifiedRow : Type 0 where
  pub release_id : Text
  pub package_filename : Text
  pub package_sha256 : Text
  pub package_size : ℤ

pub record Tables : Type 0 where
  pub preferences : Option Preferences
  pub replay : Table ReplayRow
  pub operations : Table OperationRow
  pub verified : Table VerifiedRow

-- `statements` counts what was sent, so that each statement can fail or pass on its own.
pub record Db : Type 0 where
  pub tables : Tables
  pub statements : ℕ

-- What the store does not decide: chrono's parser, which statements fail, and SQLite's clock.
pub record Env : Type 0 where
  pub parse_from_rfc3339 : Text → Option ℕ
  pub fails : ℕ → Bool
  pub current_timestamp : ℕ → Text

abbrev pub Store : Type 0 → Type 0
Store A = Db → Result UpdateStateError A × Db

abbrev pub after :
    {A B : Type 0} → Result UpdateStateError A × Db → (A → Store B) → Result UpdateStateError B × Db
after (ok a, db) f = f a db
after (err e, db) f = (err e, db)

infixl 5 ◌>>=◌ ◌>>◌
abbrev pub ◌>>=◌ : {A B : Type 0} → Store A → (A → Store B) → Store B
◌>>=◌ m f db = after (m db) f

abbrev pub ◌>>◌ : {A B : Type 0} → Store A → Store B → Store B
◌>>◌ m k = m >>= λ _. k

abbrev pub lift : {A : Type 0} → Result UpdateStateError A → Store A
lift r db = (r, db)

abbrev pub pure : {A : Type 0} → A → Store A
pure a db = (ok a, db)

-- A statement over the tables: its result, or the constraint that it breaks, and the tables after.
abbrev pub Statement : Type 0 → Type 0
Statement A = Tables → Option (A × Tables)

abbrev tick : Db → Db
tick db = record db { statements = db.statements + 1 }

abbrev finish : {A : Type 0} → Option (A × Tables) → Db → Result UpdateStateError A × Db
finish none db = (err (sqlx constraint_violated), db)
finish (some (a, t)) db = (ok a, record db { tables = t })

-- `.execute(…).await?` and `.fetch_optional(…).await?`. A statement that fails changes nothing.
unfoldable pub statement : {A : Type 0} → Env → Statement A → Store A
statement env run db =
    if env.fails db.statements
    then (err (sqlx unavailable), tick db)
    else finish (run db.tables) (tick db)

pub data Ending : Type 0 where
  commit rollback : Ending

-- BEGIN, the body, and COMMIT or ROLLBACK. A transaction that is dropped before its COMMIT has
-- passed, through `?` or by a failed COMMIT, leaves the tables as they were at BEGIN.
abbrev close_with :
    {A : Type 0}
    → Env
    → Tables
    → Result UpdateStateError (Ending × A)
    → Db
    → Result UpdateStateError A × Db
close_with env before (err e) db = (err e, record db { tables = before })
close_with env before (ok (commit, a)) db =
    if env.fails db.statements
    then (err (sqlx unavailable), record { tables = before; statements = db.statements + 1 })
    else (ok a, tick db)
close_with env before (ok (rollback, a)) db = (
  if env.fails db.statements then err (sqlx unavailable) else ok a,
  record { tables = before; statements = db.statements + 1 },
)

unfoldable pub transaction : {A : Type 0} → Env → Store (Ending × A) → Store A
transaction env body db =
    if env.fails db.statements
    then (err (sqlx unavailable), tick db)
    else let (r, db') = body (tick db) in close_with env db.tables r db'

-- The CHECK constraints.
abbrev pub is_channel_name : Text → Bool
is_channel_name c =
    text_eq c (codes "stable") || text_eq c (codes "beta") || text_eq c (codes "disabled")

abbrev pub is_replay_channel_name : Text → Bool
is_replay_channel_name c = text_eq c (codes "stable") || text_eq c (codes "beta")

abbrev pub is_status_name : Text → Bool
is_status_name s =
    text_eq s (codes "downloading")
    || text_eq s (codes "verifying")
    || text_eq s (codes "verified")
    || text_eq s (codes "installing")
    || text_eq s (codes "succeeded")
    || text_eq s (codes "failed")

abbrev pub is_positive : ℤ → Bool
is_positive (pos n) = ltb 0 n
is_positive (negsuc n) = false

abbrev pub is_digest_length : Text → Bool
is_digest_length s = length s == 64
