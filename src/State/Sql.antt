-- ===== src/State/Sql.antt =====
-- The SQL statements of server/src/update_state.rs, as functions on the tables. `none` is a row
-- that a PRIMARY KEY, CHECK or FOREIGN KEY constraint of the schema refuses.
use luminos.Prelude.{Bool, true, false, ◌&&◌, not, Option, none, some, if◌then◌else◌}
use mathlib.Core.Option
use luminos.Text.{Text, codes, text_eq}
use luminos.State.Types.{ℤ}
use luminos.State.Db.{
  put, Preferences, ReplayRow, OperationRow, VerifiedRow, Statement, is_channel_name,
  is_replay_channel_name, is_status_name, is_positive, is_digest_length,
}

abbrev pub is_present : {A : Type 0} → Option A → Bool
is_present none = false
is_present (some a) = true

-- INSERT OR IGNORE INTO photoos_update_preferences (singleton, channel) VALUES (1, 'stable')
unfoldable pub default_preferences : Text → Statement (Unit {0})
default_preferences now t = elim t.preferences [
  | none ↦
      some (
        tt,
        record t { preferences = some (record { channel = codes "stable"; updated_at = now }) },
      )
  | some p ↦ some (tt, t)
]

unfoldable pub select_channel : Statement (Option Text)
select_channel t = some (Option.map (λ (p : Preferences). p.channel) t.preferences, t)

unfoldable pub upsert_channel : Text → Text → Statement (Unit {0})
upsert_channel now channel t =
    if is_channel_name channel
    then some (tt, record t { preferences = some (record { channel = channel; updated_at = now }) })
    else none

unfoldable pub select_replay : Text → Statement (Option ReplayRow)
select_replay channel t = some (t.replay channel, t)

unfoldable pub upsert_replay : Text → ReplayRow → Statement (Unit {0})
upsert_replay channel row t =
    if is_replay_channel_name channel && is_digest_length row.manifest_sha256
    then some (tt, record t { replay = put channel row t.replay })
    else none

unfoldable pub upsert_operation : Text → OperationRow → Statement (Unit {0})
upsert_operation operation_id row t =
    if is_status_name row.status
    then some (tt, record t { operations = put operation_id row t.operations })
    else none

unfoldable pub select_operation : Text → Statement (Option OperationRow)
select_operation operation_id t = some (t.operations operation_id, t)

-- A plain INSERT: the PRIMARY KEY refuses an operation id that is there.
unfoldable pub insert_operation : Text → OperationRow → Statement (Unit {0})
insert_operation operation_id row t =
    if is_status_name row.status && not (is_present (t.operations operation_id))
    then some (tt, record t { operations = put operation_id row t.operations })
    else none

-- Also refused without the operation that the FOREIGN KEY names.
unfoldable pub insert_verified : Text → VerifiedRow → Statement (Unit {0})
insert_verified operation_id row t =
    if is_digest_length row.package_sha256
      && is_positive row.package_size
      && not (is_present (t.verified operation_id))
      && is_present (t.operations operation_id)
    then some (tt, record t { verified = put operation_id row t.verified })
    else none

-- A row of the INNER JOIN of the two operation tables.
pub record JoinedRow : Type 0 where
  pub target_version : Text
  pub release_id : Text
  pub package_filename : Text
  pub package_sha256 : Text
  pub package_size : ℤ
  pub status : Text
  pub updated_at : Text

abbrev pub joined : Text → Option VerifiedRow → Option OperationRow → Option JoinedRow
joined status none o = none
joined status (some v) none = none
joined status (some v) (some o) =
    if text_eq o.status status
    then some (record {
      target_version = o.target_version;
      release_id = v.release_id;
      package_filename = v.package_filename;
      package_sha256 = v.package_sha256;
      package_size = v.package_size;
      status = o.status;
      updated_at = o.updated_at;
    })
    else none

-- SELECT … INNER JOIN … WHERE v.operation_id = ?1 AND o.status = status
unfoldable pub select_verified : Text → Text → Statement (Option JoinedRow)
select_verified status operation_id t =
    some (joined status (t.verified operation_id) (t.operations operation_id), t)

abbrev pub claimed : Text → Option OperationRow → Option OperationRow
claimed updated_at none = none
claimed updated_at (some o) =
    if text_eq o.status (codes "verified")
    then some (record o { status = codes "installing"; updated_at = updated_at })
    else none

-- UPDATE … SET status = 'installing', updated_at = ?1 WHERE operation_id = ?2 AND
-- status = 'verified'; the result is whether rows_affected is 1.
unfoldable pub update_claimed : Text → Text → Statement Bool
update_claimed updated_at operation_id t = elim (claimed updated_at (t.operations operation_id)) [
  | none ↦ some (false, t)
  | some o ↦ some (true, record t { operations = put operation_id o t.operations })
]
