-- ===== src/State/Preferences.antt =====
-- The channel preference and the plain operation records: what is written is read back.
use luminos.Prelude.{◌≡◌, ◌≢◌, refl, true, false, some, ok, arith}
use luminos.Text.{Text, text_eq, text_eq_iff, text_eq_refl}
use luminos.State.Types.{
  UpdateChannel, stable, UpdateOperationStatus, downloading, UpdateOperationRecord,
}
use luminos.State.Channel
use luminos.State.Status
use luminos.State.Db.{Db, Env, statement, is_channel_name, is_status_name}
use luminos.State.Sql.{select_channel, upsert_channel, select_operation, upsert_operation}
use luminos.State.Rows.{channel_or_stable, operation_of_row}
use luminos.State.Store.{get_channel, set_channel, save_operation, get_operation}

as_str-is_channel_name : (c : UpdateChannel) → is_channel_name (Channel.as_str c) ≡ true
unfolding Channel.as_str text_eq
as_str-is_channel_name stable = refl
as_str-is_channel_name _ = refl

as_str-is_status_name : (s : UpdateOperationStatus) → is_status_name (Status.as_str s) ≡ true
unfolding Status.as_str text_eq
as_str-is_status_name downloading = refl
as_str-is_status_name _ = refl

-- A channel that was set is read back, if the read does not fail, and the other tables have not
-- changed.
pub set_channel-get :
    (env : Env) (c : UpdateChannel) (db : Db)
    → (set_channel env c db).0 ≡ ok tt
    → env.fails (set_channel env c db).1.statements ≡ false
    → ((get_channel env (set_channel env c db).1).0 ≡ ok c)
      × ((set_channel env c db).1.tables.replay ≡ db.tables.replay)
      × ((set_channel env c db).1.tables.operations ≡ db.tables.operations)
      × ((set_channel env c db).1.tables.verified ≡ db.tables.verified)
unfolding set_channel get_channel statement select_channel upsert_channel channel_or_stable
set_channel-get env c db h up = (
  ground (arith, Channel.from_db-as_str c, as_str-is_channel_name c),
  ground (arith, as_str-is_channel_name c),
  ground (arith, as_str-is_channel_name c),
  ground (arith, as_str-is_channel_name c),
)

-- An operation that was saved is read back with its status, if the read does not fail, and no other
-- operation has changed.
pub save_operation-get :
    (env : Env) (o : UpdateOperationRecord) (id : Text) (db : Db)
    → (save_operation env o db).0 ≡ ok tt
    → env.fails (save_operation env o db).1.statements ≡ false
    → ((get_operation env o.operation_id (save_operation env o db).1).0 ≡ ok (some o))
      × (id ≢ o.operation_id
          → (save_operation env o db).1.tables.operations id ≡ db.tables.operations id)
unfolding save_operation get_operation statement select_operation upsert_operation operation_of_row
save_operation-get env o id db h up = (
  ground (
    arith,
    Status.from_db-as_str o.status,
    as_str-is_status_name o.status,
    text_eq_refl o.operation_id,
  ),
  λ other. ground (arith, as_str-is_status_name o.status, text_eq_iff o.operation_id id),
)
