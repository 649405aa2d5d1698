-- ===== src/State/Atomic.antt =====
-- Calls that change no table, and calls that change none when they fail: rules for the monad of
-- statements, and the methods of the store by these rules.
use luminos.Prelude.{◌≡◌, ◌≢◌, refl, some, err, arith}
use luminos.Text.{Text}
use luminos.State.Types.{
  UpdateStateError, ManifestReplayCandidate, UpdateChannel, UpdateOperationRecord,
  VerifiedUpdateOperationRecord,
}
use luminos.State.Db.{Db, Env, Store, statement, Ending, transaction}
use luminos.State.Sql.{select_channel, select_replay, select_operation, select_verified}
use luminos.State.Store.{
  get_channel, set_channel, observe_manifest, save_operation, get_operation,
  save_verified_operation, get_verified_operation, claim_verified_operation_for_install,
}
use luminos.State.Requests.{
  Request, ensure, get_chan, set_chan, observe, save, get, save_verified, get_verified, claim,
  perform,
}

abbrev pub IsReadOnly : {A : Type 0} → Store A → Type 0
IsReadOnly m = (db : Db) → (m db).1.tables ≡ db.tables

abbrev pub IsAtomic : {A : Type 0} → Store A → Type 0
IsAtomic m = (db : Db) (e : UpdateStateError) → (m db).0 ≡ err e → (m db).1.tables ≡ db.tables

get_channel-IsReadOnly : (env : Env) → IsReadOnly (get_channel env)
unfolding get_channel statement select_channel
get_channel-IsReadOnly env db = ground arith

get_operation-IsReadOnly : (env : Env) (id : Text) → IsReadOnly (get_operation env id)
unfolding get_operation statement select_operation
get_operation-IsReadOnly env id db = ground arith

get_verified_operation-IsReadOnly :
    (env : Env) (id : Text) → IsReadOnly (get_verified_operation env id)
unfolding get_verified_operation statement select_verified
get_verified_operation-IsReadOnly env id db = ground arith

set_channel-IsAtomic : (env : Env) (c : UpdateChannel) → IsAtomic (set_channel env c)
unfolding set_channel statement
set_channel-IsAtomic env c db e h = ground arith

observe_manifest-IsAtomic :
    (env : Env) (c : ManifestReplayCandidate) → IsAtomic (observe_manifest env c)
unfolding observe_manifest statement select_replay
observe_manifest-IsAtomic env c db e h = ground arith

save_operation-IsAtomic : (env : Env) (o : UpdateOperationRecord) → IsAtomic (save_operation env o)
unfolding save_operation statement
save_operation-IsAtomic env o db e h = ground arith

transaction-IsAtomic :
    {A : Type 0} (env : Env) (body : Store (Ending × A)) → IsAtomic (transaction env body)
unfolding transaction
transaction-IsAtomic env body db e h = ground arith

save_verified_operation-IsAtomic :
    (env : Env) (o : VerifiedUpdateOperationRecord) → IsAtomic (save_verified_operation env o)
unfolding save_verified_operation transaction
save_verified_operation-IsAtomic env o db e h = ground arith

claim-IsAtomic :
    (env : Env) (id at : Text) → IsAtomic (claim_verified_operation_for_install env id at)
unfolding claim_verified_operation_for_install transaction
claim-IsAtomic env id at db e h = ground arith

-- A request that returns an error has changed no table, whatever statement or check failed; only
-- `ensure_schema`, whose two scripts are separate statements, is left out.
pub perform-error :
    (env : Env) (r : Request) (db : Db) (e : UpdateStateError)
    → r ≢ ensure
    → (perform env r db).0 ≡ some e
    → (perform env r db).1.tables ≡ db.tables
unfolding perform
perform-error env ensure db e n h = absurd (n refl)
perform-error env get_chan db e n h = ground (arith, get_channel-IsReadOnly env db)
perform-error env (set_chan c) db e n h = ground (arith, set_channel-IsAtomic env c db e)
perform-error env (observe c) db e n h = ground (arith, observe_manifest-IsAtomic env c db e)
perform-error env (save o) db e n h = ground (arith, save_operation-IsAtomic env o db e)
perform-error env (get id) db e n h = ground (arith, get_operation-IsReadOnly env id db)
perform-error env (save_verified o) db e n h =
    ground (arith, save_verified_operation-IsAtomic env o db e)
perform-error env (get_verified id) db e n h =
    ground (arith, get_verified_operation-IsReadOnly env id db)
perform-error env (claim id at) db e n h = ground (arith, claim-IsAtomic env id at db e)
