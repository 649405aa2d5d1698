-- ===== src/State/Requests.antt =====
-- The methods of `UpdateStateStore` as requests, and a run of the store over a list of them: any
-- program that uses the store is, for the tables, such a run.
use luminos.Prelude.{◌≡◌, refl, List, [], ◌∷◌, Option, none, some, Result, ok, err}
use luminos.Text.{Text}
use luminos.State.Types.{
  UpdateChannel, ManifestReplayCandidate, UpdateOperationRecord, VerifiedUpdateOperationRecord,
  UpdateStateError,
}
use luminos.State.Db.{Env, Db}
use luminos.State.Store.{
  ensure_schema, get_channel, set_channel, observe_manifest, save_operation, get_operation,
  save_verified_operation, get_verified_operation, claim_verified_operation_for_install,
}

pub data Request : Type 0 where
  ensure : Request
  get_chan : Request
  set_chan : UpdateChannel → Request
  observe : ManifestReplayCandidate → Request
  save : UpdateOperationRecord → Request
  get : Text → Request
  save_verified : VerifiedUpdateOperationRecord → Request
  get_verified : Text → Request
  claim : Text → Text → Request

-- The error of a call, if it has one, and the database after it.
abbrev pub outcome : {A : Type 0} → Result UpdateStateError A × Db → Option UpdateStateError × Db
outcome (ok a, db) = (none, db)
outcome (err e, db) = (some e, db)

unfoldable pub perform : Env → Request → Db → Option UpdateStateError × Db
perform env ensure db = outcome (ensure_schema env db)
perform env get_chan db = outcome (get_channel env db)
perform env (set_chan c) db = outcome (set_channel env c db)
perform env (observe c) db = outcome (observe_manifest env c db)
perform env (save o) db = outcome (save_operation env o db)
perform env (get id) db = outcome (get_operation env id db)
perform env (save_verified o) db = outcome (save_verified_operation env o db)
perform env (get_verified id) db = outcome (get_verified_operation env id db)
perform env (claim id at) db = outcome (claim_verified_operation_for_install env id at db)

unfoldable pub run : Env → List Request → Db → Db
run env [] db = db
run env (r ∷ rs) db = run env rs (perform env r db).1

pub outcome-db : {A : Type 0} (x : Result UpdateStateError A × Db) → (outcome x).1 ≡ x.1
outcome-db (ok a, db) = refl
outcome-db (err e, db) = refl
