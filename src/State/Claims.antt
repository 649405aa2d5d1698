-- ===== src/State/Claims.antt =====
-- The single-use install authority of `claim_verified_operation_for_install`.
use luminos.Prelude.{
  ◌≡◌, ◌≢◌, refl, Bool, true, false, not, ◌&&◌, Option, none, some, ok, arith, List, [], ◌∷◌, All,
}
use luminos.Text.{Text, codes, text_eq, text_eq_iff}
use luminos.State.Types.{VerifiedUpdateOperationRecord, UpdateOperationStatus, downloading}
use luminos.State.Status
use luminos.State.Db.{OperationRow, Db, Env, statement, transaction}
use luminos.State.Sql.{
  default_preferences, select_channel, upsert_channel, select_replay, upsert_replay,
  upsert_operation, select_operation, insert_operation, insert_verified, select_verified,
  update_claimed,
}
use luminos.State.Store.{
  ensure_schema, get_channel, set_channel, observe_manifest, save_operation, get_operation,
  save_verified_operation, get_verified_operation, claim_verified_operation_for_install,
}
use luminos.State.Requests.{
  Request, ensure, get_chan, set_chan, observe, save, get, save_verified, get_verified, claim,
  perform, run,
}

-- The operation is there and is no longer verified.
abbrev is_spent : Option OperationRow → Bool
is_spent none = false
is_spent (some o) = not (text_eq o.status (codes "verified"))

-- `save_operation` writes any status; it must not set the operation back to verified.
abbrev pub Keeps : Text → Request → Type 0
Keeps id (save o) = (text_eq o.operation_id id && Status.is_verified o.status) ≡ false
Keeps id ensure = Unit
Keeps id _ = Unit

as_str-is_verified :
    (s : UpdateOperationStatus)
    → text_eq (Status.as_str s) (codes "verified") ≡ Status.is_verified s
unfolding Status.as_str text_eq
as_str-is_verified downloading = refl
as_str-is_verified _ = refl

installing_not_verified : text_eq (codes "installing") (codes "verified") ≡ false
unfolding text_eq
installing_not_verified = refl

-- A claim that succeeds leaves the operation spent.
claim_spends :
    (env : Env) (id at : Text) (db : Db) (o : VerifiedUpdateOperationRecord)
    → (claim_verified_operation_for_install env id at db).0 ≡ ok (some o)
    → is_spent ((claim_verified_operation_for_install env id at db).1.tables.operations id) ≡ true
unfolding claim_verified_operation_for_install transaction statement update_claimed select_verified
claim_spends env id at db o h = ground (arith, text_eq_iff id id, installing_not_verified)

spent_no_claim :
    (env : Env) (id at : Text) (db : Db) (o : VerifiedUpdateOperationRecord)
    → is_spent (db.tables.operations id) ≡ true
    → (claim_verified_operation_for_install env id at db).0 ≢ ok (some o)
unfolding claim_verified_operation_for_install transaction statement update_claimed
spent_no_claim env id at db o s h = ground arith

perform-is_spent :
    (env : Env) (id : Text) (r : Request) (db : Db)
    → Keeps id r
    → is_spent (db.tables.operations id) ≡ true
    → is_spent ((perform env r db).1.tables.operations id) ≡ true
unfolding perform statement transaction
perform-is_spent env id ensure db k s = unfold ensure_schema default_preferences in ground arith
perform-is_spent env id get_chan db k s = unfold get_channel select_channel in ground arith
perform-is_spent env id (set_chan c) db k s = unfold set_channel upsert_channel in ground arith
perform-is_spent env id (observe c) db k s =
    unfold observe_manifest select_replay upsert_replay in ground arith
perform-is_spent env id (save o) db k s =
    unfold save_operation upsert_operation in
    ground (arith, text_eq_iff o.operation_id id, as_str-is_verified o.status)
perform-is_spent env id (get i) db k s = unfold get_operation select_operation in ground arith
perform-is_spent env id (save_verified o) db k s =
    unfold save_verified_operation insert_operation insert_verified in
    ground (arith, text_eq_iff o.operation_id id)
perform-is_spent env id (get_verified i) db k s =
    unfold get_verified_operation select_verified in ground arith
perform-is_spent env id (claim i at) db k s =
    unfold claim_verified_operation_for_install update_claimed select_verified in
    ground (arith, text_eq_iff i id)

run-is_spent :
    (env : Env) (id : Text) (rs : List Request) (db : Db)
    → All (Keeps id) rs
    → is_spent (db.tables.operations id) ≡ true
    → is_spent ((run env rs db).tables.operations id) ≡ true
unfolding run
run-is_spent env id [] db k s = s
run-is_spent env id (r ∷ rs) db k s =
    run-is_spent env id rs (perform env r db).1 k.1 (perform-is_spent env id r db k.0 s)

-- After a claim of an operation has succeeded, no later claim of it succeeds, whatever requests
-- come between and whatever statements fail, as long as no `save_operation` sets the operation
-- back to verified.
pub claim_single_use :
    (env : Env) (id at : Text) (db : Db) (o : VerifiedUpdateOperationRecord) (rs : List Request)
    (at' : Text) (o' : VerifiedUpdateOperationRecord)
    → (claim_verified_operation_for_install env id at db).0 ≡ ok (some o)
    → All (Keeps id) rs
    → (claim_verified_operation_for_install env id at'
        (run env rs (claim_verified_operation_for_install env id at db).1)).0
      ≢ ok (some o')
claim_single_use env id at db o rs at' o' h k =
    spent_no_claim env id at' (run env rs (claim_verified_operation_for_install env id at db).1) o'
      (run-is_spent env id rs (claim_verified_operation_for_install env id at db).1 k
        (claim_spends env id at db o h))
