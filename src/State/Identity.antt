-- ===== src/State/Identity.antt =====
-- The identity of a verified package: what `save_verified_operation` stores, the readers and the
-- claim give back, and nothing rewrites.
use luminos.Prelude.{
  ℕ, ◌+◌, ◌≡◌, refl, ◌≢◌, false, Option, some, ok, arith, List, [], ◌∷◌, inl, inr, Result-cases,
  Option-cases,
}
use luminos.Text.{Text, codes, is_empty, trim, text_eq_iff, text_eq_refl}
use luminos.State.Types.{
  ℤ, pos, negsuc, VerifiedUpdateOperationRecord, UpdateOperationStatus, verified, installing,
}
use luminos.State.Status
use luminos.State.Validate.{package_size_for_db, package_size_from_db, parse_timestamp}
use luminos.State.Db.{OperationRow, VerifiedRow, Db, Env, statement, transaction}
use luminos.State.Sql.{
  JoinedRow, default_preferences, select_channel, upsert_channel, select_replay, upsert_replay,
  upsert_operation, select_operation, insert_operation, insert_verified, select_verified,
  update_claimed,
}
use luminos.State.Rows.{check_verified_operation, record_of_row}
use luminos.State.Store.{
  ensure_schema, get_channel, set_channel, observe_manifest, save_operation, get_operation,
  save_verified_operation, get_verified_operation, claim_verified_operation_for_install,
}
use luminos.State.Requests.{
  Request, ensure, get_chan, set_chan, observe, save, get, save_verified, get_verified, claim,
  perform, run,
}

-- A size that is stored is read back.
package_size-from-for :
    (n : ℕ) (z : ℤ) → package_size_for_db n ≡ ok z → package_size_from_db z ≡ ok n
unfolding package_size_for_db package_size_from_db
package_size-from-for n (pos k) h = ground arith
package_size-from-for n (negsuc k) h = ground arith

-- The row of a record, as the readers join it.
abbrev row_of : VerifiedUpdateOperationRecord → ℤ → UpdateOperationStatus → Text → JoinedRow
row_of o z status updated_at = record {
  target_version = o.target_version;
  release_id = o.release_id;
  package_filename = o.package_filename;
  package_sha256 = o.package_sha256;
  package_size = z;
  status = Status.as_str status;
  updated_at = updated_at;
}

-- A record that was accepted is read back, with the status and the time that it has since.
record_of_row-checked :
    (f : Text → Option ℕ) (o : VerifiedUpdateOperationRecord) (z : ℤ)
    (status : UpdateOperationStatus) (at : Text) (time : ℕ)
    → check_verified_operation f o ≡ ok z
    → f at ≡ some time
    → record_of_row f o.operation_id (row_of o z status at)
      ≡ ok (record o { status = status; updated_at = at })
unfolding check_verified_operation record_of_row parse_timestamp
record_of_row-checked f o z status at time h e =
    ground (arith, package_size-from-for o.package_size z, Status.from_db-as_str status)

-- A verified row is never rewritten or removed.
perform-verified :
    (env : Env) (id : Text) (row : VerifiedRow) (r : Request) (db : Db)
    → db.tables.verified id ≡ some row
    → (perform env r db).1.tables.verified id ≡ some row
unfolding perform statement transaction
perform-verified env id row ensure db s = unfold ensure_schema default_preferences in ground arith
perform-verified env id row get_chan db s = unfold get_channel select_channel in ground arith
perform-verified env id row (set_chan c) db s = unfold set_channel upsert_channel in ground arith
perform-verified env id row (observe c) db s =
    unfold observe_manifest select_replay upsert_replay in ground arith
perform-verified env id row (save o) db s = unfold save_operation upsert_operation in ground arith
perform-verified env id row (get i) db s = unfold get_operation select_operation in ground arith
perform-verified env id row (save_verified o) db s =
    unfold save_verified_operation insert_operation insert_verified in
    ground (arith, text_eq_iff o.operation_id id)
perform-verified env id row (get_verified i) db s =
    unfold get_verified_operation select_verified in ground arith
perform-verified env id row (claim i at) db s =
    unfold claim_verified_operation_for_install update_claimed select_verified in ground arith

-- Over any run of the store the release, file name, digest and size that are stored for a verified
-- operation stay what they are.
pub run-verified :
    (env : Env) (id : Text) (row : VerifiedRow) (rs : List Request) (db : Db)
    → db.tables.verified id ≡ some row
    → (run env rs db).tables.verified id ≡ some row
unfolding run
run-verified env id row [] db s = s
run-verified env id row (r ∷ rs) db s =
    run-verified env id row rs (perform env r db).1 (perform-verified env id row r db s)

-- An operation id is used once: saving a verified operation under an id that is there fails, and
-- changes no table.
pub save_verified-taken :
    (env : Env) (o : VerifiedUpdateOperationRecord) (db : Db) (row : OperationRow)
    → db.tables.operations o.operation_id ≡ some row
    → ((save_verified_operation env o db).0 ≢ ok tt)
      × ((save_verified_operation env o db).1.tables ≡ db.tables)
unfolding save_verified_operation transaction statement insert_operation
save_verified-taken env o db row h = ground arith

module _ (env : Env) (o : VerifiedUpdateOperationRecord) (db : Db) where
  abbrev saved : Db
  saved = (save_verified_operation env o db).1

  -- The two rows of an operation that was saved.
  saved_rows :
      (z : ℤ)
      → (save_verified_operation env o db).0 ≡ ok tt
      → check_verified_operation env.parse_from_rfc3339 o ≡ ok z
      → (saved.tables.operations o.operation_id
          ≡ some (record {
            target_version = o.target_version;
            status = Status.as_str o.status;
            updated_at = o.updated_at;
          }))
        × (saved.tables.verified o.operation_id
            ≡ some (record {
              release_id = o.release_id;
              package_filename = o.package_filename;
              package_sha256 = o.package_sha256;
              package_size = z;
            }))
  unfolding save_verified_operation transaction statement insert_operation insert_verified
  saved_rows z h k = (
    ground (arith, text_eq_iff o.operation_id o.operation_id),
    ground (arith, text_eq_iff o.operation_id o.operation_id),
  )

  saved-checked :
      (save_verified_operation env o db).0 ≡ ok tt
      → (z : ℤ) × (check_verified_operation env.parse_from_rfc3339 o ≡ ok z)
  unfolding save_verified_operation
  saved-checked h = elim (Result-cases (check_verified_operation env.parse_from_rfc3339 o)) [
    | inl found ↦ found
    | inr (e, failed) ↦ absurd (ground arith)
  ]

  checked_status :
      (z : ℤ)
      → check_verified_operation env.parse_from_rfc3339 o ≡ ok z
      → (o.status ≡ verified) × (is_empty (trim o.operation_id) ≡ false)
  unfolding check_verified_operation parse_timestamp
  checked_status z h = (ground arith, ground arith)

  checked_time :
      (z : ℤ)
      → check_verified_operation env.parse_from_rfc3339 o ≡ ok z
      → (time : ℕ) × (env.parse_from_rfc3339 o.updated_at ≡ some time)
  unfolding check_verified_operation parse_timestamp
  checked_time z h = elim (Option-cases (env.parse_from_rfc3339 o.updated_at)) [
    | inl missing ↦ absurd (ground arith)
    | inr found ↦ found
  ]

  -- The reader, once the two rows are known.
  get_saved :
      (z : ℤ)
      → (save_verified_operation env o db).0 ≡ ok tt
      → check_verified_operation env.parse_from_rfc3339 o ≡ ok z
      → record_of_row env.parse_from_rfc3339 o.operation_id (row_of o z o.status o.updated_at)
        ≡ ok o
      → o.status ≡ verified
      → is_empty (trim o.operation_id) ≡ false
      → env.fails saved.statements ≡ false
      → (get_verified_operation env o.operation_id saved).0 ≡ ok (some o)
  unfolding get_verified_operation statement select_verified Status.as_str
  get_saved z h k read st named up =
      ground (arith, saved_rows z h k, text_eq_refl (codes "verified"))

  -- A verified operation that was saved is read back as it was saved, if the read does not fail.
  pub save_verified-get :
      (save_verified_operation env o db).0 ≡ ok tt
      → env.fails saved.statements ≡ false
      → (get_verified_operation env o.operation_id saved).0 ≡ ok (some o)
  save_verified-get h up =
      let (z, k) = saved-checked h in
      let (st, named) = checked_status z k in
      let (time, dated) = checked_time z k in
      get_saved z h k
        (record_of_row-checked env.parse_from_rfc3339 o z o.status o.updated_at time k dated) st
        named up

  -- The claim of the two rows in a later database.
  claim_saved :
      (z : ℤ) (at : Text) (time : ℕ) (later : Db)
      → (save_verified_operation env o db).0 ≡ ok tt
      → check_verified_operation env.parse_from_rfc3339 o ≡ ok z
      → record_of_row env.parse_from_rfc3339 o.operation_id (row_of o z installing at)
        ≡ ok (record o { status = installing; updated_at = at })
      → o.status ≡ verified
      → is_empty (trim o.operation_id) ≡ false
      → env.parse_from_rfc3339 at ≡ some time
      → ((n : ℕ) → env.fails n ≡ false)
      → later.tables.operations o.operation_id ≡ saved.tables.operations o.operation_id
      → later.tables.verified o.operation_id ≡ saved.tables.verified o.operation_id
      → (claim_verified_operation_for_install env o.operation_id at later).0
        ≡ ok (some (record o { status = installing; updated_at = at }))
  unfolding claim_verified_operation_for_install transaction statement update_claimed
      select_verified Status.as_str parse_timestamp
  claim_saved z at time later h k read st named dated up operations identity = ground (
    arith,
    saved_rows z h k,
    text_eq_refl (codes "verified"),
    text_eq_refl (codes "installing"),
    text_eq_refl o.operation_id,
    up later.statements,
    up (later.statements + 1),
    up (later.statements + 1 + 1),
    up (later.statements + 1 + 1 + 1),
  )

  -- An operation that was saved can be claimed from a later database with the same two rows.
  pub save_verified-claim_later :
      (at : Text) (time : ℕ) (later : Db)
      → (save_verified_operation env o db).0 ≡ ok tt
      → env.parse_from_rfc3339 at ≡ some time
      → ((n : ℕ) → env.fails n ≡ false)
      → later.tables.operations o.operation_id ≡ saved.tables.operations o.operation_id
      → later.tables.verified o.operation_id ≡ saved.tables.verified o.operation_id
      → (claim_verified_operation_for_install env o.operation_id at later).0
        ≡ ok (some (record o { status = installing; updated_at = at }))
  save_verified-claim_later at time later h dated up operations identity =
      let (z, k) = saved-checked h in
      let (st, named) = checked_status z k in
      claim_saved z at time later h k
        (record_of_row-checked env.parse_from_rfc3339 o z installing at time k dated) st named dated
        up operations identity

  -- If no statement fails, an operation that was just saved can be claimed at any time that can be
  -- read: the claim gives the identity that was saved, with the status `installing` and that time.
  pub save_verified-claim :
      (at : Text) (time : ℕ)
      → (save_verified_operation env o db).0 ≡ ok tt
      → env.parse_from_rfc3339 at ≡ some time
      → ((n : ℕ) → env.fails n ≡ false)
      → (claim_verified_operation_for_install env o.operation_id at saved).0
        ≡ ok (some (record o { status = installing; updated_at = at }))
  save_verified-claim at time h dated up =
      save_verified-claim_later at time saved h dated up refl refl
