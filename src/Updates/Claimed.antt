-- ===== src/Updates/Claimed.antt =====
-- An operation that `install_verified_update` of server/src/handlers/updates.rs has claimed can be
-- installed.
use luminos.Prelude.{
  ℕ, ◌==◌, ◌≡◌, refl, true, false, Option, some, [], ◌∷◌, ok, arith, Result-cases, Option-cases,
  inl, inr,
}
use luminos.Text.{Text, codes, is_empty, trim, ends_with, text_eq_iff}
use luminos.State.Types.{VerifiedUpdateOperationRecord}
use luminos.State.Status
use luminos.State.Validate.{
  file_name, validate_package_filename, validate_digest, package_size_from_db,
}
use luminos.State.Db.{put, Env, Db, statement, transaction}
use luminos.State.Sql.{JoinedRow, claimed, joined, update_claimed, select_verified}
use luminos.State.Rows.{record_of_row}
use luminos.State.Store.{claim_verified_operation_for_install}
use luminos.Distribution.Policy.{is_text}
use luminos.Agent.Flow.{VerifiedAgentPackage, valid_sha256}
use luminos.Updates.Operation.{verified_agent_package_from_operation}

claim_row :
    (env : Env) (id at : Text) (db : Db) (o : VerifiedUpdateOperationRecord)
    → (claim_verified_operation_for_install env id at db).0 ≡ ok (some o)
    → (row : JoinedRow) × (record_of_row env.parse_from_rfc3339 id row ≡ ok o)
      × (Status.is_installing o.status ≡ true)
unfolding claim_verified_operation_for_install transaction statement update_claimed select_verified
claim_row env id at db o h = elim (Option-cases (claimed at (db.tables.operations id))) [
  | inl missing ↦ absurd (ground arith)
  | inr (w, found) ↦
      let row =
        joined (codes "installing") (db.tables.verified id) (put id w db.tables.operations id) in
      elim (Option-cases row) [
        | inl missing ↦ absurd (ground arith)
        | inr (r, there) ↦ elim (Result-cases (record_of_row env.parse_from_rfc3339 id r)) [
          | inr (e, refused) ↦ absurd (ground arith)
          | inl (o', read) ↦ (r, ground arith, ground arith)
        ]
      ]
]

row_parts :
    (f : Text → Option ℕ) (id : Text) (row : JoinedRow) (o : VerifiedUpdateOperationRecord)
    → record_of_row f id row ≡ ok o
    → (validate_package_filename o.package_filename ≡ ok tt)
      × (validate_digest o.package_sha256 ≡ ok tt)
      × ((o.package_size == 0) ≡ false)
unfolding record_of_row package_size_from_db
row_parts f id row o h = (ground arith, ground arith, ground arith)

nonempty_name : (name : Text) → validate_package_filename name ≡ ok tt → is_empty name ≡ false
unfolding validate_package_filename
nonempty_name [] h = absurd (ground (arith, text_eq_iff [] (trim [])))
nonempty_name (b ∷ s) h = refl

name_parts :
    (name : Text)
    → validate_package_filename name ≡ ok tt
    → (is_text (file_name name) name ≡ true) × (ends_with name (codes ".popkg") ≡ true)
unfolding validate_package_filename
name_parts name h = elim (Option-cases (file_name name)) [
  | inl missing ↦ absurd (ground arith)
  | inr (leaf, found) ↦ (ground arith, ground arith)
]

digest_part : (s : Text) → validate_digest s ≡ ok tt → valid_sha256 s ≡ true
unfolding validate_digest valid_sha256
digest_part s h = ground arith

-- The package of an operation.
abbrev pub package_for : VerifiedUpdateOperationRecord → VerifiedAgentPackage
package_for o = record {
  identity = record {
    filename = o.package_filename;
    sha256 = o.package_sha256;
    size = o.package_size;
  };
  version = o.target_version;
}

-- Whatever is in the database, a claimed operation passes the checks in front of the Agent: its
-- file name, digest and size can always be installed as the package of that operation.
pub claimed_package :
    (env : Env) (id at : Text) (db : Db) (o : VerifiedUpdateOperationRecord)
    → (claim_verified_operation_for_install env id at db).0 ≡ ok (some o)
    → verified_agent_package_from_operation o ≡ ok (package_for o)
unfolding verified_agent_package_from_operation
claimed_package env id at db o h =
    let (row, read, installing) = claim_row env id at db o h in
    let (named, hashed, sized) = row_parts env.parse_from_rfc3339 id row o read in
    let (leaf, extension) = name_parts o.package_filename named in
    ground (arith, nonempty_name o.package_filename named, digest_part o.package_sha256 hashed)
