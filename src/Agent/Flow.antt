-- ===== src/Agent/Flow.antt =====
-- `UpdateAgentVerificationFlow` of server/src/update_agent_flow.rs.
use luminos.Prelude.{
  ℕ, Bool, true, false, ◌&&◌, ◌||◌, not, Option, none, some, List, [], ◌∷◌, Result, ok, err,
  refuse_if, ok_or, map_err, ltb, leb, ◌==◌, if◌then◌else◌, length, all,
}
use luminos.Prelude
use luminos.Text.{Text, codes, text_eq, is_empty, ends_with, contains_byte, is_lower_hex}
use luminos.State.Validate.{file_name}
use luminos.Agent.Transport.{
  Body, AgentResponse, AgentTransportError, AgentTransport, AgentEnv, Log, post_json, upload_file,
}

-- `StagedPackage` of server/src/update_download.rs.
pub record StagedPackage : Type 0 where
  pub path : Text
  pub size : ℕ
  pub sha256 : Text

pub record AgentPackageIdentity : Type 0 where
  pub filename : Text
  pub sha256 : Text
  pub size : ℕ

pub record VerifiedAgentPackage : Type 0 where
  pub identity : AgentPackageIdentity
  pub version : Text

pub data InstallApproval : Type 0 where
  not_approved approved : InstallApproval

pub data AgentFlowError : Type 0 where
  invalid_staged_package : AgentFlowError
  transport : AgentTransportError → AgentFlowError
  upload_rejected : ℕ → AgentFlowError
  upload_response_invalid : AgentFlowError
  upload_identity_mismatch : AgentFlowError
  verify_rejected : AgentFlowError
  verify_identity_mismatch : AgentFlowError
  install_not_approved : AgentFlowError
  install_rejected : ℕ → AgentFlowError
  install_response_invalid : AgentFlowError

unfoldable pub valid_sha256 : Text → Bool
valid_sha256 value = length value == 64 && all is_lower_hex value

abbrev pub successful_status : ℕ → Bool
successful_status status = leb 200 status && ltb status 300

unfoldable pub check_filename : Text → Result AgentFlowError (Unit {0})
check_filename filename =
    refuse_if
      (is_empty filename
        || text_eq filename (codes ".")
        || text_eq filename (codes "..")
        || contains_byte filename b'/'
        || contains_byte filename 0x5c
        || not (ends_with filename (codes ".popkg")))
      invalid_staged_package

unfoldable pub staged_filename : StagedPackage → Result AgentFlowError Text
unfolding check_filename
staged_filename staged =
    Prelude.◌>>=◌ (ok_or invalid_staged_package (file_name staged.path)) (λ filename.
      Prelude.◌>>◌ (check_filename filename) (
        Prelude.◌>>◌
          (refuse_if (staged.size == 0 || not (valid_sha256 staged.sha256)) invalid_staged_package)
          (ok filename)))

-- `.unwrap_or(false)`
abbrev pub or_false : Option Bool → Bool
or_false none = false
or_false (some b) = b

unfoldable pub upload_succeeded : Body → Bool
upload_succeeded body =
    or_false (body.get_bool (codes "success")) || or_false (body.get_bool (codes "uploaded"))

unfoldable pub parse_upload_identity : Body → Result AgentFlowError AgentPackageIdentity
parse_upload_identity body =
    Prelude.◌>>◌ (refuse_if (not (upload_succeeded body)) upload_response_invalid) (
      Prelude.◌>>=◌ (ok_or upload_response_invalid (body.get_str (codes "filename"))) (λ filename.
        Prelude.◌>>=◌ (ok_or upload_response_invalid (body.get_str (codes "sha256"))) (λ sha256.
          Prelude.◌>>=◌ (ok_or upload_response_invalid (body.get_u64 (codes "size_bytes"))) (λ size.
            Prelude.◌>>◌
              (refuse_if (is_empty filename || not (valid_sha256 sha256) || size == 0)
                upload_response_invalid)
              (ok (record { filename = filename; sha256 = sha256; size = size }))))))

unfoldable pub identity_eq : AgentPackageIdentity → AgentPackageIdentity → Bool
identity_eq a b = text_eq a.filename b.filename && text_eq a.sha256 b.sha256 && a.size == b.size

-- The checks on the Agent's answer to the verification.
unfoldable pub check_verified :
    AgentPackageIdentity → Text → AgentResponse → Result AgentFlowError VerifiedAgentPackage
check_verified expected_identity expected_version verify =
    Prelude.◌>>◌ (refuse_if (not (successful_status verify.status)) verify_rejected) (
      Prelude.◌>>◌
        (refuse_if (not (or_false (verify.body.get_bool (codes "valid")))) verify_rejected)
        (Prelude.◌>>=◌ (ok_or verify_identity_mismatch (verify.body.get_str (codes "filename")))
          (λ filename.
            Prelude.◌>>=◌
              (ok_or verify_identity_mismatch (verify.body.get_str (codes "package_sha256")))
              (λ sha256.
                Prelude.◌>>=◌
                  (ok_or verify_identity_mismatch (verify.body.get_str (codes "version")))
                  (λ version.
                    Prelude.◌>>◌
                      (refuse_if
                        (not (text_eq filename expected_identity.filename)
                          || not (text_eq sha256 expected_identity.sha256)
                          || not (text_eq version expected_version))
                        verify_identity_mismatch)
                      (ok (record { identity = expected_identity; version = version })))))))

-- The checks on the Agent's answer to the upload.
unfoldable pub check_uploaded :
    AgentPackageIdentity → AgentResponse → Result AgentFlowError (Unit {0})
check_uploaded expected_identity upload =
    Prelude.◌>>◌ (refuse_if (not (successful_status upload.status)) (upload_rejected upload.status))
      (Prelude.◌>>=◌ (parse_upload_identity upload.body) (λ uploaded.
        refuse_if (not (identity_eq uploaded expected_identity)) upload_identity_mismatch))

abbrev pub Flow : Type 0 → Type 0
Flow A = Log → Result AgentFlowError A × Log

abbrev after :
    {A B : Type 0} → Result AgentFlowError A × Log → (A → Flow B) → Result AgentFlowError B × Log
after (ok a, log) f = f a log
after (err e, log) f = (err e, log)

infixl 5 ◌>>=◌ ◌>>◌
abbrev ◌>>=◌ : {A B : Type 0} → Flow A → (A → Flow B) → Flow B
◌>>=◌ m f log = after (m log) f

abbrev ◌>>◌ : {A B : Type 0} → Flow A → Flow B → Flow B
◌>>◌ m k = m >>= λ _. k

abbrev lift : {A : Type 0} → Result AgentFlowError A → Flow A
lift r log = (r, log)

-- `From<AgentTransportError>` under `?`; the error is kept in place of its message.
abbrev from_transport : {A : Type 0} → (Log → Result AgentTransportError A × Log) → Flow A
from_transport m log = let (r, log') = m log in (map_err transport r, log')

abbrev pub expected : StagedPackage → Text → AgentPackageIdentity
expected staged filename = record {
  filename = filename;
  sha256 = staged.sha256;
  size = staged.size;
}

unfoldable pub upload_and_verify :
    AgentEnv → AgentTransport → StagedPackage → Text → Flow VerifiedAgentPackage
upload_and_verify env t staged expected_version = do
  filename ← lift (staged_filename staged)
  upload ← from_transport (upload_file env t (codes "/upload-package") filename staged.path)
  lift (check_uploaded (expected staged filename) upload)
  verify ← from_transport (post_json env t (codes "/verify-package") filename)
  lift (check_verified (expected staged filename) expected_version verify)

abbrev is_approved : InstallApproval → Bool
is_approved approved = true
is_approved not_approved = false

-- `if let Some(false)`
abbrev pub is_false : Option Bool → Bool
is_false none = false
is_false (some b) = not b

unfoldable pub check_installed : AgentResponse → Result AgentFlowError (Unit {0})
check_installed response =
    Prelude.◌>>◌
      (refuse_if (not (successful_status response.status)) (install_rejected response.status))
      (refuse_if
        (is_false (response.body.get_bool (codes "accepted"))
          || is_false (response.body.get_bool (codes "success"))
          || is_false (response.body.get_bool (codes "started")))
        install_response_invalid)

unfoldable pub install_verified :
    AgentEnv → AgentTransport → VerifiedAgentPackage → InstallApproval → Flow (Unit {0})
install_verified env t verified approval = do
  lift (refuse_if (not (is_approved approval)) install_not_approved)
  response ← from_transport (post_json env t (codes "/install-package") verified.identity.filename)
  lift (check_installed response)
