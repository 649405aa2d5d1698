-- ===== src/Agent/Verified.antt =====
-- What a package that the flow of server/src/update_agent_flow.rs returns stands for.
use luminos.Prelude.{◌<◌, ◌≡◌, true, false, some, ok, arith, Result-cases, Option-cases, inl, inr}
use luminos.Text.{Text, codes, text_eq_iff, ends_with, contains_byte}
use luminos.State.Validate.{file_name}
use luminos.Agent.Transport.{
  AgentTransport, AgentEnv, AgentResponse, Log, post_json, upload_file, send,
}
use luminos.Agent.Flow.{
  StagedPackage, AgentPackageIdentity, VerifiedAgentPackage, valid_sha256, staged_filename,
  check_verified, check_uploaded, expected, successful_status, upload_and_verify,
}
use luminos.Agent.Confirmed.{Confirms, check_uploaded-Confirms}
use luminos.Agent.Sent.{uploaded}

-- What the parts of a staged package satisfy under the name that the flow sends.
pub record IsStaged (s : StagedPackage) (name : Text) : Type 0 where
  pub leaf : file_name s.path ≡ some name
  pub no_slash : contains_byte name b'/' ≡ false
  pub no_backslash : contains_byte name 0x5c ≡ false
  pub extension : ends_with name (codes ".popkg") ≡ true
  pub sized : 0 < s.size
  pub digest : valid_sha256 s.sha256 ≡ true

staged_filename_sound :
    (s : StagedPackage) (name : Text) → staged_filename s ≡ ok name → IsStaged s name
unfolding staged_filename
staged_filename_sound s name h = record {
  leaf = ground arith;
  no_slash = ground arith;
  no_backslash = ground arith;
  extension = ground arith;
  sized = ground arith;
  digest = ground arith;
}

verified_parts :
    (id : AgentPackageIdentity) (version : Text) (answer : AgentResponse) (v : VerifiedAgentPackage)
    → check_verified id version answer ≡ ok v
    → (v.identity ≡ id)
      × (v.version ≡ version)
      × (successful_status answer.status ≡ true)
      × (answer.body.get_bool (codes "valid") ≡ some true)
      × (answer.body.get_str (codes "filename") ≡ some id.filename)
      × (answer.body.get_str (codes "package_sha256") ≡ some id.sha256)
unfolding check_verified
verified_parts id version answer v h = elim (Option-cases (answer.body.get_str (codes "version"))) [
  | inl missing ↦ absurd (ground arith)
  | inr (w, reported) ↦ elim (Option-cases (answer.body.get_str (codes "filename"))) [
    | inl missing ↦ absurd (ground arith)
    | inr (n, named) ↦ elim (Option-cases (answer.body.get_str (codes "package_sha256"))) [
      | inl missing ↦ absurd (ground arith)
      | inr (d, hashed) ↦ (
        ground arith,
        ground (arith, text_eq_iff w version),
        ground arith,
        ground arith,
        ground (arith, text_eq_iff n id.filename),
        ground (arith, text_eq_iff d id.sha256),
      )
    ]
  ]
]

-- What stands behind a verified package.
pub record IsVerified (env : AgentEnv) (t : AgentTransport) (s : StagedPackage) (version : Text)
    (log : Log) (name : Text) (upload verify : AgentResponse) : Type 0 where
  pub staged : IsStaged s name
  pub uploaded_ : (upload_file env t (codes "/upload-package") name s.path log).0 ≡ ok upload
  pub confirmed : Confirms s name upload
  pub asked :
      (post_json env t (codes "/verify-package") name (uploaded env t s version log name)).0
      ≡ ok verify
  pub success : successful_status verify.status ≡ true
  pub valid : verify.body.get_bool (codes "valid") ≡ some true
  pub filename : verify.body.get_str (codes "filename") ≡ some name
  pub digest : verify.body.get_str (codes "package_sha256") ≡ some s.sha256

module _ (env : AgentEnv) (t : AgentTransport) (s : StagedPackage) (version : Text) (log : Log)
    (v : VerifiedAgentPackage) (h : (upload_and_verify env t s version log).0 ≡ ok v) where
  verified_upload :
      (name : Text) × (answer : AgentResponse) × (staged_filename s ≡ ok name)
      × ((upload_file env t (codes "/upload-package") name s.path log).0 ≡ ok answer)
      × (check_uploaded (expected s name) answer ≡ ok tt)
  unfolding upload_and_verify
  verified_upload = elim (Result-cases (staged_filename s)) [
    | inr (e, failed) ↦ absurd (ground arith)
    | inl (name, named) ↦
        elim (Result-cases (upload_file env t (codes "/upload-package") name s.path log).0) [
          | inr (e, failed) ↦ absurd (ground arith)
          | inl (answer, given) ↦ elim (Result-cases (check_uploaded (expected s name) answer)) [
            | inr (e, failed) ↦ absurd (ground arith)
            | inl (u, passed) ↦ (name, answer, named, given, passed)
          ]
        ]
  ]

  upload_log :
      (name : Text) (answer : AgentResponse)
      → (upload_file env t (codes "/upload-package") name s.path log).0 ≡ ok answer
      → (upload_file env t (codes "/upload-package") name s.path log).1
        ≡ uploaded env t s version log name
  unfolding upload_file send
  upload_log name answer given = ground arith

  verified_answer :
      (name : Text) (answer : AgentResponse)
      → staged_filename s ≡ ok name
      → (upload_file env t (codes "/upload-package") name s.path log).0 ≡ ok answer
      → check_uploaded (expected s name) answer ≡ ok tt
      → (verify : AgentResponse) × ((post_json env t
            (codes "/verify-package")
            name
            (uploaded env t s version log name)).0
          ≡ ok verify)
        × (check_verified (expected s name) version verify ≡ ok v)
  unfolding upload_and_verify
  verified_answer name answer named given passed =
      let logged = upload_log name answer given in
      elim (Result-cases
        (post_json env t (codes "/verify-package") name (uploaded env t s version log name)).0) [
          | inr (e, failed) ↦ absurd (ground arith)
          | inl (verify, got) ↦ (verify, got, ground arith)
        ]

  -- A package that `upload_and_verify` returns has the expected version and the staged file's name,
  -- digest and size; the file is a `.popkg` name without a separator, and the Agent has confirmed
  -- the upload of that file and then its validity, both times with its name and digest.
  pub upload_and_verify_sound :
      (name : Text) × (upload : AgentResponse) × (verify : AgentResponse) × IsVerified env t s
        version log name upload verify
      × (v.identity ≡ expected s name)
      × (v.version ≡ version)
  upload_and_verify_sound =
      let (name, answer, named, given, passed) = verified_upload in
      let (verify, got, checked) = verified_answer name answer named given passed in
      let (same, versioned, success, valid, filename, digest) =
        verified_parts (expected s name) version verify v checked in
      (
        name,
        answer,
        verify,
        record {
          staged = staged_filename_sound s name named;
          uploaded_ = given;
          confirmed = check_uploaded-Confirms s name answer passed;
          asked = got;
          success = success;
          valid = valid;
          filename = filename;
          digest = digest;
        },
        same,
        versioned,
      )
