-- ===== src/Agent/Sent.antt =====
-- Which requests the flow of server/src/update_agent_flow.rs sends.
use luminos.Prelude.{
  ℕ, ◌≡◌, ◌⊎◌, ◌++◌, refl, some, [], ◌∷◌, ok, err, arith, Result-cases, Option-cases, inl, inr,
}
use luminos.Text.{Text, codes}
use luminos.Agent.Transport.{
  AgentTransport, AgentEnv, AgentResponse, Log, post_json, upload_file, send, post_request,
  upload_request,
}
use luminos.Agent.Flow.{
  StagedPackage, VerifiedAgentPackage, not_approved, approved, install_not_approved,
  staged_filename, check_uploaded, expected, upload_and_verify, install_verified,
}
use luminos.Agent.Confirmed.{Confirms, check_uploaded-Confirms}

-- Without approval nothing is sent; with it exactly one request is sent, the install request for
-- the file that was verified, under the transport's token, whatever the Agent answers.
pub install_verified_sends :
    (env : AgentEnv) (t : AgentTransport) (v : VerifiedAgentPackage) (log : Log)
    → (install_verified env t v not_approved log ≡ (err install_not_approved, log))
      × ((install_verified env t v approved log).1
          ≡ log ++ post_request t (codes "/install-package") v.identity.filename ∷ [])
unfolding install_verified post_json send
install_verified_sends env t v log = (refl, ground arith)

module _ (env : AgentEnv) (t : AgentTransport) (s : StagedPackage) (version : Text)
    (log : Log) where
  abbrev sent : Log
  sent = (upload_and_verify env t s version log).1

  abbrev pub uploaded : Text → Log
  uploaded name = log ++ upload_request t (codes "/upload-package") name s.path ∷ []

  sends_upload :
      (name : Text) (size : ℕ)
      → staged_filename s ≡ ok name
      → env.file_size s.path ≡ some size
      → (sent ≡ uploaded name)
        ⊎ ((answer : AgentResponse) × ((upload_file env t
                (codes "/upload-package")
                name
                s.path
                log).0
              ≡ ok answer)
            × Confirms s name answer
            × (sent ≡ uploaded name ++ post_request t (codes "/verify-package") name ∷ []))
  unfolding upload_and_verify upload_file post_json send
  sends_upload name size named there =
      elim (Result-cases (upload_file env t (codes "/upload-package") name s.path log).0) [
        | inr (e, failed) ↦ inl (ground arith)
        | inl (answer, given) ↦ elim (Result-cases (check_uploaded (expected s name) answer)) [
          | inr (e, failed) ↦ inl (ground arith)
          | inl (u, passed) ↦
              inr (answer, given, check_uploaded-Confirms s name answer passed, ground arith)
        ]
      ]

  -- Whatever the Agent answers, the flow sends nothing, the upload alone, or the upload and then
  -- the verification; the verification is sent only if the answer to the upload is a success that
  -- repeats the staged file's name, digest and size.
  pub upload_and_verify_sends :
      (sent ≡ log)
      ⊎ ((name : Text) × (staged_filename s ≡ ok name)
          × ((sent ≡ uploaded name)
              ⊎ ((answer : AgentResponse) × ((upload_file env t
                      (codes "/upload-package")
                      name
                      s.path
                      log).0
                    ≡ ok answer)
                  × Confirms s name answer
                  × (sent ≡ uploaded name ++ post_request t (codes "/verify-package") name ∷ []))))
  unfolding upload_and_verify upload_file
  upload_and_verify_sends = elim (Result-cases (staged_filename s)) [
    | inr (e, failed) ↦ inl (ground arith)
    | inl (name, named) ↦ elim (Option-cases (env.file_size s.path)) [
      | inl missing ↦ inl (ground arith)
      | inr (size, there) ↦ inr (name, named, sends_upload name size named there)
    ]
  ]
