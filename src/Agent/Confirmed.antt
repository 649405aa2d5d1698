-- ===== src/Agent/Confirmed.antt =====
-- The answer to an upload that server/src/update_agent_flow.rs accepts.
use luminos.Prelude.{◌≡◌, true, some, ok, arith, Result-cases, inl, inr}
use luminos.Text.{Text, codes, text_eq_iff}
use luminos.Agent.Transport.{AgentResponse}
use luminos.Agent.Flow.{
  StagedPackage, AgentPackageIdentity, parse_upload_identity, identity_eq, check_uploaded, expected,
  successful_status,
}

-- An answer that reports the upload of exactly the staged file.
pub record Confirms (s : StagedPackage) (name : Text) (answer : AgentResponse) : Type 0 where
  pub success : successful_status answer.status ≡ true
  pub filename : answer.body.get_str (codes "filename") ≡ some name
  pub digest : answer.body.get_str (codes "sha256") ≡ some s.sha256
  pub size : answer.body.get_u64 (codes "size_bytes") ≡ some s.size

identity_eq_sound : (a b : AgentPackageIdentity) → identity_eq a b ≡ true → a ≡ b
unfolding identity_eq
identity_eq_sound a b h =
    ground (arith, text_eq_iff a.filename b.filename, text_eq_iff a.sha256 b.sha256)

parsed_identity :
    (s : StagedPackage) (name : Text) (answer : AgentResponse) (id : AgentPackageIdentity)
    → parse_upload_identity answer.body ≡ ok id
    → id ≡ expected s name
    → (answer.body.get_str (codes "filename") ≡ some name)
      × (answer.body.get_str (codes "sha256") ≡ some s.sha256)
      × (answer.body.get_u64 (codes "size_bytes") ≡ some s.size)
unfolding parse_upload_identity
parsed_identity s name answer id h e = (ground arith, ground arith, ground arith)

pub check_uploaded-Confirms :
    (s : StagedPackage) (name : Text) (answer : AgentResponse)
    → check_uploaded (expected s name) answer ≡ ok tt
    → Confirms s name answer
unfolding check_uploaded
check_uploaded-Confirms s name answer h = elim (Result-cases (parse_upload_identity answer.body)) [
  | inr (e, failed) ↦ absurd (ground arith)
  | inl (id, read) ↦
      let same = identity_eq_sound id (expected s name) (ground arith) in
      let (named, hashed, sized) = parsed_identity s name answer id read same in
      record { success = ground arith; filename = named; digest = hashed; size = sized }
]
