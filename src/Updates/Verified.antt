-- ===== src/Updates/Verified.antt =====
-- What `verify_staged_update` of server/src/handlers/updates.rs has done when it comes to its end.
use luminos.Prelude.{◌≡◌, refl, sym, ◌∙◌, ap, subst, Result, ok, arith, Result-cases, inl, inr}
use luminos.Text.{Text, text_eq_iff}
use luminos.State.Types.{VerifiedUpdateOperationRecord, verified}
use luminos.State.Db.{Env, Db}
use luminos.State.Store.{save_verified_operation}
use luminos.Discovery.Types.{ValidatedManifest}
use luminos.Agent.Transport.{AgentResponse, Log}
use luminos.Agent.Flow.{StagedPackage, VerifiedAgentPackage, expected, upload_and_verify}
use luminos.Agent.Verified.{IsVerified, upload_and_verify_sound}
use luminos.Updates.Server.{Response, Site, Server, lift, ◌>>=◌, on_store, on_agent, clock}
use luminos.Updates.Access.{Headers, require_admin, token_result, read_update_token}
use luminos.Updates.Target.{UpdateTarget, current_manifest}
use luminos.Updates.Staged.{staged_package_from_signed_manifest}
use luminos.Updates.Operation.{verified_operation_from_agent, verified_response}
use luminos.Updates.Verify.{
  transport, staged_again, verification_answer, record_verified, verify_manifest,
  verify_staged_update,
}
use luminos.Updates.Ends.{bind-ok, lift_bind-ok, ok_inj, current_manifest-IsCurrent, admin_keeps}
use luminos.Updates.Downloaded.{IsOffered, current-IsOffered, map_err-ok}
use luminos.Updates.Located.{IsLocated, staged_package_sound}

-- The operation of a package that the Agent has verified.
abbrev operation_of :
    Site → UpdateTarget → VerifiedAgentPackage → Text → VerifiedUpdateOperationRecord
operation_of site target p at = record {
  operation_id = site.new_uuid;
  target_version = target.version;
  release_id = target.release_id;
  package_filename = p.identity.filename;
  package_sha256 = p.identity.sha256;
  package_size = p.identity.size;
  status = verified;
  updated_at = at;
}

operation_sound :
    (site : Site) (target : UpdateTarget) (p : VerifiedAgentPackage) (at : Text)
    (o : VerifiedUpdateOperationRecord)
    → verified_operation_from_agent site.is_uuid site.new_uuid target p at ≡ ok o
    → (o ≡ operation_of site target p at)
      × (p.version ≡ target.version)
      × (p.identity.filename ≡ target.package_filename)
unfolding verified_operation_from_agent
operation_sound site target p at o h = (
  ground arith,
  ground (arith, text_eq_iff p.version target.version),
  ground (arith, text_eq_iff p.identity.filename target.package_filename),
)

record_verified-ok :
    (env : Env) (site : Site) (target : UpdateTarget) (p : VerifiedAgentPackage) (s : Server)
    (r : Response)
    → (record_verified env site target p s).0 ≡ ok r
    → (o : VerifiedUpdateOperationRecord) × (verified_operation_from_agent site.is_uuid
          site.new_uuid target p
          (site.now s.db.statements)
        ≡ ok o)
      × ((save_verified_operation env o s.db).0 ≡ ok tt)
      × ((record_verified env site target p s).1
          ≡ record s { db = (save_verified_operation env o s.db).1 })
      × (r ≡ verified_response target p site.new_uuid)
unfolding record_verified ◌>>=◌ lift on_store clock
record_verified-ok env site target p s r h =
    elim (Result-cases (
      verified_operation_from_agent site.is_uuid site.new_uuid target p
        (site.now s.db.statements))) [
          | inr (e, refused) ↦ absurd (ground arith)
          | inl (o, made) ↦ elim (Result-cases (save_verified_operation env o s.db).0) [
            | inr (e, refused) ↦ absurd (ground arith)
            | inl (u, saved) ↦ (o, made, ground arith, ground arith, ground arith)
          ]
        ]

-- The operation that a verification of the target saves.
abbrev pub verified_record :
    Site → UpdateTarget → ValidatedManifest → Text → VerifiedUpdateOperationRecord
verified_record site target m at = record {
  operation_id = site.new_uuid;
  target_version = target.version;
  release_id = target.release_id;
  package_filename = target.package_filename;
  package_sha256 = m.package_sha256;
  package_size = m.package_size;
  status = verified;
  updated_at = at;
}

-- What has happened behind a verification for the manifest `m` that leaves `t`.
pub record HasVerified (env : Env) (site : Site) (target : UpdateTarget) (m : ValidatedManifest)
    (t : Server) (r : Response) : Type 0 where
  pub staged : StagedPackage
  pub located : IsLocated site.fs site.crates.sha256_hex target m site.runtime_directory staged
  pub token : Text
  pub configured : token_result site ≡ ok token
  pub log : Log
  pub upload : AgentResponse
  pub verify : AgentResponse
  pub confirmed :
      IsVerified site.agent
        (transport token)
        staged
        m.version
        log
        target.package_filename
        upload
        verify
  pub before : Db
  pub at : Text
  pub saved : (save_verified_operation env (verified_record site target m at) before).0 ≡ ok tt
  pub left : t.db ≡ (save_verified_operation env (verified_record site target m at) before).1
  pub answer : Response.status r ≡ 200

abbrev package_of : StagedPackage → Text → Text → VerifiedAgentPackage
package_of staged name version = record { identity = expected staged name; version = version }

record_of_package :
    (site : Site) (target : UpdateTarget) (m : ValidatedManifest) (p : VerifiedAgentPackage)
    (staged : StagedPackage) (name path at : Text)
    → p.identity ≡ expected staged name
    → p.identity.filename ≡ target.package_filename
    → staged ≡ record { path = path; size = m.package_size; sha256 = m.package_sha256 }
    → operation_of site target p at ≡ verified_record site target m at
record_of_package site target m p staged name path at same named sized =
    let digest : p.identity.sha256 ≡ m.package_sha256 =
      ap (λ i. i.sha256) same ∙ ap (λ k. k.sha256) sized in
    let size : p.identity.size ≡ m.package_size = ap (λ i. i.size) same ∙ ap (λ k. k.size) sized in
    rw (named, digest, size) refl

staged_again-ok :
    (site : Site) (target : UpdateTarget) (m : ValidatedManifest) (staged : StagedPackage)
    → staged_again site target m ≡ ok staged
    → staged_package_from_signed_manifest site.fs site.crates.sha256_hex target m
        site.runtime_directory
      ≡ ok staged
unfolding staged_again
staged_again-ok site target m staged h = map_err-ok _ _ staged h

on_agent-ok :
    {A E : Type 0} (m : Log → Result E A × Log) (s : Server) (x : Result E A)
    → (on_agent m s).0 ≡ ok x
    → (m s.log).0 ≡ x
unfolding on_agent
on_agent-ok m s x h = ok_inj _ x h

token_of :
    (site : Site) (s : Server) (token : Text)
    → (read_update_token site s).0 ≡ ok token
    → token_result site ≡ ok token
unfolding read_update_token lift
token_of site s token h = h

verify_manifest-HasVerified :
    (env : Env) (site : Site) (target : UpdateTarget) (m : ValidatedManifest) (s : Server)
    (r : Response)
    → (verify_manifest env site target m s).0 ≡ ok r
    → HasVerified env site target m (verify_manifest env site target m s).1 r
unfolding verify_manifest
verify_manifest-HasVerified env site target m s r h =
    let (staged, e1, h1, s1) = lift_bind-ok _ _ s r h in
    let (token, e2, h2, s2) = bind-ok (read_update_token site) _ s r h1 in
    let s' = (read_update_token site s).1 in
    let flow = upload_and_verify site.agent (transport token) staged m.version in
    let (result, e3, h3, s3) = bind-ok (on_agent flow) _ s' r h2 in
    let s'' = (on_agent flow s').1 in
    let (p, e4, h4, s4) = lift_bind-ok (verification_answer result) _ s'' r h3 in
    let (o, made, saved, left, answer) = record_verified-ok env site target p s'' r h4 in
    let (operation, versioned, named) = operation_sound site target p _ o made in
    let verified_p = on_agent-ok flow s' result e3 ∙ map_err-ok _ result p e4 in
    let (name, upload, verify, confirmed, same, _) =
      upload_and_verify_sound site.agent (transport token) staged m.version s'.log p verified_p in
    let located =
      staged_package_sound site.fs site.crates.sha256_hex target m site.runtime_directory staged
        (staged_again-ok site target m staged e1) in
    let at = site.now s''.db.statements in
    let is_record : o ≡ verified_record site target m at =
      operation
      ∙ record_of_package site target m p staged name _ at same named located.reread.same in
    record {
      staged = staged;
      located = located;
      token = token;
      configured = token_of site s token e2;
      log = s'.log;
      upload = upload;
      verify = verify;
      confirmed =
          subst
            (λ k. IsVerified site.agent (transport token) staged m.version s'.log k upload verify)
            (ap (λ i. i.filename) (sym same) ∙ named) confirmed;
      before = s''.db;
      at = at;
      saved = ap (λ k. (save_verified_operation env k s''.db).0) (sym is_record) ∙ saved;
      left =
          ap (λ k. k.1.db) (s1 ∙ s2 ∙ s3 ∙ s4)
          ∙ ap (λ k. k.db) left
          ∙ ap (λ k. (save_verified_operation env k s''.db).1) is_record;
      answer = ap (λ k. k.status) answer;
    }

-- A verification that comes to its end: the stored channel's URLs serve a manifest and its 64-byte
-- signature, which the pinned key has made of exactly the served bytes; these bytes are the JSON of a
-- PhotoOS document of that channel with the target's version, release and file, and its version is
-- above the running one. The staged package was found and read again with the size and the digest of
-- that document; the Agent has confirmed the upload and the validity of exactly that file; and the
-- operation of a new id with the target and that size and digest was saved as `verified`, which was
-- the last statement.
pub verify_ends :
    (env : Env) (site : Site) (headers : Headers) (target : UpdateTarget) (s : Server)
    (r : Response)
    → (verify_staged_update env site headers target s).0 ≡ ok r
    → (m : ValidatedManifest) × IsOffered env site s.db target m
      × HasVerified env site target m (verify_staged_update env site headers target s).1 r
unfolding verify_staged_update
verify_ends env site headers target s r h =
    let (_, e1, h1, s1) = bind-ok (require_admin site headers) _ s r h in
    let s' = (require_admin site headers s).1 in
    let (m, e2, h2, s2) = bind-ok (current_manifest env site target) _ s' r h1 in
    let t = (current_manifest env site target s').1 in
    (
      m,
      subst (λ v. IsOffered env site v.db target m) (admin_keeps site headers s)
          (current-IsOffered env site s'.db target m
            (current_manifest-IsCurrent env site target s' m e2)),
      subst (λ p. HasVerified env site target m p.1 r) (sym (s1 ∙ s2))
          (verify_manifest-HasVerified env site target m t r h2),
    )
