-- ===== src/Updates/Allowed.antt =====
-- When `install_verified_update` of server/src/handlers/updates.rs sends anything.
use luminos.Prelude.{
  ◌≡◌, ◌≢◌, refl, true, false, some, ◌++◌, ok, err, Result-cases, Bool-cases, inl, inr,
}
use luminos.Text.{Text, trim}
use luminos.State.Types.{VerifiedUpdateOperationRecord}
use luminos.State.Db.{Env}
use luminos.State.Store.{claim_verified_operation_for_install}
use luminos.Updates.Server.{Response, Site, Server, lift, ◌>>=◌, respond}
use luminos.Updates.Access.{Headers, admin_result, require_admin, unauthorized, forbidden}
use luminos.Updates.Operation.{InstallVerifiedUpdateRequest, explicit_install_approval}
use luminos.Updates.Install.{install_verified_update}
use luminos.Updates.Runs.{HasRun}
use luminos.Updates.Once.{after_install, install_cases}
use luminos.Updates.Guards.{IsAdmin, IsAdmin-cases}
use luminos.Updates.Progress.{install_request}

-- The installation that stands behind a request to the Agent.
pub record IsAllowed (env : Env) (site : Site) (headers : Headers)
    (q : InstallVerifiedUpdateRequest) (s t : Server) : Type 0 where
  pub admin : IsAdmin site headers
  pub approval : q.approved ≡ true
  pub before : Server
  pub at : Text
  pub operation : VerifiedUpdateOperationRecord
  pub reached : HasRun env s before
  pub claims :
      (claim_verified_operation_for_install env (trim q.operation_id) at before.db).0
      ≡ ok (some operation)
  pub token : Text
  pub sent : t.log ≡ s.log ++ install_request token operation.package_filename

module _ (env : Env) (site : Site) (headers : Headers) (q : InstallVerifiedUpdateRequest)
    (s : Server) where
  unapproved : q.approved ≡ false → (after_install env site headers q s).log ≡ s.log
  unfolding respond install_verified_update require_admin ◌>>=◌ lift explicit_install_approval
  unapproved missing = elim (Result-cases (admin_result site headers)) [
    | inl (user, passed) ↦ rw (after_install, passed, missing) refl
    | inr (e, refused) ↦ rw (after_install, refused) refl
  ]

  refused :
      (e : Response)
      → admin_result site headers ≡ err e
      → (after_install env site headers q s).log ≡ s.log
  unfolding respond install_verified_update require_admin ◌>>=◌ lift
  refused e h = rw (after_install, h) refl

  -- An install request that sends anything comes with an administrator's token and the approval; it
  -- has claimed the operation of its id, at a database that the store's methods reach; and it has
  -- sent exactly one request, the install request for the file of that operation.
  pub install_needs :
      (after_install env site headers q s).log ≢ s.log
      → IsAllowed env site headers q s (after_install env site headers q s)
  install_needs sent = elim (IsAdmin-cases site headers) [
    | inr (inl e) ↦ absurd (sent (refused unauthorized e))
    | inr (inr e) ↦ absurd (sent (refused forbidden e))
    | inl admin ↦ elim (Bool-cases q.approved) [
      | inr missing ↦ absurd (sent (unapproved missing))
      | inl given ↦ elim (install_cases env site headers q s) [
        | inl quiet ↦ absurd (sent quiet)
        | inr k ↦ elim k.sends [
          | inl quiet ↦ absurd (sent quiet)
          | inr (token, one) ↦ record {
            admin = admin;
            approval = given;
            before = k.before;
            at = k.at;
            operation = k.operation;
            reached = k.reached;
            claims = k.claims;
            token = token;
            sent = one;
          }
        ]
      ]
    ]
  ]
