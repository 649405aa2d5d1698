-- ===== src/Updates/Progress.antt =====
-- An operation that was verified in server/src/handlers/updates.rs can be installed.
use luminos.Prelude.{
  ℕ, ◌+◌, ◌≡◌, refl, ◌∙◌, ap, true, false, some, [], ◌∷◌, ◌++◌, ok, arith, Option-cases, inl, inr,
}
use luminos.Text.{Text, codes, trim, text_eq_refl}
use luminos.State.Types.{VerifiedUpdateOperationRecord}
use luminos.State.Db.{Env, Db, statement}
use luminos.State.Sql.{default_preferences}
use luminos.State.Store.{
  ensure_schema, save_verified_operation, claim_verified_operation_for_install,
}
use luminos.State.Identity.{save_verified-claim_later}
use luminos.Agent.Transport.{Log, post_request}
use luminos.Agent.Flow.{VerifiedAgentPackage, approved, install_verified}
use luminos.Agent.Sent.{install_verified_sends}
use luminos.Updates.Server.{Response, Site, Server, lift, ◌>>=◌, on_store, on_agent, clock}
use luminos.Updates.Access.{Headers, admin_result, require_admin, token_result}
use luminos.Updates.Channel.{update_state_store}
use luminos.Updates.Target.{UpdateTarget}
use luminos.Updates.Operation.{
  InstallVerifiedUpdateRequest, explicit_install_approval, verified_agent_package_from_operation,
}
use luminos.Updates.Verify.{transport, verify_staged_update}
use luminos.Updates.Install.{
  or_failed, install_answer, install_claimed, claim_and_install, install_verified_update,
}
use luminos.Updates.Installs.{or_failed-SameLog}
use luminos.Updates.Guards.{IsAdmin}
use luminos.Updates.Claimed.{claimed_package, package_for}
use luminos.Updates.Verified.{verify_ends, verified_record}

-- The request that installs a file.
abbrev pub install_request : Text → Text → Log
install_request token filename =
    post_request (transport token) (codes "/install-package") filename ∷ []

module _ (env : Env) (site : Site) (token : Text) (configured : token_result site ≡ ok token) where
  install_claimed_sends :
      (o : VerifiedUpdateOperationRecord) (p : VerifiedAgentPackage) (s : Server)
      → verified_agent_package_from_operation o ≡ ok p
      → (install_claimed env site approved o s).1.log
        ≡ s.log ++ install_request token p.identity.filename
  unfolding install_claimed or_failed ◌>>=◌ lift on_agent
  install_claimed_sends o p s h =
      let r = install_verified site.agent (transport token) p approved s.log in
      rw (h, configured)
        ((or_failed-SameLog env site o (install_answer o r.0)).along (record s { log = r.1 })
          ∙ (install_verified_sends site.agent (transport token) p s.log).1)

  claim_sends :
      (id at : Text) (o : VerifiedUpdateOperationRecord) (s : Server)
      → (claim_verified_operation_for_install env id at s.db).0 ≡ ok (some o)
      → (claim_and_install env site approved id at s).1.log
        ≡ s.log ++ install_request token o.package_filename
  unfolding claim_and_install on_store ◌>>=◌ lift
  claim_sends id at o s h = rw h (
      install_claimed_sends o (package_for o)
        (record s { db = (claim_verified_operation_for_install env id at s.db).1 })
        (claimed_package env id at s.db o h))

admin_passes :
    (site : Site) (headers : Headers) (h : IsAdmin site headers)
    → admin_result site headers ≡ ok h.user
unfolding admin_result
admin_passes site headers h = rw (h.decoded, h.role) (rw (text_eq_refl (codes "admin")) refl)

-- Without failures the schema step succeeds and leaves the operations as they are.
schema_keeps :
    (env : Env) (s : Server)
    → ((n : ℕ) → env.fails n ≡ false)
    → ((update_state_store env s).0 ≡ ok tt)
      × ((update_state_store env s).1.log ≡ s.log)
      × ((update_state_store env s).1.db.tables.operations ≡ s.db.tables.operations)
      × ((update_state_store env s).1.db.tables.verified ≡ s.db.tables.verified)
unfolding update_state_store on_store ensure_schema statement default_preferences
schema_keeps env s up = elim (Option-cases s.db.tables.preferences) [
  | inl missing ↦ (
    ground (arith, up s.db.statements, up (s.db.statements + 1)),
    refl,
    ground (arith, up s.db.statements, up (s.db.statements + 1)),
    ground (arith, up s.db.statements, up (s.db.statements + 1)),
  )
  | inr found ↦ (
    ground (arith, up s.db.statements, up (s.db.statements + 1)),
    refl,
    ground (arith, up s.db.statements, up (s.db.statements + 1)),
    ground (arith, up s.db.statements, up (s.db.statements + 1)),
  )
]

-- An installation that may go ahead: an administrator's request, with its approval and an id that
-- parses, at a server with the Agent's token and a clock whose times can be read.
pub record MayInstall (env : Env) (site : Site) (headers : Headers)
    (request : InstallVerifiedUpdateRequest) (token : Text) : Type 0 where
  pub admin : IsAdmin site headers
  pub approval : request.approved ≡ true
  pub parsed : site.is_uuid (trim request.operation_id) ≡ true
  pub configured : token_result site ≡ ok token
  pub time : ℕ → ℕ
  pub readable : (n : ℕ) → env.parse_from_rfc3339 (site.now n) ≡ some (time n)

module _ (env : Env) (site : Site) (headers : Headers) (q : InstallVerifiedUpdateRequest)
    (token : Text) (may : MayInstall env site headers q token) (s : Server)
    (ready : (update_state_store env s).0 ≡ ok tt) where
  abbrev opened : Server
  opened = (update_state_store env s).1

  install_reaches_claim :
      install_verified_update env site headers q s
      ≡ claim_and_install env site approved
          (trim q.operation_id)
          (site.now opened.db.statements)
          opened
  unfolding install_verified_update require_admin ◌>>=◌ lift clock explicit_install_approval
  install_reaches_claim =
      rw (admin_passes site headers may.admin, may.approval, may.parsed, ready) refl

saved_installs :
    (env : Env) (site : Site) (headers : Headers) (q : InstallVerifiedUpdateRequest) (token : Text)
    (o : VerifiedUpdateOperationRecord) (before : Db) (t : Server)
    → MayInstall env site headers q token
    → (save_verified_operation env o before).0 ≡ ok tt
    → t.db ≡ (save_verified_operation env o before).1
    → trim q.operation_id ≡ o.operation_id
    → ((n : ℕ) → env.fails n ≡ false)
    → (install_verified_update env site headers q t).1.log
      ≡ t.log ++ install_request token o.package_filename
saved_installs env site headers q token o before t may saved left same up =
    let (ready, silent, operations, verified_rows) = schema_keeps env t up in
    let u = (update_state_store env t).1 in
    let at = site.now u.db.statements in
    let claimed =
      save_verified-claim_later env o before at (may.time u.db.statements) u.db saved
        (may.readable u.db.statements) up
        (ap (λ f. f o.operation_id) (operations ∙ ap (λ d. d.tables.operations) left))
        (ap (λ f. f o.operation_id) (verified_rows ∙ ap (λ d. d.tables.verified) left)) in
    ap (λ p. p.1.log) (install_reaches_claim env site headers q token may t ready)
    ∙ claim_sends env site token may.configured (trim q.operation_id) at _ u
        (ap (λ id. (claim_verified_operation_for_install env id at u.db).0) same ∙ claimed)
    ∙ ap (λ log. log ++ install_request token o.package_filename) silent

-- After a verification that came to its end, and if no statement fails, the request to install the
-- operation that it saved, with an administrator's token and the approval, at a server with the
-- Agent's token and a readable clock, sends the Agent exactly the install request for the verified
-- file.
pub verified_installs :
    (env : Env) (site : Site) (headers : Headers) (target : UpdateTarget) (s : Server)
    (r : Response)
    → (verify_staged_update env site headers target s).0 ≡ ok r
    → (site' : Site) (headers' : Headers) (q : InstallVerifiedUpdateRequest) (token : Text)
    → MayInstall env site' headers' q token
    → trim q.operation_id ≡ site.new_uuid
    → ((n : ℕ) → env.fails n ≡ false)
    → (install_verified_update env site' headers' q
        (verify_staged_update env site headers target s).1).1.log
      ≡ (verify_staged_update env site headers target s).1.log
        ++ install_request token target.package_filename
verified_installs env site headers target s r h site' headers' q token may same up =
    let (m, offered, v) = verify_ends env site headers target s r h in
    saved_installs env site' headers' q token (verified_record site target m v.at) v.before
      (verify_staged_update env site headers target s).1 may v.saved v.left same up
