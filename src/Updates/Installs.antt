-- ===== src/Updates/Installs.antt =====
-- What one call of `install_verified_update` of server/src/handlers/updates.rs sends.
use luminos.Prelude.{◌≡◌, refl, ◌∙◌, ap, ◌⊎◌, inl, inr, [], ◌∷◌, ◌++◌, Result, ok, err, arith}
use luminos.Text.{Text, codes}
use luminos.State.Types.{VerifiedUpdateOperationRecord}
use luminos.State.Db.{Env}
use luminos.Agent.Transport.{Log, post_request}
use luminos.Agent.Flow.{
  InstallApproval, approved, not_approved, VerifiedAgentPackage, install_verified,
}
use luminos.Agent.Sent.{install_verified_sends}
use luminos.Updates.Server.{
  Response, Site, Server, Handler, lift, ◌>>=◌, ignore_store, on_agent, clock,
}
use luminos.Updates.Access.{token_result}
use luminos.Updates.Operation.{verified_agent_package_from_operation, mark_update_operation_failed}
use luminos.Updates.Verify.{transport}
use luminos.Updates.Install.{or_failed, install_claimed, package_answer}
use luminos.Updates.Moves.{
  IsPath, Moves, Moves-lift, Moves-clock, Moves-bind, Moves-then, Moves-ignore_store,
  Moves-on_agent,
}

-- Nothing is sent.
abbrev pub SameLog : Server → Server → Type 0
SameLog s t = t.log ≡ s.log

pub SameLog-IsPath : IsPath SameLog
SameLog-IsPath = record { here = λ s. refl; chain = λ s t u h k. k ∙ h }

-- At most the install request for one file.
abbrev pub SendsInstall : Text → Server → Server → Type 0
SendsInstall filename s t =
    SameLog s t
    ⊎ ((token : Text) × (t.log
          ≡ s.log ++ post_request (transport token) (codes "/install-package") filename ∷ []))

pub quiet_then_send :
    (filename : Text) (s t u : Server)
    → SameLog s t
    → SendsInstall filename t u
    → SendsInstall filename s u
quiet_then_send filename s t u same (inl k) = inl (k ∙ same)
quiet_then_send filename s t u same (inr (token, k)) = inr (
  token,
  k
      ∙ ap
          (λ (l : Log).
            l ++ post_request (transport token) (codes "/install-package") filename ∷ [])
          same,
)

send_then_quiet :
    (filename : Text) (s t u : Server)
    → SendsInstall filename s t
    → SameLog t u
    → SendsInstall filename s u
send_then_quiet filename s t u (inl k) same = inl (same ∙ k)
send_then_quiet filename s t u (inr (token, k)) same = inr (token, same ∙ k)

module _ (env : Env) (site : Site) (o : VerifiedUpdateOperationRecord) where
  mark-SameLog : Moves SameLog (mark_update_operation_failed env site o)
  unfolding mark_update_operation_failed
  mark-SameLog =
      Moves-bind SameLog-IsPath (clock site) _ (Moves-clock SameLog-IsPath site)
        λ at. Moves-ignore_store _ λ s. refl

  pub or_failed-SameLog :
      {A : Type 0} (r : Result Response A) → Moves SameLog (or_failed env site o r)
  unfolding or_failed
  or_failed-SameLog (ok a) = Moves-lift SameLog-IsPath (ok a)
  or_failed-SameLog (err r) =
      Moves-bind SameLog-IsPath (mark_update_operation_failed env site o) _ mark-SameLog
        λ _. Moves-lift SameLog-IsPath (err r)

  -- Behind a check, the rest may use its result.
  or_failed-then :
      {A B : Type 0} (filename : Text) (r : Result Response A) (f : A → Handler B)
      → ((a : A) → r ≡ ok a → Moves (SendsInstall filename) (f a))
      → Moves (SendsInstall filename) (or_failed env site o r >>= f)
  unfolding or_failed ◌>>=◌ lift mark_update_operation_failed clock ignore_store
  or_failed-then filename (ok a) f rest = record { along = (rest a refl).along }
  or_failed-then filename (err r) f rest = record { along = λ s. inl refl }

  package_named :
      (p : VerifiedAgentPackage)
      → package_answer (verified_agent_package_from_operation o) ≡ ok p
      → p.identity.filename ≡ o.package_filename
  unfolding verified_agent_package_from_operation
  package_named p h = ground arith

  agent-SendsInstall :
      (token : Text) (consent : InstallApproval) (p : VerifiedAgentPackage)
      → p.identity.filename ≡ o.package_filename
      → Moves
          (SendsInstall o.package_filename)
          (on_agent (install_verified site.agent (transport token) p consent))
  agent-SendsInstall token not_approved p same =
      Moves-on_agent _
        λ s. inl (ap (λ r. r.1) (install_verified_sends site.agent (transport token) p s.log).0)
  agent-SendsInstall token approved p same = Moves-on_agent _ λ s. inr (
    token,
    (install_verified_sends site.agent (transport token) p s.log).1
        ∙ ap (λ name. s.log ++ post_request (transport token) (codes "/install-package") name ∷ [])
            same,
  )

  -- Behind the claim of `o` at most the install request for its file is sent.
  pub install_claimed-SendsInstall :
      (consent : InstallApproval)
      → Moves (SendsInstall o.package_filename) (install_claimed env site consent o)
  unfolding install_claimed
  install_claimed-SendsInstall consent =
      or_failed-then o.package_filename (package_answer (verified_agent_package_from_operation o)) _
        λ p named. or_failed-then o.package_filename (token_result site) _ λ token found.
          Moves-then (λ s t h. h) (send_then_quiet o.package_filename)
            (on_agent (install_verified site.agent (transport token) p consent)) _
            (agent-SendsInstall token consent p (package_named p named))
            λ result. or_failed-SameLog _
