-- ===== src/Updates/Rules.antt =====
-- The calls that the handlers of server/src/handlers/updates.rs are made of, as runs of the update
-- state.
use luminos.Prelude.{◌≡◌, refl, sym, ◌∙◌, Result, inl, inr}
use luminos.Text.{Text}
use luminos.State.Types.{UpdateChannel, VerifiedUpdateOperationRecord}
use luminos.State.Db.{Env, Db, Store}
use luminos.State.Store.{
  ensure_schema, get_channel, set_channel, save_operation, save_verified_operation,
  claim_verified_operation_for_install,
}
use luminos.State.Requests.{
  Request, ensure, get_chan, set_chan, observe, save, save_verified, claim, outcome-db, perform,
}
use luminos.Discovery.Service.{fetch_validated_manifest_for_versions, check_channel_for_versions}
use luminos.Agent.Transport.{Log}
use luminos.Download.Files.{Io}
use luminos.Updates.Server.{
  Response, Site, Handler, lift, ◌>>=◌, on_store, ignore_store, on_check, on_disk, on_agent, clock,
}
use luminos.Updates.Operation.{failed_operation}
use luminos.Updates.Moves.{
  Moves, Moves-lift, Moves-clock, Moves-bind, Moves-on_store, Moves-ignore_store, Moves-on_check,
  Moves-on_disk, Moves-on_agent,
}
use luminos.Updates.Runs.{
  IsTame, HasRun, HasRun-IsPath, one-HasRun, none-HasRun, fetch-Observed, check-fetch,
}

module _ (env : Env) where
  pub call-HasRun :
      {A : Type 0} (m : Store A) (answer : Response) (r : Request)
      → IsTame r
      → ((db : Db) → (m db).1 ≡ (perform env r db).1)
      → Moves (HasRun env) (on_store m answer)
  call-HasRun m answer r tame same =
      Moves-on_store m answer
        λ s. one-HasRun env r s (record s { db = (m s.db).1 }) tame (same s.db)

  pub lift-HasRun : {A : Type 0} (r : Result Response A) → Moves (HasRun env) (lift r)
  lift-HasRun = Moves-lift (HasRun-IsPath env)

  pub clock-HasRun : (site : Site) → Moves (HasRun env) (clock site)
  clock-HasRun = Moves-clock (HasRun-IsPath env)

  pub bind-HasRun :
      {A B : Type 0} (m : Handler A) (f : A → Handler B)
      → Moves (HasRun env) m
      → ((a : A) → Moves (HasRun env) (f a))
      → Moves (HasRun env) (m >>= f)
  bind-HasRun = Moves-bind (HasRun-IsPath env)

  pub disk-HasRun :
      {A : Type 0} (m : Io A) (answer : Response) → Moves (HasRun env) (on_disk m answer)
  disk-HasRun m answer = Moves-on_disk m answer λ s. none-HasRun env s _ refl

  pub agent-HasRun : {A E : Type 0} (m : Log → Result E A × Log) → Moves (HasRun env) (on_agent m)
  agent-HasRun m = Moves-on_agent m λ s. none-HasRun env s _ refl

  pub ensure-HasRun : (r : Response) → Moves (HasRun env) (on_store (ensure_schema env) r)
  unfolding perform
  ensure-HasRun r =
      call-HasRun (ensure_schema env) r ensure tt λ db. sym (outcome-db (ensure_schema env db))

  pub get_channel-HasRun : (r : Response) → Moves (HasRun env) (on_store (get_channel env) r)
  unfolding perform
  get_channel-HasRun r =
      call-HasRun (get_channel env) r get_chan tt λ db. sym (outcome-db (get_channel env db))

  pub set_channel-HasRun :
      (c : UpdateChannel) (r : Response) → Moves (HasRun env) (on_store (set_channel env c) r)
  unfolding perform
  set_channel-HasRun c r =
      call-HasRun (set_channel env c) r (set_chan c) tt
        λ db. sym (outcome-db (set_channel env c db))

  pub save_verified-HasRun :
      (o : VerifiedUpdateOperationRecord) (r : Response)
      → Moves (HasRun env) (on_store (save_verified_operation env o) r)
  unfolding perform
  save_verified-HasRun o r =
      call-HasRun (save_verified_operation env o) r (save_verified o) tt
        λ db. sym (outcome-db (save_verified_operation env o db))

  pub claim-HasRun :
      (id at : Text) (r : Response)
      → Moves (HasRun env) (on_store (claim_verified_operation_for_install env id at) r)
  unfolding perform
  claim-HasRun id at r =
      call-HasRun (claim_verified_operation_for_install env id at) r (claim id at) tt
        λ db. sym (outcome-db (claim_verified_operation_for_install env id at db))

  pub failed-HasRun :
      (o : VerifiedUpdateOperationRecord) (at : Text)
      → Moves (HasRun env) (ignore_store (save_operation env (failed_operation o at)))
  unfolding perform
  failed-HasRun o at = Moves-ignore_store (save_operation env (failed_operation o at)) λ s.
      one-HasRun env (save (failed_operation o at)) s
        (record s { db = (save_operation env (failed_operation o at) s.db).1 }) refl
        (sym (outcome-db (save_operation env (failed_operation o at) s.db)))

  pub fetch-HasRun :
      (site : Site) (c : UpdateChannel) (running agent : Text) (r : Response)
      → Moves
          (HasRun env)
          (on_check (fetch_validated_manifest_for_versions site.crates env c running agent) r)
  fetch-HasRun site c running agent r = Moves-on_check _ r λ s.
      elim (fetch-Observed site.crates env c running agent s.db) [
        | inl same ↦ none-HasRun env s _ same
        | inr (m, observed) ↦ one-HasRun env (observe m) s _ tt observed
      ]

  pub check-HasRun :
      (site : Site) (c : UpdateChannel) (running agent : Text) (r : Response)
      → Moves (HasRun env) (on_check (check_channel_for_versions site.crates env c running agent) r)
  check-HasRun site c running agent r = Moves-on_check _ r λ s.
      elim (check-fetch site.crates env c running agent s.db) [
        | inl same ↦ none-HasRun env s _ same
        | inr fetched ↦ elim (fetch-Observed site.crates env c running agent s.db) [
          | inl same ↦ none-HasRun env s _ (fetched ∙ same)
          | inr (m, observed) ↦ one-HasRun env (observe m) s _ tt (fetched ∙ observed)
        ]
      ]

pub ruleset run_rules = (
  lift-HasRun, clock-HasRun, bind-HasRun, disk-HasRun, agent-HasRun, ensure-HasRun,
  get_channel-HasRun, set_channel-HasRun, save_verified-HasRun, claim-HasRun, failed-HasRun,
  fetch-HasRun, check-HasRun,
)
