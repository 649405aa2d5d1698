-- ===== src/Updates/Once.antt =====
-- `install_verified_update` of server/src/handlers/updates.rs uses a claim once.
use luminos.Prelude.{
  map_err, ok_or, ◌≡◌, ◌≢◌, refl, sym, ◌∙◌, ◌⊎◌, inl, inr, subst, Option, none, some, List, [], ◌∷◌,
  Result, ok, err, All, arith,
}
use luminos.Text.{Text, trim}
use luminos.State.Types.{VerifiedUpdateOperationRecord, UpdateStateError}
use luminos.State.Db.{Env}
use luminos.State.Store.{claim_verified_operation_for_install}
use luminos.State.Requests.{
  Request, ensure, get_chan, set_chan, observe, save, get, save_verified, get_verified, claim,
}
use luminos.State.Claims.{Keeps, claim_single_use}
use luminos.Agent.Flow.{InstallApproval}
use luminos.Updates.Server.{Site, Server, Handler, continue, lift, ◌>>=◌, on_store, clock, respond}
use luminos.Updates.Access.{Headers, require_admin}
use luminos.Updates.Channel.{update_state_store, update_state_error}
use luminos.Updates.Operation.{InstallVerifiedUpdateRequest}
use luminos.Updates.Install.{
  unavailable, install_claimed, claim_and_install, install_verified_update,
}
use luminos.Updates.Visits.{Arrival, visits}
use luminos.Updates.Moves.{IsPath, Moves, Moves-lift, Moves-clock, Moves-then}
use luminos.Updates.Runs.{IsTame, HasRun, HasRun-IsPath}
use luminos.Updates.Refine.{claimed-HasRun, visits-HasRun, store-HasRun}
use luminos.Updates.Installs.{SameLog, SendsInstall, quiet_then_send, install_claimed-SendsInstall}

-- From `s` to `t` the operation was claimed, and nothing but its install request was sent.
pub record HasClaimed (env : Env) (id : Text) (s t : Server) : Type 0 where
  pub before : Server
  pub at : Text
  pub operation : VerifiedUpdateOperationRecord
  pub reached : HasRun env s before
  pub claims : (claim_verified_operation_for_install env id at before.db).0 ≡ ok (some operation)
  pub continued :
      HasRun env
        (record before { db = (claim_verified_operation_for_install env id at before.db).1 })
        t
  pub sends : SendsInstall operation.package_filename s t

-- Either nothing was sent, or the operation was claimed.
abbrev pub Quiet : Env → Server → Server → Type 0
Quiet env s t = HasRun env s t × SameLog s t

abbrev pub Installs : Env → Text → Server → Server → Type 0
Installs env id s t = SameLog s t ⊎ HasClaimed env id s t

module _ (env : Env) (id : Text) where
  Quiet-then-Installs : (s t u : Server) → Quiet env s t → Installs env id t u → Installs env id s u
  Quiet-then-Installs s t u (h, same) (inl k) = inl (k ∙ same)
  Quiet-then-Installs s t u (h, same) (inr k) = inr (record {
    before = k.before;
    at = k.at;
    operation = k.operation;
    reached = (HasRun-IsPath env).chain s t k.before h k.reached;
    claims = k.claims;
    continued = k.continued;
    sends = quiet_then_send k.operation.package_filename s t u same k.sends;
  })

  -- Behind the claim with the result `r`.
  claimed-Installs :
      (site : Site) (consent : InstallApproval) (at : Text) (s : Server)
      (r : Result UpdateStateError (Option VerifiedUpdateOperationRecord))
      → (claim_verified_operation_for_install env id at s.db).0 ≡ r
      → Installs env id s
          (continue
            (map_err (λ e. update_state_error) r)
            (λ found. lift (ok_or unavailable found) >>= install_claimed env site consent)
            (record s { db = (claim_verified_operation_for_install env id at s.db).1 })).1
  unfolding ◌>>=◌ lift
  claimed-Installs site consent at s (err e) same = inl refl
  claimed-Installs site consent at s (ok none) same = inl refl
  claimed-Installs site consent at s (ok (some o)) same =
      let t = record s { db = (claim_verified_operation_for_install env id at s.db).1 } in
      inr (record {
        before = s;
        at = at;
        operation = o;
        reached = (HasRun-IsPath env).here s;
        claims = same;
        continued = (claimed-HasRun env site none consent o).along t;
        sends = (install_claimed-SendsInstall env site o consent).along t;
      })

  claim-Installs :
      (site : Site) (consent : InstallApproval) (at : Text)
      → Moves (Installs env id) (claim_and_install env site consent id at)
  unfolding claim_and_install on_store ◌>>=◌
  claim-Installs site consent at = record {
    along = λ s.
        claimed-Installs site consent at s (claim_verified_operation_for_install env id at s.db).0
          refl;
  }

  Quiet-Installs : {A : Type 0} (m : Handler A) → Moves (Quiet env) m → Moves (Installs env id) m
  Quiet-Installs m h = record { along = λ s. inl (h.along s).1 }

  then-Installs :
      {A B : Type 0} (m : Handler A) (f : A → Handler B)
      → Moves (Quiet env) m
      → ((a : A) → Moves (Installs env id) (f a))
      → Moves (Installs env id) (m >>= f)
  then-Installs = Moves-then (λ s t h. inl h.1) Quiet-then-Installs

Quiet-IsPath : (env : Env) → IsPath (Quiet env)
Quiet-IsPath env = record {
  here = λ s. ((HasRun-IsPath env).here s, refl);
  chain = λ s t u h k. ((HasRun-IsPath env).chain s t u h.0 k.0, k.1 ∙ h.1);
}

admin-Quiet :
    (env : Env) (site : Site) (headers : Headers) → Moves (Quiet env) (require_admin site headers)
unfolding require_admin
admin-Quiet env site headers = Moves-lift (Quiet-IsPath env) _

schema-Quiet : (env : Env) (site : Site) → Moves (Quiet env) (update_state_store env)
schema-Quiet env site = record {
  along = λ s. ((store-HasRun env site none).along s, unfold update_state_store on_store in refl);
}

install-Installs :
    (env : Env) (site : Site) (headers : Headers) (request : InstallVerifiedUpdateRequest)
    → Moves
        (Installs env (trim request.operation_id))
        (install_verified_update env site headers request)
unfolding install_verified_update
install-Installs env site headers request =
    let id = trim request.operation_id in
    then-Installs env id (require_admin site headers) _ (admin-Quiet env site headers) λ _.
      then-Installs env id (lift _) _ (Moves-lift (Quiet-IsPath env) _) λ consent.
        then-Installs env id (lift _) _ (Moves-lift (Quiet-IsPath env) _) λ _.
          then-Installs env id (update_state_store env) _ (schema-Quiet env site) λ _.
            then-Installs env id (clock site) _ (Moves-clock (Quiet-IsPath env) site)
              λ at. claim-Installs env id site consent at

IsTame-Keeps : (id : Text) (r : Request) → IsTame r → Keeps id r
IsTame-Keeps id ensure h = tt
IsTame-Keeps id get_chan h = tt
IsTame-Keeps id (set_chan c) h = tt
IsTame-Keeps id (observe c) h = tt
IsTame-Keeps id (save o) h = ground arith
IsTame-Keeps id (get i) h = tt
IsTame-Keeps id (save_verified o) h = tt
IsTame-Keeps id (get_verified i) h = tt
IsTame-Keeps id (claim i at) h = tt

All-Keeps : (id : Text) (rs : List Request) → All IsTame rs → All (Keeps id) rs
All-Keeps id [] h = tt
All-Keeps id (r ∷ rs) (h, hs) = (IsTame-Keeps id r h, All-Keeps id rs hs)

-- The server after one call of `install_verified_update`.
abbrev pub after_install : Env → Site → Headers → InstallVerifiedUpdateRequest → Server → Server
after_install env site headers request s =
    (respond (install_verified_update env site headers request) s).1

pub install_cases :
    (env : Env) (site : Site) (headers : Headers) (request : InstallVerifiedUpdateRequest)
    (s : Server)
    → Installs env (trim request.operation_id) s (after_install env site headers request s)
unfolding respond
install_cases env site headers request s = (install-Installs env site headers request).along s

claimed_twice :
    (env : Env) (id : Text) (s t u v : Server)
    → HasClaimed env id s t
    → HasRun env t u
    → HasClaimed env id u v
    → ⊥
claimed_twice env id s t u v h between k =
    let path =
      (HasRun-IsPath env).chain _ u k.before ((HasRun-IsPath env).chain _ t u h.continued between)
        k.reached in
    claim_single_use env id h.at h.before.db h.operation path.requests k.at k.operation h.claims
      (All-Keeps id path.requests path.tame)
      (subst (λ db. (claim_verified_operation_for_install env id k.at db).0 ≡ ok (some k.operation))
        path.ends k.claims)

-- If one call of `install_verified_update` has sent anything to the Agent, then no later call for
-- the same operation id sends anything, whatever requests arrive between the two and however they
-- end.
pub install_sends_once :
    (env : Env) (site : Site) (headers : Headers) (r : InstallVerifiedUpdateRequest) (s : Server)
    (arrivals : List Arrival) (site' : Site) (headers' : Headers) (q : InstallVerifiedUpdateRequest)
    → trim r.operation_id ≡ trim q.operation_id
    → (after_install env site headers r s).log ≢ s.log
    → (after_install env site' headers' q
        (visits env arrivals (after_install env site headers r s))).log
      ≡ (visits env arrivals (after_install env site headers r s)).log
install_sends_once env site headers r s arrivals site' headers' q same sent =
    let t = after_install env site headers r s in
    let u = visits env arrivals t in
    elim (install_cases env site headers r s) [
      | inl quiet ↦ absurd (sent quiet)
      | inr first ↦ elim (install_cases env site' headers' q u) [
        | inl quiet ↦ quiet
        | inr second ↦ absurd (
            claimed_twice env (trim r.operation_id) s t u (after_install env site' headers' q u)
              first (visits-HasRun env arrivals t)
              (subst (λ id. HasClaimed env id u (after_install env site' headers' q u)) (sym same)
                second))
      ]
    ]
