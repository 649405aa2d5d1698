-- ===== src/Updates/Guards.antt =====
-- What the handlers of server/src/handlers/updates.rs refuse before they do anything.
use luminos.Prelude.{
  ◌≡◌, refl, ◌∙◌, ap, ◌⊎◌, inl, inr, some, Result, err, arith, Bool-cases, Option-cases,
}
use luminos.Text.{codes, text_eq, text_eq_iff}
use luminos.State.Types.{ℤ}
use luminos.State.Db.{Env}
use luminos.Updates.Server.{Response, Site, Server, Handler, lift, ◌>>=◌, respond}
use luminos.Updates.Access.{
  Headers, get_user_id, admin_result, require_admin, unauthorized, forbidden,
}
use luminos.Updates.Proxy.{
  update_status, update_releases, update_packages, update_history, upload_package, verify_package,
  install_package, rollback_release,
}
use luminos.Updates.Channel.{get_update_channel, set_update_channel, check_for_updates}
use luminos.Updates.Download.{download_update}
use luminos.Updates.Verify.{verify_staged_update}
use luminos.Updates.Install.{install_verified_update}
use luminos.Updates.Visits.{
  Visit, status, releases, packages, history, upload, verify_named, install_named, rollback,
  channel, check, choose, download, verify, install, handle, Arrival, arrive,
}

-- A refusal in front of a handler is its answer.
refused-bind :
    {A B : Type 0} (r : Result Response A) (f : A → Handler B) (e : Response) (s : Server)
    → r ≡ err e
    → (lift r >>= f) s ≡ (err e, s)
unfolding lift ◌>>=◌
refused-bind r f e s h = rw h refl

handle-refused :
    (env : Env) (site : Site) (headers : Headers) (v : Visit) (e : Response) (s : Server)
    → admin_result site headers ≡ err e
    → handle env site headers v s ≡ (err e, s)
unfolding handle require_admin update_status update_releases update_packages update_history
    upload_package verify_package install_package rollback_release get_update_channel
    set_update_channel check_for_updates download_update verify_staged_update
    install_verified_update
handle-refused env site headers status e s h = refused-bind (admin_result site headers) _ e s h
handle-refused env site headers releases e s h = refused-bind (admin_result site headers) _ e s h
handle-refused env site headers packages e s h = refused-bind (admin_result site headers) _ e s h
handle-refused env site headers history e s h = refused-bind (admin_result site headers) _ e s h
handle-refused env site headers (upload form) e s h =
    refused-bind (admin_result site headers) _ e s h
handle-refused env site headers (verify_named filename) e s h =
    refused-bind (admin_result site headers) _ e s h
handle-refused env site headers (install_named filename) e s h =
    refused-bind (admin_result site headers) _ e s h
handle-refused env site headers (rollback version) e s h =
    refused-bind (admin_result site headers) _ e s h
handle-refused env site headers channel e s h = refused-bind (admin_result site headers) _ e s h
handle-refused env site headers check e s h = refused-bind (admin_result site headers) _ e s h
handle-refused env site headers (choose name) e s h =
    refused-bind (admin_result site headers) _ e s h
handle-refused env site headers (download target) e s h =
    refused-bind (admin_result site headers) _ e s h
handle-refused env site headers (verify target) e s h =
    refused-bind (admin_result site headers) _ e s h
handle-refused env site headers (install request) e s h =
    refused-bind (admin_result site headers) _ e s h

-- An administrator's token: it decodes to a user whose role is `admin`.
pub record IsAdmin (site : Site) (headers : Headers) : Type 0 where
  pub user : ℤ
  pub decoded : get_user_id site headers ≡ some user
  pub role : site.role_of user ≡ some (codes "admin")

pub IsAdmin-cases :
    (site : Site) (headers : Headers)
    → IsAdmin site headers
      ⊎ ((admin_result site headers ≡ err unauthorized)
          ⊎ (admin_result site headers ≡ err forbidden))
unfolding admin_result
IsAdmin-cases site headers = elim (Option-cases (get_user_id site headers)) [
  | inl missing ↦ inr (inl (ground arith))
  | inr (user, decoded) ↦ elim (Option-cases (site.role_of user)) [
    | inl missing ↦ inr (inr (ground arith))
    | inr (role, found) ↦ elim (Bool-cases (text_eq role (codes "admin"))) [
      | inl same ↦ inl (record {
        user = user;
        decoded = decoded;
        role = found ∙ ap some ((text_eq_iff role (codes "admin")).0 same);
      })
      | inr differs ↦ inr (inr (ground arith))
    ]
  ]
]

-- Every handler, called without an administrator's token, answers 401 or 403 and changes nothing:
-- no database, no file, no request to the Agent.
pub only_admin :
    (env : Env) (a : Arrival) (s : Server)
    → ¬ IsAdmin a.site a.headers
    → (arrive env a s ≡ (unauthorized, s)) ⊎ (arrive env a s ≡ (forbidden, s))
unfolding arrive respond
only_admin env a s h = elim (IsAdmin-cases a.site a.headers) [
  | inl admin ↦ absurd (h admin)
  | inr (inl refused) ↦
      inl (rw (handle-refused env a.site a.headers a.visit unauthorized s refused) refl)
  | inr (inr refused) ↦
      inr (rw (handle-refused env a.site a.headers a.visit forbidden s refused) refl)
]
