-- ===== src/Updates/Ends.antt =====
-- Handlers of server/src/handlers/updates.rs that come to their end without an early return.
use luminos.Prelude.{
  ◌≡◌, refl, sym, ◌∙◌, ap, Bool, true, false, Result, ok, err, refuse_if, arith, Result-cases, inl,
  inr,
}
use luminos.Text.{Text, codes, text_eq_iff}
use luminos.State.Types.{UpdateChannel}
use luminos.State.Db.{Env, Db, Store}
use luminos.State.Store.{ensure_schema, get_channel}
use luminos.Discovery.Types.{
  DiscoveryOutcome, disabled, up_to_date, incompatible, replay_rejected, update_available,
  ValidatedManifest,
}
use luminos.Discovery.Service.{Check, fetch_validated_manifest_for_versions}
use luminos.Download.Files.{Io}
use luminos.Updates.Server.{
  Response, error_response, Site, Server, Handler, continue, lift, ◌>>=◌, on_store, on_check,
  on_disk,
}
use luminos.Updates.Access.{Headers, require_admin}
use luminos.Updates.Channel.{update_state_store, update_state_error, fetch_update_agent_version}
use luminos.Updates.Target.{UpdateTarget, is_other_target, offered, current_manifest}

continue-ok :
    {A B : Type 0} (r : Result Response A) (f : A → Handler B) (s : Server) (b : B)
    → (continue r f s).0 ≡ ok b
    → (a : A) × (r ≡ ok a) × ((f a s).0 ≡ ok b) × (continue r f s ≡ f a s)
continue-ok (ok a) f s b h = (a, refl, h, refl)
continue-ok (err r) f s b h = absurd (ground arith)

pub bind-ok :
    {A B : Type 0} (m : Handler A) (f : A → Handler B) (s : Server) (b : B)
    → ((m >>= f) s).0 ≡ ok b
    → (a : A) × ((m s).0 ≡ ok a) × ((f a (m s).1).0 ≡ ok b) × ((m >>= f) s ≡ f a (m s).1)
unfolding ◌>>=◌
bind-ok m f s b h = continue-ok (m s).0 f (m s).1 b h

pub lift-ok :
    {A : Type 0} (r : Result Response A) (s : Server) (a : A) → (lift r s).0 ≡ ok a → r ≡ ok a
unfolding lift
lift-ok r s a h = h

-- The same, behind a check.
pub lift_bind-ok :
    {A B : Type 0} (r : Result Response A) (f : A → Handler B) (s : Server) (b : B)
    → ((lift r >>= f) s).0 ≡ ok b
    → (a : A) × (r ≡ ok a) × ((f a s).0 ≡ ok b) × ((lift r >>= f) s ≡ f a s)
unfolding ◌>>=◌ lift
lift_bind-ok r f s b h = continue-ok r f s b h

pub on_check-ok :
    {A : Type 0} (m : Check A) (answer : Response) (s : Server) (a : A)
    → (on_check m answer s).0 ≡ ok a
    → (m s.db).0 ≡ ok a
unfolding on_check
on_check-ok m answer s a h = elim (Result-cases (m s.db).0) [
  | inl found ↦ ground arith
  | inr found ↦ absurd (ground arith)
]

pub on_store-ok :
    {A : Type 0} (m : Store A) (answer : Response) (s : Server) (a : A)
    → (on_store m answer s).0 ≡ ok a
    → (m s.db).0 ≡ ok a
unfolding on_store
on_store-ok m answer s a h = elim (Result-cases (m s.db).0) [
  | inl found ↦ ground arith
  | inr found ↦ absurd (ground arith)
]

schema-db : (env : Env) (s : Server) → (update_state_store env s).1.db ≡ (ensure_schema env s.db).1
unfolding update_state_store on_store
schema-db env s = refl

pub on_disk-ok :
    {A : Type 0} (m : Io A) (answer : Response) (s : Server) (a : A)
    → (on_disk m answer s).0 ≡ ok a
    → (m s.world).0 ≡ ok a
unfolding on_disk
on_disk-ok m answer s a h = elim (Result-cases (m s.world).0) [
  | inl found ↦ ground arith
  | inr found ↦ absurd (ground arith)
]

-- The update that an outcome offers.
offered-ok :
    (o : DiscoveryOutcome)
    → offered o ≡ ok tt
    → (v : Text) × (id : Text) × (name : Text) × (o ≡ update_available v id name)
offered-ok (update_available v id name) h = (v, id, name, refl)
offered-ok disabled h = absurd (ground arith)
offered-ok up_to_date h = absurd (ground arith)
offered-ok incompatible h = absurd (ground arith)
offered-ok replay_rejected h = absurd (ground arith)

-- The manifest that a target is bound to is the one of an update that the stored channel offers.
pub record IsCurrent (env : Env) (site : Site) (start : Db) (target : UpdateTarget)
    (m : ValidatedManifest) : Type 0 where
  pub channel : UpdateChannel
  pub stored : (get_channel env (ensure_schema env start).1).0 ≡ ok channel
  pub agent : Text
  pub db : Db
  pub version : Text
  pub id : Text
  pub name : Text
  pub fetched :
      (fetch_validated_manifest_for_versions site.crates env channel site.running_version agent
        db).0
      ≡ ok (m, update_available version id name)
  pub same_version : target.version ≡ m.version
  pub same_release : target.release_id ≡ m.release_id
  pub same_file : target.package_filename ≡ m.package_filename

same_target :
    (target : UpdateTarget) (m : ValidatedManifest)
    → is_other_target target m ≡ false
    → (target.version ≡ m.version)
      × (target.release_id ≡ m.release_id)
      × (target.package_filename ≡ m.package_filename)
unfolding is_other_target
same_target target m h = (
  ground (arith, text_eq_iff target.version m.version),
  ground (arith, text_eq_iff target.release_id m.release_id),
  ground (arith, text_eq_iff target.package_filename m.package_filename),
)

pub ok_inj : {E A : Type 0} (a b : A) → ◌≡◌ {A = Result E A} (ok a) (ok b) → a ≡ b
ok_inj a b h = ground arith

refused-ok : {E : Type 0} (b : Bool) (e : E) (u : Unit {0}) → refuse_if b e ≡ ok u → b ≡ false
refused-ok false e u h = refl
refused-ok true e u h = absurd (ground arith)

IsCurrent-from :
    (env : Env) (site : Site) (start : Db) (target : UpdateTarget) (c : UpdateChannel)
    (agent : Text) (db : Db) (found : ValidatedManifest × DiscoveryOutcome) (m : ValidatedManifest)
    → (get_channel env (ensure_schema env start).1).0 ≡ ok c
    → (fetch_validated_manifest_for_versions site.crates env c site.running_version agent db).0
      ≡ ok found
    → offered found.1 ≡ ok tt
    → is_other_target target found.0 ≡ false
    → found.0 ≡ m
    → IsCurrent env site start target m
IsCurrent-from env site start target c agent db (n, o) m stored fetched offer same result =
    let (v, id, name, is_offer) = offered-ok o offer in
    let (version, release, file) = same_target target n same in
    record {
      channel = c;
      stored = stored;
      agent = agent;
      db = db;
      version = v;
      id = id;
      name = name;
      fetched = fetched ∙ ap (λ k. ok (k, o)) result ∙ ap (λ k. ok (m, k)) is_offer;
      same_version = version ∙ ap (λ k. k.version) result;
      same_release = release ∙ ap (λ k. k.release_id) result;
      same_file = file ∙ ap (λ k. k.package_filename) result;
    }

pub current_manifest-IsCurrent :
    (env : Env) (site : Site) (target : UpdateTarget) (s : Server) (m : ValidatedManifest)
    → (current_manifest env site target s).0 ≡ ok m
    → IsCurrent env site s.db target m
unfolding current_manifest
current_manifest-IsCurrent env site target s m h =
    let (_, e1, h1, _) = bind-ok (update_state_store env) _ s m h in
    let s1 = (update_state_store env s).1 in
    let (c, e2, h2, _) = bind-ok (on_store (get_channel env) update_state_error) _ s1 m h1 in
    let s2 = (on_store (get_channel env) update_state_error s1).1 in
    let (_, e3, h3, _) = lift_bind-ok _ _ s2 m h2 in
    let (agent, e4, h4, _) = bind-ok (fetch_update_agent_version site) _ s2 m h3 in
    let s4 = (fetch_update_agent_version site s2).1 in
    let (_, e5, h5, _) = lift_bind-ok _ _ s4 m h4 in
    let (found, e6, h6, _) =
      bind-ok
        (on_check
          (fetch_validated_manifest_for_versions site.crates env c site.running_version agent) _)
        _ s4 m h5 in
    let s5 =
      (on_check (fetch_validated_manifest_for_versions site.crates env c site.running_version agent)
        (error_response 502 (codes "signed_manifest_refresh_failed")) s4).1 in
    let (_, e7, h7, _) = lift_bind-ok (offered found.1) _ s5 m h6 in
    let (_, e8, h8, _) = lift_bind-ok _ _ s5 m h7 in
    IsCurrent-from env site s.db target c agent s4.db found m
      (ap (λ d. (get_channel env d).0) (sym (schema-db env s)) ∙ on_store-ok _ _ s1 c e2)
      (on_check-ok _ _ s4 found e6) e7 (refused-ok _ _ _ e8) (ok_inj _ _ (lift-ok _ _ _ h8))

pub admin_keeps :
    (site : Site) (headers : Headers) (s : Server) → (require_admin site headers s).1 ≡ s
unfolding require_admin lift
admin_keeps site headers s = refl
