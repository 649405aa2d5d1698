-- ===== src/Updates/Silent.antt =====
-- The disabled channel in server/src/handlers/updates.rs.
use luminos.Prelude.{◌≡◌, refl, sym, ◌∙◌, ap, subst, true, some, ok, arith, Result-cases, inl, inr}
use luminos.Text.{codes}
use luminos.State.Types.{UpdateChannel}
use luminos.State.Types
use luminos.State.Channel
use luminos.State.Db.{Env, Db, Preferences, statement}
use luminos.State.Sql.{default_preferences, select_channel}
use luminos.State.Rows.{channel_or_stable}
use luminos.State.Store.{ensure_schema, get_channel}
use luminos.Updates.Server.{Site, Server, Handler, lift, ◌>>=◌, ◌>>◌, on_store}
use luminos.Updates.Access.{Headers, admin_result, require_admin}
use luminos.Updates.Channel.{
  update_state_store, update_state_error, check_unless_disabled, check_for_updates,
}
use luminos.Updates.Target.{UpdateTarget, offered_manifest, current_manifest}
use luminos.Discovery.Types.{ValidatedManifest}
use luminos.Updates.Ends.{ok_inj}
use luminos.Updates.Download.{download_update}
use luminos.Updates.Verify.{verify_staged_update}

-- No request to the Agent, no file and no row.
pub record IsSilent (s t : Server) : Type 0 where
  pub log : t.log ≡ s.log
  pub world : t.world ≡ s.world
  pub tables : t.db.tables ≡ s.db.tables

here : (s : Server) → IsSilent s s
here s = record { log = refl; world = refl; tables = refl }

onward : (s t u : Server) → IsSilent s t → IsSilent t u → IsSilent s u
onward s t u h k = record {
  log = k.log ∙ h.log;
  world = k.world ∙ h.world;
  tables = k.tables ∙ h.tables;
}

module _ (env : Env) (p : Preferences) where
  schema_silent :
      (db : Db) → db.tables.preferences ≡ some p → (ensure_schema env db).1.tables ≡ db.tables
  unfolding ensure_schema statement default_preferences
  schema_silent db there = ground arith

  get_silent : (db : Db) → (get_channel env db).1.tables ≡ db.tables
  unfolding get_channel statement select_channel
  get_silent db = ground arith

  get_disabled :
      (db : Db) (c : UpdateChannel)
      → db.tables.preferences ≡ some p
      → p.channel ≡ codes "disabled"
      → (get_channel env db).0 ≡ ok c
      → c ≡ Types.disabled
  unfolding get_channel statement select_channel channel_or_stable Channel.as_str
  get_disabled db c there off h =
      let read : Channel.from_db p.channel ≡ ok c = ground arith in
      ok_inj c Types.disabled
        (sym read ∙ ap Channel.from_db off ∙ Channel.from_db-as_str Types.disabled)

  -- What follows on the channel is what follows on the disabled channel.
  behind_channel :
      {B : Type 0} (f : UpdateChannel → Handler B)
      → ((s : Server) → IsSilent s (f Types.disabled s).1)
      → (s : Server) → s.db.tables.preferences ≡ some p
      → p.channel ≡ codes "disabled"
      → IsSilent s
          ((update_state_store env >> (on_store (get_channel env) update_state_error >>= f)) s).1
  unfolding update_state_store on_store ◌>>=◌
  behind_channel f silent s there off =
      let t = record s { db = (ensure_schema env s.db).1 } in
      let schema : IsSilent s t = record {
        log = refl;
        world = refl;
        tables = schema_silent s.db there;
      } in
      elim (Result-cases (ensure_schema env s.db).0) [
        | inr (e, failed) ↦ rw failed schema
        | inl (_, made) ↦
            let u = record t { db = (get_channel env t.db).1 } in
            let read : IsSilent s u =
              onward s t u schema (record { log = refl; world = refl; tables = get_silent t.db }) in
            elim (Result-cases (get_channel env t.db).0) [
              | inr (e, failed) ↦ rw (made, failed) read
              | inl (c, got) ↦
                  rw
                    (
                      made,
                      got,
                      get_disabled t.db c (ap (λ tables. tables.preferences) schema.tables ∙ there)
                          off got,
                    )
                    (onward s u _ read (silent u))
            ]
      ]

  bind_assoc :
      {A B C : Type 0} (m : Handler A) (f : A → Handler B) (g : B → Handler C) (s : Server)
      → ((m >>= f) >>= g) s ≡ (m >>= λ a. f a >>= g) s
  unfolding ◌>>=◌
  bind_assoc m f g s = elim (Result-cases (m s).0) [
    | inl (a, found) ↦ rw found refl
    | inr (e, refused) ↦ rw refused refl
  ]

  refused-IsSilent :
      {B : Type 0} (site : Site) (target : UpdateTarget) (f : ValidatedManifest → Handler B)
      (s : Server)
      → IsSilent s ((offered_manifest env site target Types.disabled >>= f) s).1
  unfolding ◌>>=◌ lift
  refused-IsSilent site target f s = here s

  manifest-IsSilent :
      {B : Type 0} (site : Site) (target : UpdateTarget) (f : ValidatedManifest → Handler B)
      (s : Server)
      → s.db.tables.preferences ≡ some p
      → p.channel ≡ codes "disabled"
      → IsSilent s ((current_manifest env site target >>= f) s).1
  unfolding current_manifest
  manifest-IsSilent {B = B} site target f s there off =
      subst (λ x. IsSilent s x.1)
        (sym (
          bind_assoc (update_state_store env) _ f s
          ∙ ap (λ (k : Handler B). (update_state_store env >> k) s)
              (λ i t.
                bind_assoc (on_store (get_channel env) update_state_error)
                  (offered_manifest env site target) f t i)))
        (behind_channel (λ c. offered_manifest env site target c >>= f)
          (refused-IsSilent site target f) s there off)

  admin-IsSilent :
      {B : Type 0} (site : Site) (headers : Headers) (m : Handler B) (s : Server)
      → IsSilent s (m s).1
      → IsSilent s ((require_admin site headers >> m) s).1
  unfolding require_admin ◌>>=◌ lift
  admin-IsSilent site headers m s h = elim (Result-cases (admin_result site headers)) [
    | inl (user, passed) ↦ rw passed h
    | inr (e, refused) ↦ rw refused (here s)
  ]

  check-IsSilent :
      (site : Site) (s : Server)
      → IsSilent s (check_unless_disabled env site Types.disabled true s).1
  unfolding check_unless_disabled lift
  check-IsSilent site s = here s

  -- While the stored channel is `disabled`, a check, a download and a verification send the Agent
  -- no request, and change no file and no row, whichever statements fail.
  pub disabled-IsSilent :
      (site : Site) (headers : Headers) (target : UpdateTarget) (s : Server)
      → s.db.tables.preferences ≡ some p
      → p.channel ≡ codes "disabled"
      → IsSilent s (check_for_updates env site headers s).1
        × IsSilent s (download_update env site headers target s).1
        × IsSilent s (verify_staged_update env site headers target s).1
  unfolding check_for_updates download_update verify_staged_update
  disabled-IsSilent site headers target s there off = (
    admin-IsSilent site headers _ s (
        behind_channel (λ c. check_unless_disabled env site c (Channel.is_disabled c))
          (check-IsSilent site) s there off),
    admin-IsSilent site headers _ s (manifest-IsSilent site target _ s there off),
    admin-IsSilent site headers _ s (manifest-IsSilent site target _ s there off),
  )
