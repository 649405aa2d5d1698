-- ===== src/Updates/Runs.antt =====
-- The handlers of server/src/handlers/updates.rs reach the database through the methods of the
-- update state only.
use luminos.Prelude.{
  ◌≡◌, refl, sym, ◌∙◌, ap, false, List, [], ◌∷◌, ◌++◌, ok, All, arith, Result-cases, Bool-cases,
  inl, inr, ◌⊎◌,
}
use luminos.Text.{Text}
use luminos.State.Types.{failed}
use luminos.State.Db.{Env, Db}
use luminos.State.Channel
use luminos.State.Store.{observe_manifest}
use luminos.State.Requests.{Request, observe, save, outcome-db, perform, run}
use luminos.Discovery.Types.{Crates}
use luminos.Discovery.Service.{
  fetch_pair, candidate, fetch_validated_manifest_for_versions, check_channel_for_versions,
}
use luminos.Discovery.Manifest.{verify_and_parse_manifest}
use luminos.State.Types.{UpdateChannel, ManifestReplayCandidate}
use luminos.Discovery.Types.{ValidatedManifest}
use luminos.Updates.Server.{Server}
use luminos.Updates.Moves.{IsPath}

-- The handlers write no status but `failed` by `save_operation`.
abbrev pub IsTame : Request → Type 0
IsTame (save o) = o.status ≡ failed
IsTame _ = Unit

pub run-append :
    (env : Env) (rs ss : List Request) (db : Db)
    → run env (rs ++ ss) db ≡ run env ss (run env rs db)
unfolding run
run-append env [] ss db = refl
run-append env (r ∷ rs) ss db = run-append env rs ss (perform env r db).1

pub All-append : (rs ss : List Request) → All IsTame rs → All IsTame ss → All IsTame (rs ++ ss)
All-append [] ss h k = k
All-append (r ∷ rs) ss (h, hs) k = (h, All-append rs ss hs k)

-- The database of `t` is that of `s` after tame requests.
pub record HasRun (env : Env) (s t : Server) : Type 0 where
  pub requests : List Request
  pub tame : All IsTame requests
  pub ends : t.db ≡ run env requests s.db

pub HasRun-IsPath : (env : Env) → IsPath (HasRun env)
unfolding run
HasRun-IsPath env = record {
  here = λ s. record { requests = []; tame = tt; ends = refl };
  chain = λ s t u h k. record {
    requests = h.requests ++ k.requests;
    tame = All-append h.requests k.requests h.tame k.tame;
    ends =
        k.ends ∙ (ap (run env k.requests) h.ends ∙ sym (run-append env h.requests k.requests s.db));
  };
}

-- One request.
pub one-HasRun :
    (env : Env) (r : Request) (s t : Server)
    → IsTame r
    → t.db ≡ (perform env r s.db).1
    → HasRun env s t
unfolding run
one-HasRun env r s t tame same = record { requests = r ∷ []; tame = (tame, tt); ends = same }

pub none-HasRun : (env : Env) (s t : Server) → t.db ≡ s.db → HasRun env s t
unfolding run
none-HasRun env s t same = record { requests = []; tame = tt; ends = same }

pub observe-perform :
    (env : Env) (c : ManifestReplayCandidate) (db : Db)
    → (observe_manifest env c db).1 ≡ (perform env (observe c) db).1
unfolding perform
observe-perform env c db = sym (outcome-db (observe_manifest env c db))

module _ (x : Crates) (env : Env) (c : UpdateChannel) (running agent : Text) (db : Db) where
  -- The database after the fetch of a manifest.
  abbrev after_fetch : Db
  after_fetch = (fetch_validated_manifest_for_versions x env c running agent db).1

  abbrev Observed : Type 0
  Observed =
      (after_fetch ≡ db)
      ⊎ ((m : ManifestReplayCandidate) × (after_fetch ≡ (perform env (observe m) db).1))

  after_observe :
      (bytes signature : Text) (m : ValidatedManifest)
      → Channel.is_disabled c ≡ false
      → fetch_pair x env c ≡ ok (bytes, signature)
      → verify_and_parse_manifest x env.parse_from_rfc3339 c bytes signature ≡ ok m
      → after_fetch ≡ (observe_manifest env (candidate x c bytes m) db).1
  unfolding fetch_validated_manifest_for_versions
  after_observe bytes signature m on got parsed = ground arith

  pub fetch-Observed : Observed
  unfolding fetch_validated_manifest_for_versions
  fetch-Observed = elim (Bool-cases (Channel.is_disabled c)) [
    | inl off ↦ inl (ground arith)
    | inr on ↦ elim (Result-cases (fetch_pair x env c)) [
      | inr (e, stopped) ↦ inl (ground arith)
      | inl ((bytes, signature), got) ↦
          elim (Result-cases
            (verify_and_parse_manifest x env.parse_from_rfc3339 c bytes signature)) [
              | inr (e, stopped) ↦ inl (ground arith)
              | inl (m, parsed) ↦ inr (
                candidate x c bytes m,
                after_observe bytes signature m on got parsed
                    ∙ observe-perform env (candidate x c bytes m) db,
              )
            ]
    ]
  ]

  -- A check of the channel does to the database what the fetch does.
  pub check-fetch :
      ((check_channel_for_versions x env c running agent db).1 ≡ db)
      ⊎ ((check_channel_for_versions x env c running agent db).1 ≡ after_fetch)
  unfolding check_channel_for_versions
  check-fetch = elim (Bool-cases (Channel.is_disabled c)) [
    | inl off ↦ inl (ground arith)
    | inr on ↦ inr (ground arith)
  ]
