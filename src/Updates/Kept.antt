-- ===== src/Updates/Kept.antt =====
-- What all requests to the handlers of server/src/handlers/updates.rs leave as it is.
use luminos.Prelude.{◌≡◌, sym, ◌∙◌, ap, subst, some, List}
use luminos.Text.{Text}
use luminos.State.Db.{Env, VerifiedRow}
use luminos.State.Newer.{Advances}
use luminos.State.Replay.{run-Advances}
use luminos.State.Identity.{run-verified}
use luminos.Updates.Server.{Server}
use luminos.Updates.Visits.{Arrival, visits}
use luminos.Updates.Refine.{visits-HasRun}

-- Whatever requests arrive and however they end, the replay row of a channel stays as it is or
-- moves to a strictly newer version that was published no earlier, and the release, file name,
-- digest and size that are stored for a verified operation stay what they are.
pub visits_keep :
    (env : Env) (arrivals : List Arrival) (s : Server) (key id : Text) (row : VerifiedRow)
    → s.db.tables.verified id ≡ some row
    → Advances env (s.db.tables.replay key) ((visits env arrivals s).db.tables.replay key)
      × ((visits env arrivals s).db.tables.verified id ≡ some row)
visits_keep env arrivals s key id row there =
    let h = visits-HasRun env arrivals s in
    (
      subst (λ d. Advances env (s.db.tables.replay key) (d.tables.replay key)) (sym h.ends)
          (run-Advances env h.requests s.db key),
      ap (λ d. d.tables.verified id) h.ends ∙ run-verified env id row h.requests s.db there,
    )
