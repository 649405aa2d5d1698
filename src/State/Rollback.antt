-- ===== src/State/Rollback.antt =====
-- What `observe_manifest` accepts over time: never a version at or below one that it has accepted.
use luminos.Prelude.{
  ℕ, ◌+◌, ◌≡◌, ◌≢◌, refl, sym, Option, none, some, ok, err, arith, List, Result-cases, inl, inr,
  subst,
}
use luminos.Text.{Text, text_eq_refl}
use luminos.Version.{NumericVersion}
use luminos.State.Types.{ManifestReplayCandidate, ReplayDecision, accepted, UpdateStateError}
use luminos.State.Channel
use luminos.State.Db.{ReplayRow, Db, Env, statement}
use luminos.State.Sql.{select_replay, upsert_replay}
use luminos.State.Rows.{check_candidate, replay_check}
use luminos.State.Store.{observe_manifest, replay_row}
use luminos.State.Requests.{Request, run}
use luminos.State.Newer.{IsNewer, IsNewer-trans, Advances}
use luminos.State.Replay.{run-Advances, check_candidate-parts, replay_check-IsNewer}

-- A candidate that was checked.
record IsPassed (env : Env) (c : ManifestReplayCandidate) (old : Option ReplayRow) : Type 0 where
  version : NumericVersion
  published : ℕ
  checked : check_candidate env.parse_from_rfc3339 c ≡ ok (version, published)
  passed : replay_check env.parse_from_rfc3339 c version published old ≡ ok none

module _ (env : Env) (c : ManifestReplayCandidate) (db : Db) where
  abbrev key : Text
  key = Channel.as_str c.channel

  accepted_needs_check :
      (v : NumericVersion) (p : ℕ) (d : Option ReplayDecision)
      → check_candidate env.parse_from_rfc3339 c ≡ ok (v, p)
      → replay_check env.parse_from_rfc3339 c v p (db.tables.replay key) ≡ ok d
      → (d ≢ some accepted)
      → (observe_manifest env c db).0 ≡ ok accepted
      → d ≡ none
  unfolding observe_manifest statement select_replay
  accepted_needs_check v p (some d) h k n e = absurd (n (ground arith))
  accepted_needs_check v p none h k n e = refl

  decision-ne-accepted :
      (v : NumericVersion) (p : ℕ) (old : Option ReplayRow)
      → replay_check env.parse_from_rfc3339 c v p old ≢ ok (some accepted)
  unfolding replay_check
  decision-ne-accepted v p none h = cc
  decision-ne-accepted v p (some old) h = ground arith

  refused-ne-accepted :
      (v : NumericVersion) (p : ℕ) (e : UpdateStateError)
      → check_candidate env.parse_from_rfc3339 c ≡ ok (v, p)
      → replay_check env.parse_from_rfc3339 c v p (db.tables.replay key) ≡ err e
      → (observe_manifest env c db).0 ≢ ok accepted
  unfolding observe_manifest statement select_replay
  refused-ne-accepted v p e h k a = ground arith

  unchecked-ne-accepted :
      (e : UpdateStateError)
      → check_candidate env.parse_from_rfc3339 c ≡ err e
      → (observe_manifest env c db).0 ≢ ok accepted
  unfolding observe_manifest
  unchecked-ne-accepted e h a = ground arith

  -- Only a candidate that passes both checks is accepted.
  accepted-IsPassed :
      (observe_manifest env c db).0 ≡ ok accepted → IsPassed env c (db.tables.replay key)
  accepted-IsPassed a = elim (Result-cases (check_candidate env.parse_from_rfc3339 c)) [
    | inr (e, failed) ↦ absurd (unchecked-ne-accepted e failed a)
    | inl ((v, p), checked) ↦
        elim (Result-cases (replay_check env.parse_from_rfc3339 c v p (db.tables.replay key))) [
          | inr (e, failed) ↦ absurd (refused-ne-accepted v p e checked failed a)
          | inl (d, decided) ↦
              let none_left =
                accepted_needs_check v p d checked decided
                  (λ e. decision-ne-accepted v p (db.tables.replay key) (rw e at decided)) a in
              record {
                version = v;
                published = p;
                checked = checked;
                passed = rw none_left at decided;
              }
        ]
  ]

  -- An accepted candidate is stored.
  accepted-stored :
      (v : NumericVersion) (p : ℕ)
      → check_candidate env.parse_from_rfc3339 c ≡ ok (v, p)
      → replay_check env.parse_from_rfc3339 c v p (db.tables.replay key) ≡ ok none
      → (observe_manifest env c db).0 ≡ ok accepted
      → (observe_manifest env c db).1.tables.replay key
        ≡ some (replay_row c (env.current_timestamp (db.statements + 1)))
  unfolding observe_manifest statement select_replay upsert_replay
  accepted-stored v p h k a = ground (arith, text_eq_refl (Channel.as_str c.channel))

-- What is accepted over a row that has advanced from an earlier one is newer than that one.
IsNewer-than_first :
    (env : Env) (d : ManifestReplayCandidate) (first : ReplayRow) (old : Option ReplayRow)
    (now : Text)
    → Advances env (some first) old
    → IsPassed env d old
    → IsNewer env first (replay_row d now)
IsNewer-than_first env d first none now h q = absurd h
IsNewer-than_first env d first (some old) now h q =
    let (pv, pp, digest, enabled) =
      check_candidate-parts env.parse_from_rfc3339 d q.version q.published q.checked in
    let step = replay_check-IsNewer env d q.version q.published old now pv pp q.passed in
    elim h [
      | inl same ↦ subst (λ x. IsNewer env x (replay_row d now)) (sym same) step
      | inr up ↦ IsNewer-trans env first old (replay_row d now) up step
    ]

-- If two candidates of one channel are both accepted, whatever the store does in between, the later
-- one has a strictly newer version and was published no earlier.
pub no_rollback :
    (env : Env) (c d : ManifestReplayCandidate) (db : Db) (rs : List Request)
    → c.channel ≡ d.channel
    → (observe_manifest env c db).0 ≡ ok accepted
    → (observe_manifest env d (run env rs (observe_manifest env c db).1)).0 ≡ ok accepted
    → IsNewer env (replay_row c (env.current_timestamp (db.statements + 1))) (
        replay_row d
          (env.current_timestamp ((run env rs (observe_manifest env c db).1).statements + 1)))
no_rollback env c d db rs same a b =
    let q = accepted-IsPassed env c db a in
    let stored = accepted-stored env c db q.version q.published q.checked q.passed a in
    let moved = run-Advances env rs (observe_manifest env c db).1 (Channel.as_str c.channel) in
    IsNewer-than_first env d _
      ((run env rs (observe_manifest env c db).1).tables.replay (Channel.as_str d.channel)) _
      (rw (← same) (rw stored at moved))
      (accepted-IsPassed env d (run env rs (observe_manifest env c db).1) b)
