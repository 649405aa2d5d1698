-- ===== src/State/Replay.antt =====
-- The replay protection of `observe_manifest`: what is stored for a channel only ever moves to a
-- newer version that was published no earlier.
use luminos.Prelude.{
  ℕ, ◌+◌, ◌≤◌, ◌≡◌, ◌≢◌, refl, ◌⊎◌, inl, inr, false, Option, none, some, subst, Bool-cases,
  Result-cases, ok, err, arith, List, [], ◌∷◌,
}
use luminos.Text.{Text, text_eq, text_eq_iff}
use luminos.Version.{NumericVersion, version_leb, version_leb-not_ltb}
use luminos.State.Types.{ManifestReplayCandidate, ReplayDecision, UpdateStateError}
use luminos.State.Channel
use luminos.State.Validate.{parse_version, parse_timestamp, validate_digest}
use luminos.State.Db.{put, ReplayRow, Tables, Db, Env, statement, transaction}
use luminos.State.Sql.{
  default_preferences, select_channel, upsert_channel, select_replay, upsert_replay,
  upsert_operation, select_operation, insert_operation, insert_verified, select_verified,
  update_claimed,
}
use luminos.State.Rows.{check_candidate, replay_check}
use luminos.State.Store.{
  ensure_schema, get_channel, set_channel, observe_manifest, replay_row, save_operation,
  get_operation, save_verified_operation, get_verified_operation,
  claim_verified_operation_for_install,
}
use luminos.State.Requests.{
  Request, ensure, get_chan, set_chan, observe, save, get, save_verified, get_verified, claim,
  outcome-db, perform, run,
}
use luminos.State.Newer.{IsNewer, Advances, Advances-refl, Advances-trans}

pub check_candidate-parts :
    (f : Text → Option ℕ) (c : ManifestReplayCandidate) (v : NumericVersion) (p : ℕ)
    → check_candidate f c ≡ ok (v, p)
    → (parse_version c.version ≡ ok v)
      × (f c.published_at ≡ some p)
      × (validate_digest c.manifest_sha256 ≡ ok tt)
      × (Channel.is_disabled c.channel ≡ false)
unfolding check_candidate parse_timestamp
check_candidate-parts f c v p h = (ground arith, ground arith, ground arith, ground arith)

replay_check-parts :
    (f : Text → Option ℕ) (c : ManifestReplayCandidate) (v : NumericVersion) (p : ℕ)
    (old : ReplayRow)
    → replay_check f c v p (some old) ≡ ok none
    → (ov : NumericVersion) × (op : ℕ) × (parse_version old.version ≡ ok ov)
      × (f old.published_at ≡ some op)
      × (version_leb v ov ≡ false)
      × (op ≤ p)
unfolding replay_check parse_timestamp
replay_check-parts f c v p old h = ground arith

-- A row that is replaced was older.
pub replay_check-IsNewer :
    (env : Env) (c : ManifestReplayCandidate) (v : NumericVersion) (p : ℕ) (old : ReplayRow)
    (now : Text)
    → parse_version c.version ≡ ok v
    → env.parse_from_rfc3339 c.published_at ≡ some p
    → replay_check env.parse_from_rfc3339 c v p (some old) ≡ ok none
    → IsNewer env old (replay_row c now)
replay_check-IsNewer env c v p old now pv pp h =
    let (ov, op, parsed, dated, above, after) =
      replay_check-parts env.parse_from_rfc3339 c v p old h in
    record {
      old_version = ov;
      new_version = v;
      old_published = op;
      new_published = p;
      old_parsed = parsed;
      new_parsed = pv;
      old_dated = dated;
      new_dated = pp;
      newer = ground (arith, version_leb-not_ltb v ov);
      later = after;
    }

-- The row that `observe_manifest` writes: CURRENT_TIMESTAMP is read by its second statement.
abbrev observed_row : Env → ManifestReplayCandidate → Db → ReplayRow
observed_row env c db = replay_row c (env.current_timestamp (db.statements + 1))

abbrev written : Env → ManifestReplayCandidate → Db → Tables
written env c db = record (db.tables) {
  replay = put (Channel.as_str c.channel) (observed_row env c db) db.tables.replay;
}

-- With the candidate checked, one call writes nothing, or writes it over a row that it has passed.
observe_manifest-checked :
    (env : Env) (c : ManifestReplayCandidate) (db : Db) (v : NumericVersion) (p : ℕ)
    (d : Option ReplayDecision)
    → check_candidate env.parse_from_rfc3339 c ≡ ok (v, p)
    → replay_check env.parse_from_rfc3339 c v p (db.tables.replay (Channel.as_str c.channel)) ≡ ok d
    → ((observe_manifest env c db).1.tables ≡ db.tables)
      ⊎ ((d ≡ none) × ((observe_manifest env c db).1.tables ≡ written env c db))
unfolding observe_manifest statement select_replay upsert_replay
observe_manifest-checked env c db v p (some d) h k = inl (ground arith)
observe_manifest-checked env c db v p none h k = ground arith

observe_manifest-unchecked :
    (env : Env) (c : ManifestReplayCandidate) (db : Db) (e : UpdateStateError)
    → check_candidate env.parse_from_rfc3339 c ≡ err e
    → (observe_manifest env c db).1.tables ≡ db.tables
unfolding observe_manifest
observe_manifest-unchecked env c db e h = ground arith

observe_manifest-refused :
    (env : Env) (c : ManifestReplayCandidate) (db : Db) (v : NumericVersion) (p : ℕ)
    (e : UpdateStateError)
    → check_candidate env.parse_from_rfc3339 c ≡ ok (v, p)
    → replay_check env.parse_from_rfc3339 c v p (db.tables.replay (Channel.as_str c.channel))
      ≡ err e
    → (observe_manifest env c db).1.tables ≡ db.tables
unfolding observe_manifest statement select_replay
observe_manifest-refused env c db v p e h k = ground arith

Advances-written :
    (env : Env) (c : ManifestReplayCandidate) (v : NumericVersion) (p : ℕ) (now : Text)
    (old : Option ReplayRow)
    → parse_version c.version ≡ ok v
    → env.parse_from_rfc3339 c.published_at ≡ some p
    → replay_check env.parse_from_rfc3339 c v p old ≡ ok none
    → Advances env old (some (replay_row c now))
Advances-written env c v p now none pv pp h = tt
Advances-written env c v p now (some old) pv pp h =
    inr (replay_check-IsNewer env c v p old now pv pp h)

-- A write under one key, at any key.
put-Advances :
    (env : Env) (table : Text → Option ReplayRow) (key k : Text) (row : ReplayRow)
    → Advances env (table key) (some row)
    → Advances env (table k) (put key row table k)
put-Advances env table key k row h = elim (Bool-cases (text_eq key k)) [
  | inl same ↦
      rw same (subst (λ x. Advances env (table x) (some row)) ((text_eq_iff key k).0 same) h)
  | inr other ↦ rw other (Advances-refl env (table k))
]

-- What one call of `observe_manifest` does to the replay table.
pub observe_manifest-replay :
    (env : Env) (c : ManifestReplayCandidate) (db : Db) (key : Text)
    → Advances env (db.tables.replay key) ((observe_manifest env c db).1.tables.replay key)
observe_manifest-replay env c db key = elim (Result-cases (check_candidate f c)) [
  | inr (e, failed) ↦ rw (observe_manifest-unchecked env c db e failed) (Advances-refl env _)
  | inl ((v, p), checked) ↦ elim (Result-cases (replay_check f c v p old)) [
    | inr (e, failed) ↦
        rw (observe_manifest-refused env c db v p e checked failed) (Advances-refl env _)
    | inl (d, passed) ↦ elim (observe_manifest-checked env c db v p d checked passed) [
      | inl same ↦ rw same (Advances-refl env _)
      | inr (new, stored) ↦
          let parts = check_candidate-parts f c v p checked in
          rw stored (
            put-Advances env db.tables.replay (Channel.as_str c.channel) key (observed_row env c db)
              (Advances-written env c v p _ old parts.0 parts.1 (rw new at passed)))
    ]
  ]
]
  where
    open env use {parse_from_rfc3339 as f}

    old : Option ReplayRow
    old = db.tables.replay (Channel.as_str c.channel)

perform-replay_other :
    (env : Env) (r : Request) (db : Db)
    → ((c : ManifestReplayCandidate) → r ≢ observe c)
    → (perform env r db).1.tables.replay ≡ db.tables.replay
unfolding perform statement transaction
perform-replay_other env ensure db n = unfold ensure_schema default_preferences in ground arith
perform-replay_other env get_chan db n = unfold get_channel select_channel in ground arith
perform-replay_other env (set_chan c) db n = unfold set_channel upsert_channel in ground arith
perform-replay_other env (observe c) db n = absurd (n c refl)
perform-replay_other env (save o) db n = unfold save_operation upsert_operation in ground arith
perform-replay_other env (get id) db n = unfold get_operation select_operation in ground arith
perform-replay_other env (save_verified o) db n =
    unfold save_verified_operation insert_operation insert_verified in ground arith
perform-replay_other env (get_verified id) db n =
    unfold get_verified_operation select_verified in ground arith
perform-replay_other env (claim id at) db n =
    unfold claim_verified_operation_for_install update_claimed select_verified in ground arith

perform-Advances :
    (env : Env) (r : Request) (db : Db) (key : Text)
    → Advances env (db.tables.replay key) ((perform env r db).1.tables.replay key)
unfolding perform
perform-Advances env (observe c) db key =
    rw (outcome-db (observe_manifest env c db)) (observe_manifest-replay env c db key)
perform-Advances env r db key = rw (perform-replay_other env r db (λ c e. cc)) (Advances-refl env _)

-- Over any run of the store, with any statements failing, the row of a channel stays as it is or
-- moves to a row with a strictly newer version that was published no earlier; no row is removed.
pub run-Advances :
    (env : Env) (rs : List Request) (db : Db) (key : Text)
    → Advances env (db.tables.replay key) ((run env rs db).tables.replay key)
unfolding run
run-Advances env [] db key = Advances-refl env (db.tables.replay key)
run-Advances env (r ∷ rs) db key =
    Advances-trans env (db.tables.replay key) ((perform env r db).1.tables.replay key) _
      (perform-Advances env r db key) (run-Advances env rs (perform env r db).1 key)
