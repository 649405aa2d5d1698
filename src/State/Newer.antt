-- ===== src/State/Newer.antt =====
-- The order on the replay rows of server/src/update_state.rs that a channel moves along.
use luminos.Prelude.{
  ℕ, ◌≤◌, ◌≡◌, refl, sym, ◌⊎◌, inl, inr, true, Option, none, some, subst, ok, arith,
}
use luminos.Version.{NumericVersion, version_ltb, version_ltb_trans}
use luminos.State.Validate.{parse_version}
use luminos.State.Db.{ReplayRow, Env}

-- A row with a strictly newer version that was published no earlier.
pub record IsNewer (env : Env) (old new : ReplayRow) : Type 0 where
  pub old_version : NumericVersion
  pub new_version : NumericVersion
  pub old_published : ℕ
  pub new_published : ℕ
  pub old_parsed : parse_version old.version ≡ ok old_version
  pub new_parsed : parse_version new.version ≡ ok new_version
  pub old_dated : env.parse_from_rfc3339 old.published_at ≡ some old_published
  pub new_dated : env.parse_from_rfc3339 new.published_at ≡ some new_published
  pub newer : version_ltb old_version new_version ≡ true
  pub later : old_published ≤ new_published

-- What may become of the row of a channel.
abbrev pub Advances : Env → Option ReplayRow → Option ReplayRow → Type 0
Advances env none new = Unit
Advances env (some old) none = ⊥
Advances env (some old) (some new) = (old ≡ new) ⊎ IsNewer env old new

pub Advances-refl : (env : Env) (o : Option ReplayRow) → Advances env o o
Advances-refl env none = tt
Advances-refl env (some r) = inl refl

pub IsNewer-trans :
    (env : Env) (a b c : ReplayRow) → IsNewer env a b → IsNewer env b c → IsNewer env a c
IsNewer-trans env a b c h k = record {
  old_version = h.old_version;
  new_version = k.new_version;
  old_published = h.old_published;
  new_published = k.new_published;
  old_parsed = h.old_parsed;
  new_parsed = k.new_parsed;
  old_dated = h.old_dated;
  new_dated = k.new_dated;
  newer = ground (arith, version_ltb_trans h.old_version h.new_version k.new_version);
  later = ground arith;
}

pub Advances-trans :
    (env : Env) (a b c : Option ReplayRow) → Advances env a b → Advances env b c → Advances env a c
Advances-trans env none b c h k = tt
Advances-trans env (some a) none c h k = absurd h
Advances-trans env (some a) (some b) none h k = absurd k
Advances-trans env (some a) (some b) (some c) (inl e) k =
    subst (λ x. Advances env (some x) (some c)) (sym e) k
Advances-trans env (some a) (some b) (some c) (inr h) (inl e) =
    inr (subst (λ x. IsNewer env a x) e h)
Advances-trans env (some a) (some b) (some c) (inr h) (inr k) = inr (IsNewer-trans env a b c h k)
