-- ===== src/Notifications/Item.antt =====
-- A notification in server/src/handlers/notifications.rs, its level, and its normal form.
use luminos.Prelude.{
  ℕ, Bool, false, not, ◌||◌, Option, none, some, List, [], ◌∷◌, ◌++◌, reverse, if◌then◌else◌, ◌==◌,
}
use luminos.Text.{Text, codes, text_eq, is_empty, trim, to_ascii_lowercase}
use luminos.State.Types.{ℤ, pos}
use luminos.State.Validate.{file_name}
use luminos.Notifications.Time.{ltb_ℤ, saturating_sub}

pub record NotificationItem : Type 0 where
  pub id : Text
  pub producer : Text
  pub producer_version : Text
  pub status : Text
  pub level : Text
  pub code : Text
  pub title : Text
  pub message : Text
  pub error : Text
  pub generated_at : Option ℤ
  pub age_seconds : Option ℤ
  pub fresh : Bool
  pub state_file : Text
  pub active : Bool

-- The keyword of a level or a status: `trim().to_ascii_lowercase()`.
abbrev pub keyword : Text → Text
keyword s = to_ascii_lowercase (trim s)

abbrev pub is_one_of : Text → List Text → Bool
is_one_of s [] = false
is_one_of s (t ∷ rest) = text_eq s t || is_one_of s rest

unfoldable pub notification_level_rank : Text → ℕ
notification_level_rank level =
    if is_one_of (keyword level) (codes "critical" ∷ [])
    then 5
    else if is_one_of (keyword level) (codes "error" ∷ codes "danger" ∷ [])
    then 4
    else if is_one_of (keyword level) (codes "warning" ∷ codes "warn" ∷ [])
    then 3
    else if is_one_of (keyword level) (codes "info" ∷ codes "information" ∷ [])
    then 2
    else if is_one_of (keyword level) (codes "success" ∷ codes "healthy" ∷ codes "ok" ∷ [])
    then 1
    else 0

unfoldable pub notification_level_active : Text → Bool
notification_level_active level =
    is_one_of (keyword level)
      (codes "warning" ∷ codes "warn" ∷ codes "error" ∷ codes "danger" ∷ codes "critical" ∷ [])

unfoldable pub status_active : Text → Bool
status_active status = is_one_of (keyword status) (
    codes "problem"
    ∷ codes "warning"
    ∷ codes "error"
    ∷ codes "critical"
    ∷ codes "degraded"
    ∷ codes "failed"
    ∷ [])

-- A reversed name without what stands before its first dot, the dot included; `none` without a dot.
abbrev past_dot : Text → Option Text
past_dot [] = none
past_dot (b ∷ s) = if b == b'.' then some s else past_dot s

-- The name up to its last dot, if something stands before that; the name itself otherwise.
abbrev stem : Text → Option Text → Text
stem name none = name
stem name (some []) = name
stem name (some (b ∷ s)) = reverse (b ∷ s)

-- `Path::new(path).file_stem()` on Unix, as text.
unfoldable pub file_stem : Text → Option Text
file_stem path = elim (file_name path) [
  | none ↦ none
  | some name ↦ some (stem name (past_dot (reverse name)))
]

-- The reversed text behind the last dot.
abbrev to_dot : Text → Text
to_dot [] = []
to_dot (b ∷ s) = if b == b'.' then [] else b ∷ to_dot s

abbrev dotted : Text → Option Text → Option Text
dotted name none = none
dotted name (some []) = none
dotted name (some (b ∷ s)) = some (reverse (to_dot (reverse name)))

-- `path.extension()` on Unix, as text.
unfoldable pub extension : Text → Option Text
extension path = elim (file_name path) [
  | none ↦ none
  | some name ↦ dotted name (past_dot (reverse name))
]

abbrev or_unknown : Option Text → Text
or_unknown none = codes "unknown"
or_unknown (some s) = s

abbrev pub or_now : Option ℤ → ℤ → ℤ
or_now none now = now
or_now (some t) now = t

-- `if field.trim().is_empty() { field = value }`
abbrev or_else : Text → Text → Text
or_else field value = if is_empty (trim field) then value else field

abbrev fresh_seconds : ℤ
fresh_seconds = pos 120

unfoldable pub normalize_notification_item : NotificationItem → Text → ℤ → NotificationItem
normalize_notification_item item state_file now =
    let level = or_else item.level (if item.active then codes "warning" else codes "info") in
    let status = or_else item.status (if item.active then codes "problem" else codes "healthy") in
    let generated_at = or_now item.generated_at now in
    let age_seconds = saturating_sub now generated_at in
    record item {
      id = or_else item.id (trim item.producer ++ codes ":" ++ trim item.code);
      producer = or_else item.producer (or_unknown (file_stem state_file));
      producer_version = or_else item.producer_version (codes "1.0");
      level = level;
      status = status;
      generated_at = some generated_at;
      age_seconds = some age_seconds;
      fresh = not (ltb_ℤ fresh_seconds age_seconds);
      state_file = state_file;
      active = item.active || notification_level_active level || status_active status;
    }
