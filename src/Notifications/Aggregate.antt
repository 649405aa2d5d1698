-- ===== src/Notifications/Aggregate.antt =====
-- `build_notification_aggregate` of server/src/handlers/notifications.rs.
use luminos.Prelude.{ℕ, ◌-◌, Bool, not, ◌&&◌, List, [], ◌∷◌, if◌then◌else◌, ltb, length}
use luminos.Text.{Text, codes, text_eq, to_ascii_lowercase}
use luminos.State.Types.{ℤ}
use luminos.Notifications.Item.{NotificationItem, keyword, is_one_of}

pub record NotificationCounts : Type 0 where
  pub total : ℕ
  pub active : ℕ
  pub success : ℕ
  pub info : ℕ
  pub warning : ℕ
  pub error : ℕ
  pub critical : ℕ
  pub fresh : ℕ
  pub stale : ℕ

-- The title and the message are left out.
pub record NotificationOverall : Type 0 where
  pub status : Text
  pub level : Text
  pub code : Text

pub record NotificationAggregate : Type 0 where
  pub schema_version : ℕ
  pub producer_name : Text
  pub producer_version : Text
  pub generated_at : ℤ
  pub overall : NotificationOverall
  pub counts : NotificationCounts
  pub notifications : List NotificationItem
  pub problems : List NotificationItem
  pub information : List NotificationItem
  pub healthy : List NotificationItem

-- `iter().filter(p).cloned().collect()`
unfoldable pub filter : (NotificationItem → Bool) → List NotificationItem → List NotificationItem
filter p [] = []
filter p (item ∷ rest) = let kept = filter p rest in if p item then item ∷ kept else kept

-- `iter().filter(p).count()`
abbrev pub count : (NotificationItem → Bool) → List NotificationItem → ℕ
count p items = length (filter p items)

abbrev pub is_success : NotificationItem → Bool
is_success item =
    is_one_of (keyword item.level) (codes "success" ∷ codes "healthy" ∷ codes "ok" ∷ [])

abbrev pub is_info : NotificationItem → Bool
is_info item = is_one_of (keyword item.level) (codes "info" ∷ codes "information" ∷ [])

abbrev pub is_warning : NotificationItem → Bool
is_warning item = is_one_of (keyword item.level) (codes "warning" ∷ codes "warn" ∷ [])

abbrev pub is_error : NotificationItem → Bool
is_error item = is_one_of (keyword item.level) (codes "error" ∷ codes "danger" ∷ [])

-- `eq_ignore_ascii_case`, without `trim`.
abbrev pub is_critical : NotificationItem → Bool
is_critical item = text_eq (to_ascii_lowercase item.level) (codes "critical")

abbrev pub is_active : NotificationItem → Bool
is_active item = item.active

abbrev pub is_fresh : NotificationItem → Bool
is_fresh item = item.fresh

unfoldable pub overall_of : ℕ → ℕ → ℕ → NotificationOverall
overall_of critical error warning =
    if ltb 0 critical
    then record {
      status = codes "critical";
      level = codes "critical";
      code = codes "notification_critical";
    }
    else if ltb 0 error
    then record { status = codes "error"; level = codes "error"; code = codes "notification_error" }
    else if ltb 0 warning
    then record {
      status = codes "warning";
      level = codes "warning";
      code = codes "notification_warning";
    }
    else record {
      status = codes "healthy";
      level = codes "success";
      code = codes "notification_healthy";
    }

unfoldable pub build_notification_aggregate : List NotificationItem → ℤ → NotificationAggregate
build_notification_aggregate notifications now =
    let active = count is_active notifications in
    let warning = count is_warning notifications in
    let error = count is_error notifications in
    let critical = count is_critical notifications in
    let fresh = count is_fresh notifications in
    record {
      schema_version = 1;
      producer_name = codes "photoos-notification-runtime";
      producer_version = codes "6.0a";
      generated_at = now;
      overall = overall_of critical error warning;
      counts = record {
        total = length notifications;
        active = active;
        success = count is_success notifications;
        info = count is_info notifications;
        warning = warning;
        error = error;
        critical = critical;
        fresh = fresh;
        stale = length notifications - fresh;
      };
      notifications = notifications;
      problems = filter is_active notifications;
      information = filter (λ item. not item.active && is_info item) notifications;
      healthy = filter (λ item. not item.active) notifications;
    }
