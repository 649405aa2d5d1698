-- ===== src/Notifications/Totals.antt =====
-- The counts and the parts of the aggregate of server/src/handlers/notifications.rs.
use luminos.Prelude.{◌+◌, ◌<◌, ◌≡◌, ◌⊎◌, Bool, not, ◌&&◌, List, length, leb}
use luminos.Text.{Text, codes}
use luminos.Notifications.Item.{NotificationItem}
use luminos.Notifications.Aggregate.{NotificationCounts, NotificationAggregate}
use luminos.Notifications.Severity.{
  plainly_critical, severity, has_severity, IsOrdered, occurrences,
}

-- At least as severe as a warning, and not active.
abbrev pub overlooked : NotificationItem → Bool
overlooked item = leb 3 (severity item) && not item.active

-- The level of the whole is that of the gravest notifications that were counted.
abbrev pub IsGravest : NotificationCounts → Text → Type 0
IsGravest counts level =
    ((0 < counts.critical) × (level ≡ codes "critical"))
    ⊎ ((counts.critical ≡ 0) × (0 < counts.error) × (level ≡ codes "error"))
    ⊎ ((counts.critical ≡ 0)
        × (counts.error ≡ 0)
        × (0 < counts.warning)
        × (level ≡ codes "warning"))
    ⊎ ((counts.critical ≡ 0)
        × (counts.error ≡ 0)
        × (counts.warning ≡ 0)
        × (level ≡ codes "success"))

abbrev pub SameNotifications : List NotificationItem → List NotificationItem → Type 0
SameNotifications items more =
    (p : NotificationItem → Bool) → occurrences p items ≡ occurrences p more

-- `items` holds those of `all` that satisfy `q`, each as often.
abbrev pub IsPart :
    (NotificationItem → Bool) → List NotificationItem → List NotificationItem → Type 0
IsPart q items all =
    (p : NotificationItem → Bool) → occurrences p items ≡ occurrences (λ item. q item && p item) all

-- What the aggregate `a` says of the notifications `items` that were collected.
pub record IsConsistent (items : List NotificationItem) (a : NotificationAggregate) : Type 0 where
  pub ordered : IsOrdered a.notifications
  pub same : SameNotifications a.notifications items
  pub total : a.counts.total ≡ length items
  pub active : a.counts.active ≡ occurrences (λ item. item.active) items
  pub success : a.counts.success ≡ occurrences (has_severity 1) items
  pub info : a.counts.info ≡ occurrences (has_severity 2) items
  pub warning : a.counts.warning ≡ occurrences (has_severity 3) items
  pub error : a.counts.error ≡ occurrences (has_severity 4) items
  pub critical : a.counts.critical ≡ occurrences plainly_critical items
  pub fresh : a.counts.fresh ≡ occurrences (λ item. item.fresh) items
  pub ages : a.counts.fresh + a.counts.stale ≡ a.counts.total
  pub problems : IsPart (λ item. item.active) a.problems items
  pub healthy : IsPart (λ item. not item.active) a.healthy items
  pub information : IsPart (λ item. not item.active && has_severity 2 item) a.information items
  pub overall : IsGravest a.counts a.overall.level
  pub seen : occurrences overlooked a.notifications ≡ 0
