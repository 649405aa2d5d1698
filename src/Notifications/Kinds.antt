-- ===== src/Notifications/Kinds.antt =====
-- The counts and the filters of server/src/handlers/notifications.rs count what Severity describes.
use luminos.Prelude.{
  ◌+◌, ◌≤◌, ◌≡◌, refl, ap, fun_ext, Bool, true, not, ◌&&◌, List, [], ◌∷◌, ◌++◌, arith, length,
  Bool-cases, inl, inr,
}
use luminos.Notifications.Item.{NotificationItem}
use luminos.Notifications.Aggregate.{filter, count}
use luminos.Notifications.Severity.{has_severity, occurrences}

pub occurrences-ext :
    (p q : NotificationItem → Bool) (items : List NotificationItem)
    → ((item : NotificationItem) → p item ≡ q item)
    → occurrences p items ≡ occurrences q items
occurrences-ext p q items h = ap (λ r. occurrences r items) (fun_ext h)

pub count-occurrences :
    (p : NotificationItem → Bool) (items : List NotificationItem)
    → count p items ≡ occurrences p items
unfolding filter
count-occurrences p [] = refl
count-occurrences p (item ∷ rest) = ground (arith, count-occurrences p rest)

pub filter-occurrences :
    (p q : NotificationItem → Bool) (items : List NotificationItem)
    → occurrences p (filter q items) ≡ occurrences (λ item. q item && p item) items
unfolding filter
filter-occurrences p q [] = refl
filter-occurrences p q (item ∷ rest) = elim (Bool-cases (q item)) [
  | inl kept ↦ rw kept (ground (arith, filter-occurrences p q rest))
  | inr dropped ↦ rw dropped (filter-occurrences p q rest)
]

pub occurrences-all :
    (items : List NotificationItem) → occurrences (λ item. true) items ≡ length items
occurrences-all [] = refl
occurrences-all (item ∷ rest) = ground (arith, occurrences-all rest)

pub occurrences-append :
    (p : NotificationItem → Bool) (items more : List NotificationItem)
    → occurrences p (items ++ more) ≡ occurrences p items + occurrences p more
occurrences-append p [] more = ground arith
occurrences-append p (item ∷ rest) more = ground (arith, occurrences-append p rest more)

pub severity-apart :
    (items : List NotificationItem)
    → occurrences (has_severity 1) items
        + occurrences (has_severity 2) items
        + occurrences (has_severity 3) items
        + occurrences (has_severity 4) items
      ≤ length items
severity-apart [] = ground arith
severity-apart (item ∷ rest) = ground (arith, severity-apart rest)

pub occurrences_split :
    (p : NotificationItem → Bool) (items : List NotificationItem)
    → occurrences p items + occurrences (λ item. not (p item)) items ≡ length items
occurrences_split p [] = refl
occurrences_split p (item ∷ rest) = elim (Bool-cases (p item)) [
  | inl kept ↦ rw kept (ground (arith, occurrences_split p rest))
  | inr dropped ↦ rw dropped (ground (arith, occurrences_split p rest))
]
