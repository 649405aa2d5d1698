-- ===== src/Notifications/Order.antt =====
-- The list of notifications that server/src/handlers/notifications.rs reads is in order.
use luminos.Prelude.{◌≡◌, refl, ◌∙◌, Bool, List, [], ◌∷◌, arith, Bool-cases, inl, inr}
use luminos.Notifications.Item.{NotificationItem}
use luminos.Notifications.Producers.{behind, insert, sort_notifications}
use luminos.Notifications.Severity.{
  Precedes, IsOrdered, occurrences, behind-Precedes, Precedes-behind,
}

abbrev AfterHead : NotificationItem → List NotificationItem → Type 0
AfterHead item [] = Unit
AfterHead item (next ∷ rest) = Precedes item next

IsOrdered-cons :
    (item : NotificationItem) (items : List NotificationItem)
    → AfterHead item items
    → IsOrdered items
    → IsOrdered (item ∷ items)
IsOrdered-cons item [] h k = tt
IsOrdered-cons item (next ∷ rest) h k = (h, k)

IsOrdered-tail :
    (item : NotificationItem) (items : List NotificationItem)
    → IsOrdered (item ∷ items)
    → AfterHead item items × IsOrdered items
IsOrdered-tail item [] h = (tt, tt)
IsOrdered-tail item (next ∷ rest) h = h

insert-AfterHead :
    (first item : NotificationItem) (items : List NotificationItem)
    → Precedes first item
    → AfterHead first items
    → AfterHead first (insert item items)
unfolding insert
insert-AfterHead first item [] h k = h
insert-AfterHead first item (next ∷ rest) h k = elim (Bool-cases (behind item next)) [
  | inl later ↦ rw later k
  | inr sooner ↦ rw sooner h
]

insert-IsOrdered :
    (item : NotificationItem) (items : List NotificationItem)
    → IsOrdered items
    → IsOrdered (insert item items)
unfolding insert
insert-IsOrdered item [] h = tt
insert-IsOrdered item (next ∷ rest) h = elim (Bool-cases (behind item next)) [
  | inr sooner ↦ rw sooner (behind-Precedes item next sooner, h)
  | inl later ↦ rw later (
      IsOrdered-cons next (insert item rest)
        (insert-AfterHead next item rest (Precedes-behind item next later)
          (IsOrdered-tail next rest h).0)
        (insert-IsOrdered item rest (IsOrdered-tail next rest h).1))
]

pub sort_notifications-IsOrdered :
    (items : List NotificationItem) → IsOrdered (sort_notifications items)
unfolding sort_notifications
sort_notifications-IsOrdered [] = tt
sort_notifications-IsOrdered (item ∷ rest) =
    insert-IsOrdered item (sort_notifications rest) (sort_notifications-IsOrdered rest)

insert-occurrences :
    (p : NotificationItem → Bool) (item : NotificationItem) (items : List NotificationItem)
    → occurrences p (insert item items) ≡ occurrences p (item ∷ items)
unfolding insert
insert-occurrences p item [] = refl
insert-occurrences p item (next ∷ rest) = elim (Bool-cases (behind item next)) [
  | inr sooner ↦ rw sooner refl
  | inl later ↦ rw later (ground (arith, insert-occurrences p item rest))
]

pub sort_notifications-occurrences :
    (p : NotificationItem → Bool) (items : List NotificationItem)
    → occurrences p (sort_notifications items) ≡ occurrences p items
unfolding sort_notifications
sort_notifications-occurrences p [] = refl
sort_notifications-occurrences p (item ∷ rest) =
    insert-occurrences p item (sort_notifications rest)
    ∙ ground (arith, sort_notifications-occurrences p rest)
