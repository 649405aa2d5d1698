-- ===== src/Notifications/Severity.antt =====
-- The levels and the times of notifications, and how often a kind of them occurs, described without
-- the code of server/src/handlers/notifications.rs.
use luminos.Prelude.{
  ℕ, suc, ◌≤◌, ◌<◌, ◌≡◌, refl, sym, ◌⊎◌, inl, inr, Bool, true, false, Option, none, some, List, [],
  ◌∷◌, arith, if◌then◌else◌, ◌==◌, leb, ltb, Bool-cases, Option-cases,
}
use luminos.Text.{Text, codes, text_eq, text_eq_iff, trim, to_ascii_lowercase}
use luminos.State.Types.{ℤ, pos, negsuc}
use luminos.Notifications.Time.{ltb_ℤ}
use luminos.Notifications.Item.{
  NotificationItem, notification_level_rank, notification_level_active,
}
use luminos.Notifications.Producers.{generated, behind}
use luminos.Notifications.Aggregate.{is_success, is_info, is_warning, is_error}

-- The words for the levels; a word that is not here has no severity.
abbrev words : List (Text × ℕ)
words =
    (codes "ok", 1)
    ∷ (codes "healthy", 1)
    ∷ (codes "success", 1)
    ∷ (codes "information", 2)
    ∷ (codes "info", 2)
    ∷ (codes "warn", 3)
    ∷ (codes "warning", 3)
    ∷ (codes "danger", 4)
    ∷ (codes "error", 4)
    ∷ (codes "critical", 5)
    ∷ []

abbrev look_up : List (Text × ℕ) → Text → ℕ
look_up [] word = 0
look_up ((name, n) ∷ rest) word =
    let later = look_up rest word in if text_eq word name then n else later

-- The severity of a level, without spaces around it and in any case.
unfoldable pub severity : NotificationItem → ℕ
severity item = look_up words (to_ascii_lowercase (trim item.level))

abbrev pub has_severity : ℕ → NotificationItem → Bool
has_severity n item = severity item == n

-- A level that is `critical` in any case, with no spaces around it.
abbrev pub plainly_critical : NotificationItem → Bool
plainly_critical item = text_eq (to_ascii_lowercase item.level) (codes "critical")

abbrev pub AtMost : ℤ → ℤ → Type 0
AtMost (pos a) (pos b) = a ≤ b
AtMost (pos a) (negsuc b) = ⊥
AtMost (negsuc a) (pos b) = Unit
AtMost (negsuc a) (negsuc b) = b ≤ a

-- A notification without a time counts as the oldest of this era.
abbrev pub sent_at : Option ℤ → ℤ
sent_at none = pos 0
sent_at (some time) = time

-- `first` may stand in front of `second`: it is more severe, or as severe and no older.
abbrev pub Precedes : NotificationItem → NotificationItem → Type 0
Precedes first second =
    (severity second < severity first)
    ⊎ ((severity first ≡ severity second)
        × AtMost (sent_at second.generated_at) (sent_at first.generated_at))

abbrev pub IsOrdered : List NotificationItem → Type 0
IsOrdered [] = Unit
IsOrdered (item ∷ []) = Unit
IsOrdered (item ∷ next ∷ rest) = Precedes item next × IsOrdered (next ∷ rest)

-- How many of the notifications satisfy `p`.
abbrev pub occurrences : (NotificationItem → Bool) → List NotificationItem → ℕ
occurrences p [] = 0
occurrences p (item ∷ rest) = let later = occurrences p rest in if p item then suc later else later

-- What the code's tests of a level say of its severity.
pub level-severity :
    (item : NotificationItem)
    → (notification_level_rank item.level ≡ severity item)
      × (notification_level_active item.level ≡ leb 3 (severity item))
      × (is_success item ≡ has_severity 1 item)
      × (is_info item ≡ has_severity 2 item)
      × (is_warning item ≡ has_severity 3 item)
      × (is_error item ≡ has_severity 4 item)
unfolding notification_level_rank notification_level_active severity
level-severity item =
    let word = to_ascii_lowercase (trim item.level) in
    ground (
      arith,
      text_eq_iff word (codes "ok"),
      text_eq_iff word (codes "healthy"),
      text_eq_iff word (codes "success"),
      text_eq_iff word (codes "information"),
      text_eq_iff word (codes "info"),
      text_eq_iff word (codes "warn"),
      text_eq_iff word (codes "warning"),
      text_eq_iff word (codes "danger"),
      text_eq_iff word (codes "error"),
      text_eq_iff word (codes "critical"),
    )

rank-severity : (item : NotificationItem) → notification_level_rank item.level ≡ severity item
rank-severity item = (level-severity item).0

ltb_ℤ-AtMost : (a b : ℤ) → ltb_ℤ a b ≡ false → AtMost b a
ltb_ℤ-AtMost (pos a) (pos b) h = ground arith
ltb_ℤ-AtMost (pos a) (negsuc b) h = tt
ltb_ℤ-AtMost (negsuc a) (pos b) h = absurd (ground arith)
ltb_ℤ-AtMost (negsuc a) (negsuc b) h = ground arith

AtMost-ltb_ℤ : (a b : ℤ) → ltb_ℤ a b ≡ true → AtMost a b
AtMost-ltb_ℤ (pos a) (pos b) h = ground arith
AtMost-ltb_ℤ (pos a) (negsuc b) h = absurd (ground arith)
AtMost-ltb_ℤ (negsuc a) (pos b) h = tt
AtMost-ltb_ℤ (negsuc a) (negsuc b) h = ground arith

generated-sent_at : (item : NotificationItem) → generated item ≡ sent_at item.generated_at
generated-sent_at item = elim (Option-cases item.generated_at) [
  | inl missing ↦ rw missing refl
  | inr (time, found) ↦ rw found refl
]

-- What the code's comparison tells of the levels and the times.
pub behind-Precedes :
    (first second : NotificationItem) → behind first second ≡ false → Precedes first second
unfolding behind
behind-Precedes first second h = elim (Bool-cases (ltb (severity second) (severity first))) [
  | inl above ↦ inl (ground arith)
  | inr level ↦ inr (
    ground (arith, rank-severity first, rank-severity second),
    rw (sym (generated-sent_at first), sym (generated-sent_at second))
        (ltb_ℤ-AtMost (generated first) (generated second)
          (ground (arith, rank-severity first, rank-severity second))),
  )
]

pub Precedes-behind :
    (first second : NotificationItem) → behind first second ≡ true → Precedes second first
unfolding behind
Precedes-behind first second h = elim (Bool-cases (ltb (severity first) (severity second))) [
  | inl above ↦ inl (ground arith)
  | inr level ↦ inr (
    ground (arith, rank-severity first, rank-severity second),
    rw (sym (generated-sent_at first), sym (generated-sent_at second))
        (AtMost-ltb_ℤ (generated first) (generated second)
          (ground (arith, rank-severity first, rank-severity second))),
  )
]
