-- ===== src/Notifications/Socket.antt =====
-- What the WebSocket of server/src/handlers/notifications.rs sends of an aggregate.
use luminos.Prelude.{
  ℕ, ◌+◌, Bool, true, false, not, Option, none, some, List, [], ◌∷◌, ◌++◌, map, if◌then◌else◌, ltb,
  ◌==◌,
}
use luminos.Text.{Text, codes, text_eq, is_empty, trim, to_ascii_lowercase}
use luminos.State.Types.{ℤ}
use luminos.Notifications.Item.{NotificationItem, is_one_of}
use luminos.Notifications.Aggregate.{NotificationCounts, NotificationOverall, NotificationAggregate}

unfoldable pub websocket_severity : Text → Text
websocket_severity level =
    let name = to_ascii_lowercase level in
    if text_eq name (codes "critical")
    then codes "critical"
    else if text_eq name (codes "error")
    then codes "error"
    else if text_eq name (codes "warning")
    then codes "warning"
    else if is_one_of name (codes "success" ∷ codes "healthy" ∷ [])
    then codes "success"
    else codes "info"

abbrev colon : Text → Text → Text
colon a b = a ++ codes ":" ++ b

unfoldable pub notification_identity : NotificationItem → Text
notification_identity item =
    if not (is_empty (trim item.id))
    then colon item.producer item.id
    else if not (is_empty (trim item.code))
    then colon item.producer item.code
    else colon item.producer (colon item.title item.message)

abbrev bar : Text → Text → Text
bar a b = a ++ codes "|" ++ b

abbrev bool_text : Bool → Text
bool_text true = codes "true"
bool_text false = codes "false"

unfoldable pub notification_content_signature : NotificationItem → Text
notification_content_signature item = bar item.status (
    bar item.level
      (bar item.code (bar item.title (bar item.message (bar item.error (bool_text item.active))))))

-- The order of `str`: by bytes.
abbrev text_ltb : Text → Text → Bool
text_ltb a [] = false
text_ltb [] (c ∷ t) = true
text_ltb (b ∷ s) (c ∷ t) = let later = text_ltb s t in if b == c then later else ltb b c

abbrev insert_text : Text → List Text → List Text
insert_text s [] = s ∷ []
insert_text s (t ∷ rest) =
    let later = insert_text s rest in if text_ltb t s then t ∷ later else s ∷ t ∷ rest

abbrev sort_texts : List Text → List Text
sort_texts [] = []
sort_texts (s ∷ rest) = insert_text s (sort_texts rest)

-- `entries.join("||")`
abbrev join_bars : List Text → Text
join_bars [] = []
join_bars (s ∷ []) = s
join_bars (s ∷ t ∷ rest) = s ++ codes "||" ++ join_bars (t ∷ rest)

unfoldable pub aggregate_content_signature : NotificationAggregate → Text
aggregate_content_signature aggregate =
    let entries = sort_texts (
      map (λ item. bar (notification_identity item) (notification_content_signature item))
        aggregate.notifications) in
    bar aggregate.overall.status
      (bar aggregate.overall.level (bar aggregate.overall.code (join_bars entries)))

-- The content of a notification and the time at which it was first seen, by its identity.
abbrev pub FirstSeen : Type 0
FirstSeen = Text → Option (Text × ℤ)

-- `updated_at` is `created_at`.
pub record SocketNotification : Type 0 where
  pub source : Text
  pub source_id : ℕ
  pub notification_type : Text
  pub severity : Text
  pub title : Text
  pub message : Text
  pub details : Text
  pub created_at : ℤ
  pub is_read : Bool
  pub active : Bool
  pub status : Text
  pub code : Text
  pub producer_version : Text
  pub fresh : Bool

pub record SocketSnapshot : Type 0 where
  pub generated_at : ℤ
  pub counts : NotificationCounts
  pub overall : NotificationOverall
  pub notifications : List SocketNotification

abbrev insert_seen : Text → Text × ℤ → FirstSeen → FirstSeen
insert_seen key value seen k = if text_eq k key then some value else seen k

abbrev pub known : Option (Text × ℤ) → Text → Option ℤ
known none signature = none
known (some (old, time)) signature = if text_eq old signature then some time else none

abbrev pub stamped : Text → Text → ℤ → FirstSeen → Option ℤ → ℤ × FirstSeen
stamped key signature now seen (some time) = (time, seen)
stamped key signature now seen none = (now, insert_seen key (signature, now) seen)

-- The time at which a notification was first seen with its content.
unfoldable pub stamp : NotificationItem → ℤ → FirstSeen → ℤ × FirstSeen
stamp item now seen =
    let key = notification_identity item in
    let signature = notification_content_signature item in
    stamped key signature now seen (known (seen key) signature)

abbrev socket_notification : NotificationItem → ℕ → ℤ → SocketNotification
socket_notification item index created_at = record {
  source = item.producer;
  source_id = index + 1;
  notification_type = if is_empty item.code then item.status else item.code;
  severity = websocket_severity item.level;
  title = item.title;
  message = item.message;
  details = item.error;
  created_at = created_at;
  is_read = not item.active;
  active = item.active;
  status = item.status;
  code = item.code;
  producer_version = item.producer_version;
  fresh = item.fresh;
}

unfoldable pub stamp_all :
    ℤ → ℕ → List NotificationItem → FirstSeen → List SocketNotification × FirstSeen
stamp_all now index [] seen = ([], seen)
stamp_all now index (item ∷ rest) seen =
    let (created_at, seen') = stamp item now seen in
    let (later, seen'') = stamp_all now (index + 1) rest seen' in
    (socket_notification item index created_at ∷ later, seen'')

-- `first_seen.retain(…)`
abbrev pub retain : List Text → FirstSeen → FirstSeen
retain keys seen k = if is_one_of k keys then seen k else none

unfoldable pub build_socket_snapshot :
    NotificationAggregate → ℤ → FirstSeen → SocketSnapshot × FirstSeen
build_socket_snapshot aggregate now seen =
    let kept = retain (map notification_identity aggregate.notifications) seen in
    let (notifications, seen') = stamp_all now 0 aggregate.notifications kept in
    (
      record {
        generated_at = aggregate.generated_at;
        counts = aggregate.counts;
        overall = aggregate.overall;
        notifications = notifications;
      },
      seen',
    )
