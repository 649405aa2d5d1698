-- ===== src/Notifications/Session.antt =====
-- `notification_socket_task` of server/src/handlers/notifications.rs.
use luminos.Prelude.{
  Bool, true, false, Option, none, some, List, [], ◌∷◌, ◌++◌, Result, ok, err, if◌then◌else◌,
}
use luminos.Text.{Text, codes, text_eq, trim, to_ascii_lowercase}
use luminos.State.Types.{ℤ}
use luminos.Notifications.Aggregate.{NotificationAggregate}
use luminos.Notifications.Socket.{
  FirstSeen, SocketSnapshot, aggregate_content_signature, build_socket_snapshot,
}

-- The paths and messages are left out.
pub data NotificationApiError : Type 0 where
  file_not_found read_failed invalid_json : NotificationApiError

-- A message of the client.
pub data Message : Type 0 where
  text ping : Text → Message
  pong close binary : Message

-- What is sent to the client.
pub data Sent : Type 0 where
  snapshot : SocketSnapshot → Sent
  problem : (code : Text) → Sent
  pong_text : Sent
  pong_payload : Text → Sent

-- What the loop waits for: the ticker, with the aggregate that is read then and the time; or what
-- the socket receives, `none` at its end and `some none` for an error. `sends` tells whether the
-- answer to it can be sent.
pub data Event : Type 0 where
  tick : Result NotificationApiError NotificationAggregate → (now : ℤ) → (sends : Bool) → Event
  incoming : Option (Option Message) → (sends : Bool) → Event

pub record Session : Type 0 where
  pub first_seen : FirstSeen
  pub last_signature : Text
  pub sent : List Sent
  pub running : Bool

-- A message that is sent, or the end of the task.
abbrev pub send : Sent → Bool → Session → Session
send message true session = record session { sent = session.sent ++ message ∷ [] }
send message false session = record session { running = false }

abbrev stop : Session → Session
stop session = record session { running = false }

unfoldable pub send_socket_snapshot : NotificationAggregate → ℤ → Bool → Session → Session
send_socket_snapshot aggregate now sends session =
    let (message, seen) = build_socket_snapshot aggregate now session.first_seen in
    send (snapshot message) sends (record session { first_seen = seen })

unfoldable pub on_tick :
    Result NotificationApiError NotificationAggregate → ℤ → Bool → Session → Session
on_tick (err e) now sends session = send (problem (codes "snapshot_read_failed")) sends session
on_tick (ok aggregate) now sends session =
    let signature = aggregate_content_signature aggregate in
    if text_eq signature session.last_signature
    then session
    else send_socket_snapshot aggregate now sends (record session { last_signature = signature })

unfoldable pub on_message : Message → Bool → Session → Session
on_message (text s) sends session =
    if text_eq (to_ascii_lowercase (trim s)) (codes "ping")
    then send pong_text sends session
    else session
on_message (ping payload) sends session = send (pong_payload payload) sends session
on_message pong sends session = session
on_message close sends session = stop session
on_message binary sends session = session

unfoldable pub on_event : Event → Session → Session
on_event (tick aggregate now sends) session = on_tick aggregate now sends session
on_event (incoming none sends) session = stop session
on_event (incoming (some none) sends) session = stop session
on_event (incoming (some (some message)) sends) session = on_message message sends session

abbrev pub connected : Session
connected = record { first_seen = λ key. none; last_signature = []; sent = []; running = true }

-- The first snapshot, before the loop.
unfoldable pub first_snapshot :
    Result NotificationApiError NotificationAggregate → ℤ → Bool → Session
first_snapshot (err e) now sends = send (problem (codes "initial_snapshot_failed")) sends connected
first_snapshot (ok aggregate) now sends =
    send_socket_snapshot aggregate now sends
      (record connected { last_signature = aggregate_content_signature aggregate })

-- The loop: it ends with the first event after which the task does not run.
unfoldable pub events : List Event → Session → Session
events [] session = session
events (event ∷ rest) session =
    let next = on_event event session in
    let later = events rest next in if session.running then later else session
