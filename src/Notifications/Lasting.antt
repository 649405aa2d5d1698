-- ===== src/Notifications/Lasting.antt =====
-- The times that the WebSocket of server/src/handlers/notifications.rs shows.
use luminos.Prelude.{
  ℕ, ◌+◌, ◌≡◌, refl, ◌∙◌, ap, Bool, true, false, not, ◌&&◌, ◌||◌, none, some, List, [], ◌∷◌, map,
  ok, err, if◌then◌else◌, arith, all, ◌==◌, Bool-cases, Option-cases, inl, inr,
}
use luminos.Text.{Text, codes, text_eq, text_eq_iff, text_eq_refl, trim, to_ascii_lowercase}
use luminos.State.Types.{ℤ, pos, negsuc}
use luminos.Notifications.Item.{NotificationItem, is_one_of}
use luminos.Notifications.Aggregate.{NotificationAggregate}
use luminos.Notifications.Socket.{
  FirstSeen, SocketNotification, notification_identity, notification_content_signature,
  aggregate_content_signature, retain, known, stamp, stamp_all, build_socket_snapshot,
}
use luminos.Notifications.Session.{
  Session, pong_text, send, Event, tick, incoming, text, ping, pong, close, binary,
  send_socket_snapshot, on_tick, on_message, on_event, events,
}

abbrev eq_ℤ : ℤ → ℤ → Bool
eq_ℤ (pos a) (pos b) = a == b
eq_ℤ (pos a) (negsuc b) = false
eq_ℤ (negsuc a) (pos b) = false
eq_ℤ (negsuc a) (negsuc b) = a == b

eq_ℤ_refl : (a : ℤ) → eq_ℤ a a ≡ true
eq_ℤ_refl (pos a) = ground arith
eq_ℤ_refl (negsuc a) = ground arith

module _ (key signature : Text) (time : ℤ) where
  -- If it has the identity, it has the content.
  abbrev agrees : NotificationItem → Bool
  agrees item =
      not (text_eq (notification_identity item) key)
      || text_eq (notification_content_signature item) signature

  -- The aggregate has notifications of the identity, all of them with the content.
  abbrev pub shows : NotificationAggregate → Bool
  shows aggregate =
      is_one_of key (map notification_identity aggregate.notifications)
      && all agrees aggregate.notifications

  -- What is sent for a notification of the identity carries the time.
  abbrev pub dated : List NotificationItem → List SocketNotification → Bool
  dated [] sent = true
  dated (item ∷ rest) [] = false
  dated (item ∷ rest) (one ∷ more) =
      (not (text_eq (notification_identity item) key) || eq_ℤ one.created_at time)
      && dated rest more

  stamp-keeps :
      (item : NotificationItem) (now : ℤ) (seen : FirstSeen)
      → agrees item ≡ true
      → seen key ≡ some (signature, time)
      → ((stamp item now seen).1 key ≡ some (signature, time))
        × ((not (text_eq (notification_identity item) key) || eq_ℤ (stamp item now seen).0 time)
            ≡ true)
  unfolding stamp
  stamp-keeps item now seen fits there =
      let id = notification_identity item in
      let content = notification_content_signature item in
      elim (Bool-cases (text_eq id key)) [
        | inl same ↦
            let named : id ≡ key = (text_eq_iff id key).0 same in
            let equal : content ≡ signature =
              (text_eq_iff content signature).0 (ground (arith, same)) in
            let found : known (seen id) content ≡ some time =
              ap (λ k. known (seen k) content) named
              ∙ ap (λ row. known row content) there
              ∙ rw equal (rw (text_eq_refl signature) refl) in
            (rw found there, rw (found, same) (eq_ℤ_refl time))
        | inr differs ↦ elim (Option-cases (known (seen id) content)) [
          | inr (old, found) ↦ (rw found there, rw differs refl)
          | inl fresh ↦
              let apart : text_eq key id ≡ false =
                ground (arith, text_eq_iff id key, text_eq_iff key id) in
              (rw (fresh, apart) there, rw differs refl)
        ]
      ]

  stamp_all-keeps :
      (now : ℤ) (index : ℕ) (items : List NotificationItem) (seen : FirstSeen)
      → all agrees items ≡ true
      → seen key ≡ some (signature, time)
      → ((stamp_all now index items seen).1 key ≡ some (signature, time))
        × (dated items (stamp_all now index items seen).0 ≡ true)
  unfolding stamp_all
  stamp_all-keeps now index [] seen fits there = (there, refl)
  stamp_all-keeps now index (item ∷ rest) seen fits there =
      let (kept, head) = stamp-keeps item now seen (ground arith) there in
      let (last, tail) =
        stamp_all-keeps now (index + 1) rest (stamp item now seen).1 (ground arith) kept in
      (last, rw (head, tail) refl)

  snapshot-keeps :
      (aggregate : NotificationAggregate) (now : ℤ) (seen : FirstSeen)
      → shows aggregate ≡ true
      → seen key ≡ some (signature, time)
      → ((build_socket_snapshot aggregate now seen).1 key ≡ some (signature, time))
        × (dated aggregate.notifications (build_socket_snapshot aggregate now seen).0.notifications
            ≡ true)
  unfolding build_socket_snapshot
  snapshot-keeps aggregate now seen fits there =
      let keys = map notification_identity aggregate.notifications in
      let listed : is_one_of key keys ≡ true = ground arith in
      stamp_all-keeps now 0 aggregate.notifications (retain keys seen) (ground arith)
        (rw listed there)

  -- An aggregate that is read in the loop shows the notification.
  abbrev pub event_shows : Event → Bool
  event_shows (tick (ok aggregate) now sends) = shows aggregate
  event_shows (tick (err e) now sends) = true
  event_shows (incoming message sends) = true

  send-keeps :
      (aggregate : NotificationAggregate) (now : ℤ) (sends : Bool) (s : Session)
      → shows aggregate ≡ true
      → s.first_seen key ≡ some (signature, time)
      → (send_socket_snapshot aggregate now sends s).first_seen key ≡ some (signature, time)
  unfolding send_socket_snapshot
  send-keeps aggregate now true s fits there =
      (snapshot-keeps aggregate now s.first_seen fits there).0
  send-keeps aggregate now false s fits there =
      (snapshot-keeps aggregate now s.first_seen fits there).0

  answer-keeps :
      (sends : Bool) (s : Session)
      → s.first_seen key ≡ some (signature, time)
      → (send pong_text sends s).first_seen key ≡ some (signature, time)
  answer-keeps true s there = there
  answer-keeps false s there = there

  on_event-keeps :
      (event : Event) (s : Session)
      → event_shows event ≡ true
      → s.first_seen key ≡ some (signature, time)
      → (on_event event s).first_seen key ≡ some (signature, time)
  unfolding on_event on_tick on_message
  on_event-keeps (tick (err e) now true) s fits there = there
  on_event-keeps (tick (err e) now false) s fits there = there
  on_event-keeps (tick (ok aggregate) now sends) s fits there =
      elim (Bool-cases (text_eq (aggregate_content_signature aggregate) s.last_signature)) [
        | inl same ↦ rw same there
        | inr changed ↦ rw changed (
            send-keeps aggregate now sends
              (record s { last_signature = aggregate_content_signature aggregate }) fits there)
      ]
  on_event-keeps (incoming none sends) s fits there = there
  on_event-keeps (incoming (some none) sends) s fits there = there
  on_event-keeps (incoming (some (some (text m))) sends) s fits there =
      elim (Bool-cases (text_eq (to_ascii_lowercase (trim m)) (codes "ping"))) [
        | inl asked ↦ rw asked (answer-keeps sends s there)
        | inr other ↦ rw other there
      ]
  on_event-keeps (incoming (some (some (ping m))) true) s fits there = there
  on_event-keeps (incoming (some (some (ping m))) false) s fits there = there
  on_event-keeps (incoming (some (some pong)) sends) s fits there = there
  on_event-keeps (incoming (some (some close)) sends) s fits there = there
  on_event-keeps (incoming (some (some binary)) sends) s fits there = there

  either-keeps :
      (b : Bool) (s t : Session)
      → s.first_seen key ≡ some (signature, time)
      → t.first_seen key ≡ some (signature, time)
      → (if b then s else t).first_seen key ≡ some (signature, time)
  either-keeps true s t h k = h
  either-keeps false s t h k = k

  events-keep :
      (later : List Event) (s : Session)
      → all event_shows later ≡ true
      → s.first_seen key ≡ some (signature, time)
      → (events later s).first_seen key ≡ some (signature, time)
  unfolding events
  events-keep [] s fits there = there
  events-keep (event ∷ rest) s fits there =
      let next =
        events-keep rest (on_event event s) (ground arith)
          (on_event-keeps event s (ground arith) there) in
      either-keeps s.running (events rest (on_event event s)) s next there

  -- A notification whose content stays as it is keeps its time: once a session has it with that
  -- content and a time, then after any events, whatever the client sends and whichever answers are
  -- lost, a snapshot gives every notification of that identity that time; all aggregates that are
  -- read meanwhile have the notification, and none has it with another content.
  pub lasting_time :
      (later : List Event) (s : Session) (aggregate : NotificationAggregate) (now : ℤ)
      → s.first_seen key ≡ some (signature, time)
      → all event_shows later ≡ true
      → shows aggregate ≡ true
      → dated aggregate.notifications
          (build_socket_snapshot aggregate now (events later s).first_seen).0.notifications
        ≡ true
  lasting_time later s aggregate now there fits last =
      (snapshot-keeps aggregate now (events later s).first_seen last
        (events-keep later s fits there)).1
