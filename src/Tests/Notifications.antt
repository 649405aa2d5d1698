-- ===== src/Tests/Notifications.antt =====
-- The theorems on notifications at concrete inputs.
use luminos.Prelude.{◌≡◌, refl, true, false, Option, none, some, List, [], ◌∷◌, ok, err, ◌==◌}
use luminos.Text.{Text, codes, text_eq, trim, trim_start, trim_end, space_width}
use luminos.State.Types.{pos}
use luminos.Notifications.Item.{NotificationItem}
use luminos.Notifications.Producers.{Json, Entry}
use luminos.Notifications.Aggregate.{filter, NotificationAggregate, build_notification_aggregate}
use luminos.Notifications.Socket.{
  notification_identity, notification_content_signature, aggregate_content_signature, stamp,
  stamp_all, build_socket_snapshot,
}
use luminos.Notifications.Session.{
  Session, Event, tick, incoming, ping, read_failed, send_socket_snapshot, first_snapshot, events,
}
use luminos.Download.Files.{Disk, plain_step}
use luminos.Notifications.Store.{Runtime, refreshed, refresh_notification_aggregate}
use luminos.Notifications.Whole.{IsWhole, refresh-IsWhole}
use luminos.Tests.Remote.{empty_disk}
use luminos.Notifications.Lasting.{shows, dated, lasting_time}

abbrev hot : NotificationItem
hot = record {
  id = [];
  producer = codes "disks";
  producer_version = [];
  status = [];
  level = codes "Critical";
  code = codes "temperature";
  title = codes "Disk";
  message = [];
  error = [];
  generated_at = some (pos 100);
  age_seconds = none;
  fresh = false;
  state_file = [];
  active = false;
}

abbrev calm : NotificationItem
calm = record hot { level = codes "info"; code = codes "idle"; generated_at = none }

-- Every text is the array of the two notifications.
abbrev json : Json
json = record {
  Value = Option NotificationItem;
  from_str = λ content. some none;
  from_value = λ value. value;
  as_array = λ value. some (some calm ∷ some hot ∷ []);
  get = λ value key. none;
}

abbrev entry : Entry
entry = record { path = codes "/run/disks.json"; is_file = true; content = some (codes "[]") }

abbrev aggregate : NotificationAggregate
aggregate = build_notification_aggregate (calm ∷ hot ∷ []) (pos 150)

abbrev session : Session
session = first_snapshot (ok aggregate) (pos 150) true

first_seen_hot :
    session.first_seen (notification_identity hot)
    ≡ some (notification_content_signature hot, pos 150)
unfolding first_snapshot send_socket_snapshot build_socket_snapshot stamp_all stamp
    notification_identity notification_content_signature build_notification_aggregate
    aggregate_content_signature text_eq trim trim_start trim_end space_width filter
first_seen_hot = refl

hot_shown :
    shows (notification_identity hot) (notification_content_signature hot) (pos 150) aggregate
    ≡ true
unfolding notification_identity notification_content_signature build_notification_aggregate text_eq
    trim trim_start trim_end space_width filter
hot_shown = refl

abbrev later : List Event
later =
    incoming (some (some (ping []))) false
    ∷ tick (err read_failed) (pos 155) true
    ∷ incoming none true
    ∷ []

lasting_time_example :
    dated
      (notification_identity hot)
      (notification_content_signature hot)
      (pos 150)
      aggregate.notifications
      (build_socket_snapshot aggregate (pos 160) (events later session).first_seen).0.notifications
    ≡ true
lasting_time_example =
    lasting_time (notification_identity hot) (notification_content_signature hot) (pos 150) later
      session aggregate (pos 160) first_seen_hot refl hot_shown

abbrev temporary : Text
temporary = codes "/run/notifications-aggregate.json.tmp"

abbrev target : Text
target = codes "/run/notifications-aggregate.json"

abbrev runtime : Runtime
runtime = record {
  json = json;
  to_vec_pretty = λ a. some (codes "{}");
  aggregate_from_str = λ s. some aggregate;
  target = target;
  temporary = temporary;
  entries = λ w. some (some entry ∷ []);
}

apart : text_eq temporary target ≡ false
unfolding text_eq
apart = refl

apart_entry : text_eq temporary entry.path ≡ false
unfolding text_eq
apart_entry = refl

target_entry : text_eq target entry.path ≡ false
unfolding text_eq
target_entry = refl

-- The write of the temporary file fails behind its first byte.
abbrev failing : Disk
failing = record { fails = λ n. n == 3; torn = λ n. 1 }

refresh-IsWhole_example :
    ((refresh_notification_aggregate runtime failing (pos 150) (pos 151) empty_disk).1.files
        entry.path
      ≡ empty_disk.files entry.path)
    × IsWhole runtime
        (refreshed runtime (pos 150) (pos 151) (plain_step failing empty_disk).1)
        empty_disk
        (refresh_notification_aggregate runtime failing (pos 150) (pos 151) empty_disk)
refresh-IsWhole_example =
    refresh-IsWhole runtime failing apart (pos 150) (pos 151) empty_disk entry.path apart_entry
      target_entry
