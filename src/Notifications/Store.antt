-- ===== src/Notifications/Store.antt =====
-- The aggregate's file in server/src/handlers/notifications.rs: its refresh and its readers, over the
-- disk of Download/Files. The texts of errors are left out.
use luminos.Prelude.{
  ◌+◌, Bool, true, false, Option, none, some, List, [], Result, ok, err, if◌then◌else◌,
}
use luminos.Text.{Text}
use luminos.State.Types.{ℤ, pos}
use luminos.Download.Files.{
  DownloadError, io, World, Disk, Io, lift, plain_step, write_all, rename, write_at, ◌>>=◌, ◌>>◌,
}
use luminos.Notifications.Time.{ltb_ℤ, saturating_sub}
use luminos.Notifications.Item.{NotificationItem}
use luminos.Notifications.Producers.{Json, Entry, read_notification_producer_items}
use luminos.Notifications.Aggregate.{
  NotificationCounts, NotificationOverall, NotificationAggregate, is_active, filter,
  build_notification_aggregate,
}
use luminos.Notifications.Session.{NotificationApiError, file_not_found, read_failed, invalid_json}

-- serde_json on an aggregate, the paths of the aggregate and of its temporary file, and the entries
-- of the producers' directory.
pub record Runtime : Type 1 where
  pub json : Json
  pub to_vec_pretty : NotificationAggregate → Option Text
  pub aggregate_from_str : Text → Option NotificationAggregate
  pub target : Text
  pub temporary : Text
  pub entries : World → Option (List (Option Entry))

-- The open call of `fs::write`: the file is there and empty, or nothing has changed.
unfoldable pub truncate : Disk → Text → Io (Unit {0})
truncate disk path w =
    if disk.fails w.steps
    then (err io, record w { steps = w.steps + 1 })
    else (ok tt, record { files = write_at path (some []) w.files; steps = w.steps + 1 })

abbrev serialized : Option Text → Result DownloadError Text
serialized none = err io
serialized (some content) = ok content

unfoldable pub write_notification_aggregate : Runtime → Disk → NotificationAggregate → Io (Unit {0})
write_notification_aggregate runtime disk aggregate = do
  plain_step disk
  content ← lift (serialized (runtime.to_vec_pretty aggregate))
  truncate disk runtime.temporary
  write_all disk runtime.temporary content
  rename disk runtime.temporary runtime.target

-- The aggregate of the files that are there. The clock is read for the files and again for the
-- aggregate.
abbrev pub refreshed : Runtime → ℤ → ℤ → World → NotificationAggregate
refreshed runtime read_at built_at w =
    build_notification_aggregate
      (read_notification_producer_items runtime.json read_at (runtime.entries w)) built_at

unfoldable pub refresh_notification_aggregate : Runtime → Disk → ℤ → ℤ → Io (Unit {0})
refresh_notification_aggregate runtime disk read_at built_at = plain_step disk >> λ w.
    write_notification_aggregate runtime disk (refreshed runtime read_at built_at w) w

-- `readable` tells whether the read succeeds.
unfoldable pub read_aggregate :
    Runtime → Bool → World → Result NotificationApiError NotificationAggregate
read_aggregate runtime readable w = elim (w.files runtime.target) [
  | none ↦ err file_not_found
  | some content ↦ elim readable [
    | false ↦ err read_failed
    | true ↦ elim (runtime.aggregate_from_str content) [
      | none ↦ err invalid_json
      | some aggregate ↦ ok aggregate
    ]
  ]
]

abbrev generated_age_seconds : NotificationAggregate → ℤ → Option ℤ
generated_age_seconds aggregate now =
    if ltb_ℤ (pos 0) aggregate.generated_at
    then some (saturating_sub now aggregate.generated_at)
    else none

pub record NotificationSummary : Type 0 where
  pub generated_at : ℤ
  pub age_seconds : Option ℤ
  pub overall : NotificationOverall
  pub counts : NotificationCounts
  pub active_notifications : List NotificationItem

abbrev summary_of : ℤ → NotificationAggregate → NotificationSummary
summary_of now aggregate = record {
  generated_at = aggregate.generated_at;
  age_seconds = generated_age_seconds aggregate now;
  overall = aggregate.overall;
  counts = aggregate.counts;
  active_notifications = filter is_active aggregate.notifications;
}

unfoldable pub notification_summary :
    Runtime → Bool → ℤ → World → Result NotificationApiError NotificationSummary
notification_summary runtime readable now w = elim (read_aggregate runtime readable w) [
  | err e ↦ err e
  | ok aggregate ↦ ok (summary_of now aggregate)
]
