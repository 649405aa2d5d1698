-- ===== src/Notifications/Whole.antt =====
-- A refresh of server/src/handlers/notifications.rs replaces the aggregate as a whole.
use luminos.Prelude.{
  ◌+◌, ◌≡◌, refl, ◌⊎◌, inl, inr, false, none, some, Result, ok, err, arith, Bool-cases,
  Option-cases, Result-cases,
}
use luminos.Text.{Text, text_eq, text_eq_refl}
use luminos.State.Types.{ℤ}
use luminos.Download.Files.{DownloadError, io, World, Disk, plain_step, write_all, rename}
use luminos.Notifications.Aggregate.{NotificationAggregate}
use luminos.Notifications.Store.{
  Runtime, truncate, write_notification_aggregate, refreshed, refresh_notification_aggregate,
}

-- From `w` a refresh led to `v` with the result `r`: it has replaced the aggregate's file by the
-- whole of `a`, or it has failed and the file is as before.
abbrev pub IsWhole :
    Runtime → NotificationAggregate → World → Result DownloadError (Unit {0}) × World → Type 0
IsWhole runtime a w (r, v) =
    ((content : Text) × (r ≡ ok tt)
      × (runtime.to_vec_pretty a ≡ some content)
      × (v.files runtime.target ≡ some content)
      × (v.files runtime.temporary ≡ none))
    ⊎ ((r ≡ err io) × (v.files runtime.target ≡ w.files runtime.target))

module _ (runtime : Runtime) (disk : Disk)
    (apart : text_eq runtime.temporary runtime.target ≡ false) where
  open runtime use {target, temporary, to_vec_pretty}

  write-others :
      (a : NotificationAggregate) (w : World) (path : Text)
      → text_eq temporary path ≡ false
      → text_eq target path ≡ false
      → (write_notification_aggregate runtime disk a w).1.files path ≡ w.files path
  unfolding write_notification_aggregate plain_step truncate write_all rename
  write-others a w path h k = ground arith

  write-refused :
      (a : NotificationAggregate) (w : World)
      → to_vec_pretty a ≡ none
      → IsWhole runtime a w (write_notification_aggregate runtime disk a w)
  unfolding write_notification_aggregate plain_step
  write-refused a w missing = inr (ground arith, ground arith)

  write-failed :
      (a : NotificationAggregate) (w : World) (e : DownloadError)
      → (write_notification_aggregate runtime disk a w).0 ≡ err e
      → ((write_notification_aggregate runtime disk a w).0 ≡ err io)
        × ((write_notification_aggregate runtime disk a w).1.files target ≡ w.files target)
  unfolding write_notification_aggregate plain_step truncate write_all rename
  write-failed a w e h = (ground arith, ground (arith, text_eq_refl temporary))

  write-done :
      (a : NotificationAggregate) (w : World) (content : Text)
      → to_vec_pretty a ≡ some content
      → (write_notification_aggregate runtime disk a w).0 ≡ ok tt
      → ((write_notification_aggregate runtime disk a w).1.files target ≡ some content)
        × ((write_notification_aggregate runtime disk a w).1.files temporary ≡ none)
  unfolding write_notification_aggregate plain_step truncate write_all rename
  write-done a w content found h = (
    ground (arith, text_eq_refl temporary, text_eq_refl target),
    ground (arith, text_eq_refl temporary),
  )

  write-IsWhole :
      (a : NotificationAggregate) (w : World)
      → IsWhole runtime a w (write_notification_aggregate runtime disk a w)
  write-IsWhole a w = elim (Option-cases (to_vec_pretty a)) [
    | inl missing ↦ write-refused a w missing
    | inr (content, found) ↦ elim (Result-cases (write_notification_aggregate runtime disk a w).0) [
      | inl (_, done) ↦
          let (stored, gone) = write-done a w content found done in
          inl (content, done, found, stored, gone)
      | inr (e, failed) ↦ inr (write-failed a w e failed)
    ]
  ]

  -- A refresh at any times, with any operation on the disk failing and any write torn, changes no file but the
  -- aggregate's and its temporary one. If it succeeds, the aggregate's file holds the whole text of
  -- the aggregate of the files that were there, and the temporary file is gone; if it fails, the
  -- aggregate's file is as before. For a temporary file that is not the aggregate's.
  pub refresh-IsWhole :
      (read_at built_at : ℤ) (w : World) (path : Text)
      → text_eq temporary path ≡ false
      → text_eq target path ≡ false
      → ((refresh_notification_aggregate runtime disk read_at built_at w).1.files path
          ≡ w.files path)
        × IsWhole runtime
            (refreshed runtime read_at built_at (plain_step disk w).1)
            w
            (refresh_notification_aggregate runtime disk read_at built_at w)
  unfolding refresh_notification_aggregate plain_step
  refresh-IsWhole read_at built_at w path h k =
      let v = record w { steps = w.steps + 1 } in
      elim (Bool-cases (disk.fails w.steps)) [
        | inl fails ↦ rw fails (refl, inr (refl, refl))
        | inr passes ↦ rw passes (
          write-others (refreshed runtime read_at built_at v) v path h k,
          write-IsWhole (refreshed runtime read_at built_at v) v,
        )
      ]
