-- ===== src/Notifications/Producers.antt =====
-- The files of the producers in server/src/handlers/notifications.rs.
use luminos.Prelude.{
  Bool, false, not, ◌&&◌, ◌||◌, Option, none, some, List, [], ◌∷◌, ◌++◌, map, if◌then◌else◌, ltb,
  ◌==◌,
}
use luminos.Text.{Text, codes, text_eq, is_empty, trim, ends_with}
use luminos.State.Types.{ℤ, pos}
use luminos.State.Validate.{file_name}
use luminos.Notifications.Time.{ltb_ℤ}
use luminos.Notifications.Item.{
  NotificationItem, notification_level_rank, normalize_notification_item, or_now, extension,
}

-- serde_json: its values with the reads that are made of them.
pub record Json : Type 1 where
  pub Value : Type 0
  pub from_str : Text → Option Value
  pub from_value : Value → Option NotificationItem
  pub as_array : Value → Option (List Value)
  pub get : Value → Text → Option Value

-- An entry of a directory, with what reading it returns.
pub record Entry : Type 0 where
  pub path : Text
  pub is_file : Bool
  pub content : Option Text

module _ (json : Json) where
  open json use {Value, from_str, from_value, as_array, get}

  -- The values that are notifications.
  abbrev pub items_of : List Value → List NotificationItem
  items_of [] = []
  items_of (v ∷ rest) = elim (from_value v) [ none ↦ items_of rest | some i ↦ i ∷ items_of rest ]

  abbrev is_item : NotificationItem → Bool
  is_item item =
      not (is_empty (trim item.producer))
      || not (is_empty (trim item.code))
      || not (is_empty (trim item.title))

  abbrev array_at : Value → Text → List NotificationItem
  array_at value key = elim (get value key) [
    | none ↦ []
    | some v ↦ elim (as_array v) [ none ↦ [] | some vs ↦ items_of vs ]
  ]

  -- The first key with items.
  abbrev first_array : Value → List Text → List NotificationItem
  first_array value [] = []
  first_array value (key ∷ rest) = elim (array_at value key) [
    | [] ↦ first_array value rest
    | i ∷ items ↦ i ∷ items
  ]

  abbrev keys : List Text
  keys =
      codes "notifications"
      ∷ codes "problems"
      ∷ codes "information"
      ∷ codes "healthy"
      ∷ codes "items"
      ∷ []

  abbrev beside_item : Value → List NotificationItem
  beside_item value = elim (as_array value) [
    | some vs ↦ items_of vs
    | none ↦ first_array value keys
  ]

  unfoldable pub notifications_from_value : Value → List NotificationItem
  notifications_from_value value = elim (from_value value) [
    | none ↦ beside_item value
    | some item ↦ if is_item item then item ∷ [] else beside_item value
  ]

  abbrev name_or_empty : Option Text → Text
  name_or_empty none = []
  name_or_empty (some s) = s

  abbrev is_json : Option Text → Bool
  is_json none = false
  is_json (some s) = text_eq s (codes "json")

  -- A file that a producer has written: not the aggregate and not a temporary file.
  unfoldable pub is_producer_file : Entry → Bool
  is_producer_file entry =
      let name = name_or_empty (file_name entry.path) in
      entry.is_file
      && not (
          text_eq name (codes "notifications-aggregate.json")
          || ends_with name (codes ".tmp")
          || not (is_json (extension entry.path)))

  abbrev pub values_of : Option Text → List NotificationItem
  values_of none = []
  values_of (some content) = elim (from_str content) [
    | none ↦ []
    | some value ↦ notifications_from_value value
  ]

  abbrev pub entry_items : ℤ → Entry → List NotificationItem
  entry_items now entry =
      if is_producer_file entry
      then map (λ item. normalize_notification_item item entry.path now) (values_of entry.content)
      else []

  -- The loop over the directory; an entry that cannot be read ends it.
  unfoldable pub collect_items : ℤ → List (Option Entry) → List NotificationItem
  collect_items now [] = []
  collect_items now (none ∷ rest) = []
  collect_items now (some entry ∷ rest) = entry_items now entry ++ collect_items now rest

abbrev pub generated : NotificationItem → ℤ
generated item = or_now item.generated_at (pos 0)

-- The order of the list: `left` stands behind `right` if its level is lower, or if the levels have
-- the same rank and it is older.
unfoldable pub behind : NotificationItem → NotificationItem → Bool
behind left right =
    let l = notification_level_rank left.level in
    let r = notification_level_rank right.level in
    ltb l r || (l == r && ltb_ℤ (generated left) (generated right))

-- `sort_by` is stable.
unfoldable pub insert : NotificationItem → List NotificationItem → List NotificationItem
insert item [] = item ∷ []
insert item (next ∷ rest) =
    let later = insert item rest in if behind item next then next ∷ later else item ∷ next ∷ rest

unfoldable pub sort_notifications : List NotificationItem → List NotificationItem
sort_notifications [] = []
sort_notifications (item ∷ rest) = insert item (sort_notifications rest)

-- `none` is a directory that cannot be opened.
unfoldable pub read_notification_producer_items :
    Json → ℤ → Option (List (Option Entry)) → List NotificationItem
read_notification_producer_items json now none = []
read_notification_producer_items json now (some entries) =
    sort_notifications (collect_items json now entries)
