-- ===== src/Modules/Collector.antt =====
-- The `Collector` of modules/utils/dateutil/dateutil.go: the latest day of each key. Its map is an
-- association list.
use recon_sr.Base.{
  Bool, true, false, List, [], ◌∷◌, map, Option, none, some, Text, ltb, ◌==◌, lookup, insert,
  if◌then◌else◌,
}
use recon_sr.Schema.{EntityRef}
use recon_sr.Strings.{is_empty}
use recon_sr.Strings.Trim.{trim_space}
use recon_sr.Modules.Dates.{normalize_day}

pub record LatestDate : Type 0 where
  pub key : Text
  pub source : Option EntityRef
  pub day : Text

abbrev pub Collected : Type 0
Collected = List (Text × LatestDate)

-- The order of Go's strings, byte by byte.
unfoldable pub gt_text : Text → Text → Bool
gt_text [] t = false
gt_text (c ∷ s) [] = true
gt_text (c ∷ s) (d ∷ t) =
    let rest = gt_text s t in if ltb d c then true else if c == d then rest else false

-- The item that a day makes of the one before it.
unfoldable pub latest : Text → Option EntityRef → Text → Option LatestDate → LatestDate
latest key source day none = record { key = key; source = source; day = day }
latest key source day (some current) = record current {
  source = elim current.source [ none ↦ source | some s ↦ some s ];
  day = if gt_text day current.day then day else current.day;
}

unfoldable pub put_day : Text → Option EntityRef → Option Text → Collected → Collected
put_day key source none items = items
put_day key source (some day) items = insert key (latest key source day (lookup key items)) items

-- What is given to `Add`.
pub record RawDate : Type 0 where
  pub key : Text
  pub source : Option EntityRef
  pub raw : Text

module _ (parse_day : Text → Text → Option Text) where
  unfoldable pub add_date : RawDate → Collected → Collected
  add_date date items =
      let key = trim_space date.key in
      if is_empty key
      then items
      else put_day key date.source (normalize_day parse_day date.raw) items

  unfoldable pub add_dates : List RawDate → Collected → Collected
  add_dates [] items = items
  add_dates (date ∷ dates) items = add_dates dates (add_date date items)

-- `sort.Strings` on the keys, which the map has once each.
unfoldable pub insert_by_key : Text × LatestDate → Collected → Collected
insert_by_key item [] = item ∷ []
insert_by_key item (other ∷ items) =
    let rest = insert_by_key item items in
    if gt_text item.0 other.0 then other ∷ rest else item ∷ other ∷ items

unfoldable pub sort_by_key : Collected → Collected
sort_by_key [] = []
sort_by_key (item ∷ items) = insert_by_key item (sort_by_key items)

unfoldable pub items_of : Collected → List LatestDate
items_of items = map (λ (item : Text × LatestDate). item.1) (sort_by_key items)
