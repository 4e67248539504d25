-- ===== src/Examples/Days.antt =====
-- Four dates of two keys.
use recon_sr.Base.{
  List, [], ◌∷◌, ◌≡◌, refl, map, Option, none, some, Text, codes, take, leb, length, lookup,
  if◌then◌else◌,
}
use recon_sr.Modules.Dates.{date_only, first_layout, normalize_day}
use recon_sr.Modules.Collector.{
  LatestDate, Collected, gt_text, latest, put_day, RawDate, add_date, add_dates, insert_by_key,
  sort_by_key, items_of,
}
use recon_sr.Modules.Latest.{IsLatest, collected-IsLatest}
use recon_sr.Examples.Inputs.{running}

-- Every text of the length of a day is a day.
abbrev long_enough : Text → Text → Option Text
unfolding running
long_enough layout s =
    if leb (length date_only) (length s) then some (take (length date_only) s) else none

abbrev four_dates : List RawDate
four_dates =
    record { key = codes "mail"; source = none; raw = codes "2024-03-01T10:00:00Z" }
    ∷ record { key = codes "mail "; source = none; raw = codes "2024-05-01" }
    ∷ record { key = codes "a"; source = none; raw = codes "2020-01-01" }
    ∷ record { key = codes "mail"; source = none; raw = codes "2024-04-30" }
    ∷ []

abbrev collected : Collected
unfolding running first_layout normalize_day gt_text latest put_day add_date add_dates
collected = add_dates long_enough four_dates []

collected-IsLatest_example :
    IsLatest long_enough
      (codes "mail")
      four_dates
      (lookup (codes "mail") (add_dates long_enough four_dates []))
collected-IsLatest_example = collected-IsLatest long_enough (codes "mail") four_dates

latest_days : map LatestDate.day (items_of collected) ≡ codes "2020-01-01" ∷ codes "2024-05-01" ∷ []
unfolding running first_layout normalize_day gt_text latest put_day add_date add_dates insert_by_key
    sort_by_key items_of collected
latest_days = refl
