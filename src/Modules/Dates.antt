-- ===== src/Modules/Dates.antt =====
-- `NormalizeDay` of modules/utils/dateutil/dateutil.go. `time.Parse` followed by `Format` with the
-- layout of a day is a parameter: for a layout and a text, the day it denotes.
use recon_sr.Base.{
  List, [], ◌∷◌, Option, none, some, Text, codes, length, take, leb, is_some, ◌&&◌, if◌then◌else◌,
}
use recon_sr.Strings.{is_empty}
use recon_sr.Strings.Trim.{trim_space}

abbrev pub date_only : Text
date_only = codes "2006-01-02"

abbrev pub supported_layouts : List Text
supported_layouts =
    date_only
    ∷ codes "2006-01-02T15:04:05.999999999Z07:00"
    ∷ codes "2006-01-02T15:04:05Z07:00"
    ∷ codes "2006-01-02 15:04:05.999999999"
    ∷ codes "2006-01-02 15:04:05"
    ∷ codes "2006-01-02 15:04"
    ∷ codes "2006/01/02 15:04:05"
    ∷ codes "2006/01/02"
    ∷ codes "02.01.2006 15:04:05"
    ∷ codes "02.01.2006"
    ∷ []

module _ (parse_day : Text → Text → Option Text) where
  unfoldable pub first_layout : Text → List Text → Option Text
  first_layout raw [] = none
  first_layout raw (layout ∷ layouts) =
      let rest = first_layout raw layouts in
      elim (parse_day layout raw) [ none ↦ rest | some day ↦ some day ]

  unfoldable pub normalize_day : Text → Option Text
  normalize_day value =
      let raw = trim_space value in
      let candidate = take (length date_only) raw in
      if is_empty raw
      then none
      else if leb (length date_only) (length raw) && is_some (parse_day date_only candidate)
      then some candidate
      else first_layout raw supported_layouts
