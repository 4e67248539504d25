-- ===== src/Scope/Parse.antt =====
-- `parseRawFile` of internal/scopemanager/scopemanager.go, over the lines that the scanner reads.
-- `parseRawFile` is called with an empty default section.
use recon_sr.Base.{
  ◌-◌, Bool, false, ◌&&◌, ◌||◌, List, [], ◌∷◌, ◌++◌, none, some, Text, codes, length, take, drop,
  if◌then◌else◌, lookup, insert,
}
use recon_sr.Libs.{Libs}
use recon_sr.Strings.{
  has_prefix, has_suffix, trim_prefix, index_byte, to_lower, replace_byte, is_empty,
}
use recon_sr.Strings.Trim.{trim_space, fields}
use recon_sr.Scope.RuleSets.{values_of}

abbrev pub Raw : Type 0
Raw = List (Text × List Text)

-- The variables of the loop over the lines.
pub record FileScan : Type 0 where
  pub current_section : Text
  pub is_section_allowed : Bool
  pub allowed : Raw
  pub blocked : Raw

abbrev append_value : Text → Text → Raw → Raw
append_value section val raw = insert section (values_of (lookup section raw) ++ val ∷ []) raw

-- The body of the loop over the fields of a line.
unfoldable pub add_field : FileScan → Text → FileScan
add_field st el =
    let marked = has_prefix el (codes "!") in
    let val = trim_prefix el (codes "!") in
    if st.is_section_allowed || marked
    then record st { allowed = append_value st.current_section val st.allowed }
    else record st { blocked = append_value st.current_section val st.blocked }

unfoldable pub add_fields : FileScan → List Text → FileScan
add_fields st [] = st
add_fields st (el ∷ els) = add_fields (add_field st el) els

unfoldable pub strip_comment : Text → Text
strip_comment line = elim (index_byte line b'#') [ none ↦ line | some idx ↦ take idx line ]

-- A section header opens a section of exceptions if its name begins with `!`.
unfoldable pub open_section : FileScan → Text → FileScan
open_section st name = record st {
  current_section = trim_prefix name (codes "!");
  is_section_allowed = has_prefix name (codes "!");
}

module _ (lib : Libs) where
  unfoldable pub scan_line : FileScan → Text → FileScan
  scan_line st raw =
      let line = to_lower lib (trim_space (strip_comment raw)) in
      if is_empty line
      then st
      else if has_prefix line (codes "[") && has_suffix line (codes "]")
      then open_section st (take (length line - 2) (drop 1 line))
      else if is_empty st.current_section
      then st
      else add_fields st (fields (replace_byte b',' b' ' line))

  unfoldable pub scan_lines : FileScan → List Text → FileScan
  scan_lines st [] = st
  scan_lines st (l ∷ ls) = scan_lines (scan_line st l) ls

  -- `parseRawFile`: the exceptions and the blocks, by section.
  unfoldable pub parse_raw_file : List Text → Raw × Raw
  parse_raw_file lines =
      let st =
        scan_lines
          (record { current_section = []; is_section_allowed = false; allowed = []; blocked = [] })
          lines in
      (st.allowed, st.blocked)
