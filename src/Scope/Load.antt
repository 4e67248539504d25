-- ===== src/Scope/Load.antt =====
-- `Load` of internal/scopemanager/scopemanager.go. The directory is read by the operating system
-- and the digest is computed by `crypto/sha256`: both are arguments.
use recon_sr.Base.{
  Bool, true, false, not, ◌&&◌, List, [], ◌∷◌, ◌++◌, Option, none, some, Text, codes, if◌then◌else◌,
  eq_text,
}
use recon_sr.Libs.{Libs}
use recon_sr.Strings.{has_suffix, is_empty}
use recon_sr.Scope.RuleSets.{Rules, no_rules, process_raw}
use recon_sr.Scope.Parse.{parse_raw_file}

-- A directory entry: `stamp` is what its size and its modification time print as, or none if
-- they cannot be read, and `lines` what the file holds, or none if it cannot be read.
pub record Entry : Type 0 where
  pub name : Text
  pub is_dir : Bool
  pub stamp : Option Text
  pub lines : Option (List Text)

-- What the operating system answers: `os.ReadDir` of the configuration directory, and whether
-- `os.OpenRoot` opens the directory after that.
pub data Listing : Type 0 where
  listed : Bool → List Entry → Listing
  missing failed : Listing

-- The package's variables.
pub record State : Type 0 where
  pub rules : Rules
  pub last_dir_fingerprint : Text
  pub last_semantic_hash : Text

abbrev pub empty_rules : Rules
empty_rules = record { allowed = no_rules; blocked = no_rules }

-- The results of `Load`: whether the rules changed, or an error.
pub data Outcome : Type 0 where
  loaded : Bool → Outcome
  error : Outcome

abbrev is_rule_file : Entry → Bool
is_rule_file e = not e.is_dir && has_suffix e.name (codes ".txt")

-- The name, the size and the time of each rule file; `none` if an entry cannot be inspected.
unfoldable pub fingerprint : List Entry → Option Text
fingerprint [] = some []
fingerprint (e ∷ es) =
    let rest = fingerprint es in
    if not (is_rule_file e) then rest else elim e.stamp [
      | none ↦ none
      | some stamp ↦ elim rest [
        | none ↦ none
        | some s ↦ some (e.name ++ (b':' ∷ (stamp ++ (b';' ∷ s))))
      ]
    ]

module _ (lib : Libs) (hash : Rules → Text) where
  -- The loop over the entries that parses each rule file.
  unfoldable pub read_rules : List Entry → Rules → Option Rules
  read_rules [] rules = some rules
  read_rules (e ∷ es) rules =
      let skipped = read_rules es rules in
      if not (is_rule_file e) then skipped else elim e.lines [
        | none ↦ none
        | some lines ↦ read_rules es (record {
          allowed = process_raw lib (parse_raw_file lib lines).0 rules.allowed;
          blocked = process_raw lib (parse_raw_file lib lines).1 rules.blocked;
        })
      ]

  -- What `Load` does with the rules that it has read.
  unfoldable pub commit : State → Text → Rules → State × Outcome
  commit st print new =
      if not (is_empty st.last_semantic_hash) && eq_text st.last_semantic_hash (hash new)
      then (record st { last_dir_fingerprint = print }, loaded false)
      else (
        record { rules = new; last_dir_fingerprint = print; last_semantic_hash = hash new },
        loaded true,
      )

  unfoldable pub load_entries : State → Bool → List Entry → State × Outcome
  load_entries st opens entries = elim (fingerprint entries) [
    | none ↦ (st, error)
    | some print ↦
        if not (is_empty st.last_dir_fingerprint) && eq_text print st.last_dir_fingerprint
        then (st, loaded false)
        else if not opens
        then (st, error)
        else elim (read_rules entries empty_rules) [
          | none ↦ (st, error)
          | some new ↦ commit st print new
        ]
  ]

  unfoldable pub load : State → Listing → State × Outcome
  load st failed = (st, error)
  load st missing = if is_empty st.last_semantic_hash then (st, loaded false) else (
    record { rules = empty_rules; last_dir_fingerprint = []; last_semantic_hash = [] },
    loaded true,
  )
  load st (listed opens entries) = load_entries st opens entries
