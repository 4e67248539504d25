-- ===== src/Examples/Lookups.antt =====
-- A vulnerability with its weakness, platform and scores, and a software that it affects.
use recon_sr.Base.{
  ℕ, ◌+◌, map, ◌≡◌, ◌↔◌, refl, true, false, List, [], ◌∷◌, none, some, Text, codes, Memᴰ, ltb,
  length,
}
use recon_sr.Schema.{InputResult}
use recon_sr.Modules.Versions.{
  below, level, above, leading_digits, digits_value, extract_leading_int, version_parts,
  part_number, compare_parts, compare_versions,
}
use recon_sr.Modules.VersionOrder.{Smaller}
use recon_sr.Modules.Numbers.{IsNumberAt, compare_versions-Smaller}
use recon_sr.Modules.InRange.{IsInRange, is_version_in_range-IsInRange}
use recon_sr.Modules.Applicable.{IsHit, is_cve_applicable_iff}
use recon_sr.Modules.Ranges.{
  Version, Affected, is_unknown, is_wildcard, version_index, is_valid_specific_cpe,
  normalize_start_bound, exceeds_upper_bounds, evaluate_changes, evaluate_status, matches_product,
  before_first, under_legacy_bound, parse_legacy_version_string, is_between, is_in_range_from,
  is_version_in_range, any_version, any_product, is_cve_applicable,
}
use recon_sr.Modules.Advisory.{CveResponse}
use recon_sr.Modules.Dates.{first_layout, normalize_day}
use recon_sr.Modules.Writing.{Writing, put_result, note_cve, note_cpe}
use recon_sr.Modules.Extract.{
  Tools, add_unless_empty, extract_criteria, nodes_of, matches_of, extract_cpes, has_cwe_results,
  is_valid_cwe, cwe_ids, nvd_values, extract_option, extract_other_metric, get_cwe_description,
  add_cwe, extract_weaknesses, extract_problem_types, extract_nvd_weaknesses, is_exploit,
  extract_exploits, append_cvss, extract_metrics_from, extract_metrics, extract_nvd_metrics,
  format_as_percentage,
}
use recon_sr.Modules.Cve.{
  Execution, fetched, set_error, set_raw_from_bytes, add_english, add_title, published_day,
  add_published, add_epss, extract_epss, add_nvd, extract_nvd, extract_vuln_lookup_meta,
  extract_adp, extract_cna, extract_cve_results, add_record, parse_cve_response, take_answer,
  fetch_and_parse_cve, enrich_circl_cve,
}
use recon_sr.Modules.Cpe.{
  Search, target_parts, add_cve, add_applicable, add_records, parse_cpe_response, parse_page,
  take_page, fetch_pages, fetch_and_parse_cpe, search_circl_cpe,
}
use recon_sr.Modules.VulnLookup.{new_execution, run_lookup, exec_lookups}
use recon_sr.Modules.VulnNumbered.{AreNumbered, exec_lookups-AreNumbered}
use recon_sr.Modules.Subdomains.{level_ref, level_type, levels, decompose_results}
use recon_sr.Modules.SubdomainChain.{Chain, decompose_results-Chain}
use recon_sr.Examples.Inputs.{com_libs, running}

looking_up : Unit {0}
unfolding running leading_digits digits_value extract_leading_int version_parts part_number
    compare_parts compare_versions is_unknown is_wildcard version_index is_valid_specific_cpe
    normalize_start_bound exceeds_upper_bounds evaluate_changes evaluate_status matches_product
    before_first under_legacy_bound parse_legacy_version_string is_between is_in_range_from
    is_version_in_range any_version any_product is_cve_applicable first_layout normalize_day
    put_result note_cve note_cpe add_unless_empty extract_criteria nodes_of matches_of extract_cpes
    has_cwe_results is_valid_cwe cwe_ids nvd_values extract_option extract_other_metric
    get_cwe_description add_cwe extract_weaknesses extract_problem_types extract_nvd_weaknesses
    is_exploit extract_exploits append_cvss extract_metrics_from extract_metrics extract_nvd_metrics
    format_as_percentage set_error set_raw_from_bytes add_english add_title published_day
    add_published add_epss extract_epss add_nvd extract_nvd extract_vuln_lookup_meta extract_adp
    extract_cna extract_cve_results add_record parse_cve_response take_answer fetch_and_parse_cve
    enrich_circl_cve target_parts add_cve add_applicable add_records parse_cpe_response parse_page
    take_page fetch_pages fetch_and_parse_cpe search_circl_cpe new_execution run_lookup exec_lookups
looking_up = tt

compare_versions-Smaller_example :
    (f : ℕ → ℕ) × (g : ℕ → ℕ) × ((i : ℕ) → IsNumberAt (codes "v1.9") i (f i))
    × ((i : ℕ) → IsNumberAt (codes "1.10") i (g i))
    × ((compare_versions (codes "v1.9") (codes "1.10") ≡ below) ↔ Smaller f g)
    × ((compare_versions (codes "v1.9") (codes "1.10") ≡ above) ↔ Smaller g f)
    × ((compare_versions (codes "v1.9") (codes "1.10") ≡ level) ↔ ((k : ℕ) → f k ≡ g k))
compare_versions-Smaller_example = compare_versions-Smaller (codes "v1.9") (codes "1.10")

below_test : compare_versions (codes "v1.9") (codes "1.10") ≡ below
unfolding looking_up
below_test = refl

trailing_zero_test : compare_versions (codes "1.2.0") (codes "1.2") ≡ level
unfolding looking_up
trailing_zero_test = refl

abbrev no_matches : Text → List (Text × Text)
no_matches text = []

abbrev old_versions : Version
old_versions = record {
  version = codes "3.0";
  status = codes "affected";
  version_type = codes "semver";
  less_than = codes "3.8.1";
  less_than_or_equal = [];
  changes = record { at = codes "3.7.9"; status = codes "unaffected" } ∷ [];
}

is_version_in_range-IsInRange_example :
    (is_version_in_range com_libs no_matches (codes "3.8.1") old_versions ≡ true)
    ↔ IsInRange com_libs no_matches (codes "3.8.1") old_versions
is_version_in_range-IsInRange_example =
    is_version_in_range-IsInRange com_libs no_matches (codes "3.8.1") old_versions

-- The bound "lessThan" is not in the range, and the start is.
bounds_test :
    (is_version_in_range com_libs no_matches (codes "3.8.1") old_versions ≡ false)
    × (is_version_in_range com_libs no_matches (codes "3.0") old_versions ≡ true)
unfolding looking_up
bounds_test = (refl, refl)

abbrev mail_server : Affected
mail_server = record {
  vendor = codes "postfix";
  product = codes "Postfix";
  default_status = [];
  versions = old_versions ∷ [];
}

is_cve_applicable_iff_example :
    (is_cve_applicable com_libs no_matches (codes "postfix") (codes "3.5") (mail_server ∷ [])
      ≡ true)
    ↔ ((a : Affected) × Memᴰ a (mail_server ∷ [])
        × IsHit com_libs no_matches (codes "postfix") (codes "3.5") a)
unfolding looking_up
is_cve_applicable_iff_example =
    is_cve_applicable_iff com_libs no_matches (codes "postfix") (codes "3.5") (mail_server ∷ [])
      refl

-- From the change on, the versions are not affected.
applicable_test :
    (is_cve_applicable com_libs no_matches (codes "postfix") (codes "3.5") (mail_server ∷ [])
      ≡ true)
    × (is_cve_applicable com_libs no_matches (codes "postfix") (codes "3.8") (mail_server ∷ [])
        ≡ false)
unfolding looking_up
applicable_test = (refl, refl)

abbrev whole_tools : Tools ℕ
whole_tools = record {
  lib = com_libs;
  zero = 0;
  greater = λ a b. ltb b a;
  one_decimal = λ n. (b'0' + n) ∷ [];
  percent = λ n. (b'0' + n) ∷ [];
  parse_float = λ s. none;
  parse_nvd = λ s. none;
  parse_day = λ layout s. none;
  cwe_dictionary = (codes "CWE-79", codes "Cross-site Scripting") ∷ [];
}

abbrev smuggling : CveResponse ℕ
smuggling = record {
  meta = some (record { epss = some (record { epss = codes "0.5"; percentile = [] }); nvd = [] });
  cve_metadata = record {
    cve_id = codes "CVE-2023-51764";
    state = codes "PUBLISHED";
    date_published = codes "2023-12-24";
    date_updated = [];
  };
  cna = record {
    title = [];
    descriptions = record { lang = codes "en"; value = codes "SMTP  smuggling" } ∷ [];
    metrics = [];
    problem_types =
        record {
          descriptions = record { cwe_id = codes "cwe-79"; description = []; type = [] } ∷ [];
        }
        ∷ [];
    affected = mail_server ∷ [];
    cpe_applicability =
        record { nodes = record { cpe_match = record { criteria = codes "cpe:2.3:a" } ∷ [] } ∷ [] }
        ∷ [];
    references = [];
  };
  adp = [];
}

abbrev one_page : Search ℕ
one_page = record {
  fetch = λ cpe page. fetched (codes "{}");
  decode = λ body. some (record { cve_list_v5 = smuggling ∷ []; nvd_list = [] });
  legacy_matches = no_matches;
  cpe_max_pages = 2;
  cpe_per_page = 50;
}

abbrev fresh : Writing
fresh = record { results = []; next_id = 1; cve_cache = []; cpe_cache = [] }

abbrev postfix_cpe : Text
postfix_cpe = codes "cpe:2.3:a:postfix:postfix:3.5:*:*:*:*:*:*:*"

abbrev looked_up : List Text → List Execution
unfolding looking_up
looked_up functions =
    exec_lookups whole_tools one_page (λ body. some smuggling) (λ cve. fetched (codes "{}"))
      (codes "cpe23") postfix_cpe functions fresh

exec_lookups-AreNumbered_example : AreNumbered 1 (
    exec_lookups whole_tools one_page
      (λ body. some smuggling)
      (λ cve. fetched (codes "{}"))
      (codes "cpe23")
      postfix_cpe
      (codes "enrich_circl_cve" ∷ codes "search_circl_cpe" ∷ [])
      fresh)
exec_lookups-AreNumbered_example =
    exec_lookups-AreNumbered whole_tools one_page (λ body. some smuggling)
      (λ cve. fetched (codes "{}")) (codes "cpe23") postfix_cpe
      (codes "enrich_circl_cve" ∷ codes "search_circl_cpe" ∷ []) fresh

-- The vulnerability, its day, summary, weakness with a description, platform and score, and the
-- software.
eight_results :
    map
      (λ (e : Execution). length e.writing.results)
      (looked_up (codes "search_circl_cpe" ∷ codes "enrich_circl_cve" ∷ []))
    ≡ 8 ∷ 0 ∷ []
unfolding looking_up looked_up
eight_results = refl

abbrev taken_apart : List InputResult
unfolding looking_up level_type levels decompose_results
taken_apart =
    decompose_results (codes "subdomain") (codes "a.mail.example.com") (codes "example.com")

decompose_results-Chain_example :
    Chain
      (level_ref (codes "subdomain") (codes "a.mail.example.com"))
      (decompose_results (codes "subdomain") (codes "a.mail.example.com") (codes "example.com"))
      (level_ref (codes "domain") (codes "example.com"))
decompose_results-Chain_example =
    decompose_results-Chain (codes "subdomain") (codes "a.mail") (codes "example.com")

-- The organisation is the last of two levels.
two_levels : map InputResult.value taken_apart ≡ codes "mail.example.com" ∷ codes "example.com" ∷ []
unfolding looking_up taken_apart
two_levels = refl
