-- ===== src/Examples/Inputs.antt =====
-- The inputs that the examples share: a list of public suffixes with one member, rules, messages.
use recon_sr.Base.{
  true, false, ◌||◌, [], ◌∷◌, none, some, codes, eq_text, mem_text, lookup, insert, if◌then◌else◌,
}
use recon_sr.Libs.{Libs}
use recon_sr.Dispatcher.Config.{
  add_function, add_functions, merged_functions, override, cascade, user_limit, user_delay,
  is_enabled, keep_known, all_capabilities, clean_settings, index_types, entry_for, limit_for,
  load_function, load_functions, load_module, load_modules, load_memory_config, actionable_in,
  is_actionable,
}
use recon_sr.Dispatcher.Routing.{
  is_completed, function_types, flight_key, claim, run_function, run_functions, run_entry,
  run_entries, item_results, settle, dispatch_items,
}
use recon_sr.Pipeline.{give_back}
use recon_sr.Strings.Ends.{last_is}
use recon_sr.Strings.{
  has_suffix, has_prefix, trim_prefix, trim_suffix, contains, index_byte, last_index_byte,
  lower_byte, upper_byte, to_lower, to_upper, replace_byte, trim_left_set,
}
use recon_sr.Strings.Split.{split, join_rest, join}
use recon_sr.Strings.Trim.{
  space_width, space_width_end, skip_space, trim_space, fields_from, fields,
}
use recon_sr.Net.{eq_bytes, to4}
use recon_sr.Net.Cidr.{
  dtoi_from, dtoi, cidr_mask, mask_bytes, parse_cidr, eq_masked, network_number, net_contains,
}
use recon_sr.Net.Format.{format_byte, format_ipv4}
use recon_sr.Net.Parse.{
  ipv4_fields, hex_group, after_group, embedded, ipv6_groups, zeros, expand, parse_ipv6, addr_form,
  parse_addr, parse_ip,
}
use recon_sr.Validator.Domain.{
  last_part, label_ok, host_result, anchor_loop, icann_anchor, host_ok, validate_ascii,
  validate_domain,
}
use recon_sr.Validator.Ip.{is_ambiguous_ipv4, validate_ip}
use recon_sr.Validator.Asn.{with_as, validate_asn}
use recon_sr.Validator.Email.{
  is_standard, is_extra_atext, scan_step, scan_local, local_words, inner_ok, atom_extra, word_extra,
  words_extra, email_domain, email_at, validate_email,
}
use recon_sr.Validator.{detect, validate}
use recon_sr.Validator.Types.{validate_tag}
use recon_sr.Scope.RuleSets.{
  RuleSet, Rules, no_rules, has_generic, add_set, add_dot_domain, with_prefix_length, process_value,
  process_section, process_raw,
}
use recon_sr.Scope.{domain_walk, allowed_walk, is_out_of_scope, is_explicitly_allowed}
use recon_sr.Scope.Parse.{
  add_field, add_fields, strip_comment, open_section, scan_line, scan_lines, parse_raw_file,
}
use recon_sr.Scope.Load.{fingerprint, read_rules, commit, load_entries, load}
use recon_sr.Processor.Keys.{
  eq_key, mem_key, source_key, targets, visit, visit_all, walk, reachable_keys,
}
use recon_sr.Processor.Context.{
  Messages, is_rogue, rogue_functions, system_errors, failed_text, is_skipped, edges_of, all_edges,
  resolve_ref,
}
use recon_sr.Processor.Run.{
  eq_ref, same_result, add_tags, merge_result, add_result, add_to_group, bad_tag, source_ref,
  declared_scope, applied_flag, valid_result, is_self, is_incomplete, process_result,
  process_results, process_execution, process_executions,
}
use recon_sr.Processor.Process.{
  start, close_function, close_functions, total_results, edges, finish, run_loop, process,
}
use recon_sr.Dispatcher.Tags.{
  contains_tag, is_exclusion, required_tags, excluded_tags, group_matches, match_groups, match_tags,
}
use recon_sr.Schema.{Entity, InputResult, InputExecution, ProcessorInputData}

-- The only public suffix is `com`, and the only registered domain is `example.com`.
abbrev pub com_libs : Libs
com_libs = record {
  to_ascii = λ s. some s;
  public_suffix = λ s. (codes "com", eq_text s (codes "com") || has_suffix s (codes ".com"));
  etld_plus_one = λ s.
      if eq_text s (codes "example.com") || has_suffix s (codes ".example.com")
      then some (codes "example.com")
      else none;
  lower_runes = λ s. s;
  upper_runes = λ s. s;
}

abbrev pub allowed_rules : RuleSet
allowed_rules = record no_rules {
  dot_domains = codes ".shop.example.com" ∷ [];
  generic = (codes "asn", codes "as7" ∷ []) ∷ [];
}

abbrev pub blocked_rules : RuleSet
blocked_rules = record no_rules {
  dot_domains = codes ".example.com" ∷ [];
  generic = (codes "asn", codes "as7" ∷ codes "as8" ∷ []) ∷ [];
}

abbrev pub example_rules : Rules
example_rules = record { allowed = allowed_rules; blocked = blocked_rules }

abbrev pub short_messages : Messages
short_messages = record {
  violation = λ name fns. name;
  invalid_tag = λ fn tag. tag;
  incomplete = λ fn type value. fn;
  missing = λ name fn. fn;
}

abbrev pub example_entity : Entity
example_entity = record {
  type = codes "domain";
  category = codes "node";
  value = codes "example.com";
  tags = [];
}

-- A result of the function `sub`: the name of a mail server.
abbrev pub mail_result : InputResult
mail_result = record {
  type = codes "domain";
  category = [];
  value = codes "Mail.example.com";
  context = codes "mx";
  source = none;
  local_id = 0;
  applied = true;
  out_of_scope = false;
  tags = codes "mx" ∷ [];
}

abbrev pub mail_execution : InputExecution
mail_execution = record {
  function = codes "sub";
  results = mail_result ∷ [];
  raw_data = [];
  error = none;
}

-- Two functions were requested, and the module answered for one of them.
abbrev pub mail_input : ProcessorInputData
mail_input = record {
  project_id = codes "p";
  module_name = codes "dns";
  source_entity_id = 1;
  source_entity = example_entity;
  executions = mail_execution ∷ [];
  requested_functions = codes "sub" ∷ codes "txt" ∷ [];
  function_input_types = (codes "sub", codes "subdomain" ∷ []) ∷ [];
  errors = [];
}

-- What an example unfolds to run the program.
unfoldable pub running : Unit {0}
unfolding last_is eq_text mem_text lookup insert has_prefix has_suffix trim_prefix trim_suffix
    contains index_byte last_index_byte lower_byte upper_byte to_lower to_upper replace_byte
    trim_left_set split join_rest join space_width space_width_end skip_space trim_space fields_from
    fields eq_bytes to4 dtoi_from dtoi cidr_mask mask_bytes parse_cidr eq_masked network_number
    net_contains format_byte format_ipv4 ipv4_fields hex_group after_group embedded ipv6_groups
    zeros expand parse_ipv6 addr_form parse_addr parse_ip last_part label_ok host_result anchor_loop
    icann_anchor host_ok validate_ascii validate_domain is_ambiguous_ipv4 validate_ip with_as
    validate_asn is_standard is_extra_atext scan_step scan_local local_words inner_ok atom_extra
    word_extra words_extra email_domain email_at validate_email detect validate validate_tag
    has_generic add_set add_dot_domain with_prefix_length process_value process_section process_raw
    domain_walk allowed_walk is_out_of_scope is_explicitly_allowed add_field add_fields
    strip_comment open_section scan_line scan_lines parse_raw_file fingerprint read_rules commit
    load_entries load eq_key mem_key source_key targets visit visit_all walk reachable_keys is_rogue
    rogue_functions system_errors failed_text is_skipped edges_of all_edges resolve_ref eq_ref
    same_result add_tags merge_result add_result add_to_group bad_tag source_ref declared_scope
    applied_flag valid_result is_self is_incomplete process_result process_results process_execution
    process_executions start close_function close_functions total_results edges finish run_loop
    process contains_tag is_exclusion required_tags excluded_tags group_matches match_groups
    match_tags add_function add_functions merged_functions override cascade user_limit user_delay
    is_enabled keep_known all_capabilities clean_settings index_types entry_for limit_for
    load_function load_functions load_module load_modules load_memory_config actionable_in
    is_actionable is_completed function_types flight_key claim run_function run_functions run_entry
    run_entries item_results settle dispatch_items give_back
running = tt
