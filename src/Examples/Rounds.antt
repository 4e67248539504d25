-- ===== src/Examples/Rounds.antt =====
-- A module that was asked for two functions and answered for one.
use recon_sr.Base.{
  ◌≡◌, ◌↔◌, ◌⊎◌, refl, Bool, true, List, [], ◌∷◌, map, none, some, Text, codes, All, Memᴰ, ◌&&◌,
  eq_text, mem_text-false_iff,
}
use recon_sr.Schema.{
  InputExecution, ProcessorInputData, ProcessorToRepoData, ValidResult, ResultGroup,
}
use recon_sr.Dispatcher.Tags.{match_tags, required_tags, excluded_tags}
use recon_sr.Dispatcher.TagLaws.{Satisfies, match_tags_iff}
use recon_sr.Processor.Keys.{entity_key, Key, Edge, mem_key, reachable_keys}
use recon_sr.Processor.Reachable.{Reach}
use recon_sr.Processor.WalkEnds.{reachable_keys_total}
use recon_sr.Processor.WalkFinds.{reachable_keys-Reach}
use recon_sr.Processor.Process.{Processed, total_results, edges, process}
use recon_sr.Processor.Firewall.{IsAdmissible}
use recon_sr.Processor.Sound.{process_total, process-IsAdmissible}
use recon_sr.Processor.Violation.{process-violation}
use recon_sr.Processor.Settled.{IsSettled, process_answers}
use recon_sr.Examples.Inputs.{
  com_libs, example_rules, short_messages, mail_input, mail_execution, running,
}

abbrev key : Text → Key
key v = record { type = codes "domain"; value = v }

abbrev loop_edges : List Edge
loop_edges =
    record { from = key (codes "a"); to = key (codes "b") }
    ∷ record { from = key (codes "b"); to = key (codes "a") }
    ∷ []

reachable_keys_total_example :
    (ks : List Key) × (reachable_keys loop_edges (key (codes "a")) ≡ some ks)
reachable_keys_total_example = reachable_keys_total loop_edges (key (codes "a"))

reachable_keys-Reach_example :
    (mem_key (key (codes "b")) (key (codes "b") ∷ key (codes "a") ∷ []) ≡ true)
    ↔ Reach loop_edges (key (codes "a")) (key (codes "b"))
unfolding running
reachable_keys-Reach_example =
    reachable_keys-Reach loop_edges (key (codes "a")) (key (codes "b") ∷ key (codes "a") ∷ [])
      (key (codes "b")) refl

-- What `Process` does with the input of the example.
abbrev mail_processed : Processed
unfolding running
mail_processed = elim (process com_libs example_rules short_messages mail_input) [
  | none ↦ record { packet = none; tokens = 0 }
  | some p ↦ p
]

abbrev mail_packet : ProcessorToRepoData
unfolding running
mail_packet = elim mail_processed.packet [
  | none ↦ record {
    project_id = [];
    module_name = [];
    source_entity_id = 0;
    source_entity = mail_input.source_entity;
    groups = [];
    functions_without_results = [];
    function_raw_data = [];
    errors = [];
  }
  | some d ↦ d
]

abbrev is_shut_out : ValidResult → Bool
is_shut_out r = eq_text r.value (codes "mail.example.com") && r.out_of_scope

-- The mail server is stored, and it is out of scope.
mail_stored :
    map (λ (g : ResultGroup). map is_shut_out g.results) mail_packet.groups ≡ (true ∷ []) ∷ []
unfolding running mail_packet mail_processed
mail_stored = refl

process_total_example :
    (p : Processed) × (process com_libs example_rules short_messages mail_input ≡ some p)
process_total_example = process_total com_libs example_rules short_messages mail_input

process-IsAdmissible_example :
    All
      (λ (g : ResultGroup). All (IsAdmissible com_libs example_rules) g.results)
      mail_packet.groups
    × (mail_processed.tokens ≡ total_results mail_packet.groups)
unfolding running mail_packet mail_processed
process-IsAdmissible_example =
    process-IsAdmissible com_libs example_rules short_messages mail_input mail_processed mail_packet
      refl refl

process_answers_example :
    (ks : List Key) × (reachable_keys
        (edges com_libs example_rules short_messages mail_input)
        (entity_key mail_input.source_entity)
      ≡ some ks)
    × (d : ProcessorToRepoData) × (mail_processed.packet ≡ some d)
    × IsSettled com_libs example_rules short_messages mail_input ks (codes "txt") d
unfolding running mail_packet mail_processed
process_answers_example =
    process_answers com_libs example_rules short_messages mail_input mail_processed (codes "txt")
      refl (Memᴰ.tail (Memᴰ.head refl))

abbrev tag_groups : List (List Text)
tag_groups = (codes "mx" ∷ codes "!ns" ∷ []) ∷ []

match_tags_iff_example :
    (match_tags (codes "mx" ∷ []) (map required_tags tag_groups) (map excluded_tags tag_groups)
      ≡ true)
    ↔ ((tag_groups ≡ [])
        ⊎ ((group : List Text) × Memᴰ group tag_groups × All (Satisfies (codes "mx" ∷ [])) group))
match_tags_iff_example = match_tags_iff (codes "mx" ∷ []) tag_groups

abbrev zone_execution : InputExecution
zone_execution = record mail_execution { function = codes "zone" }

-- The module also returned a function `zone` that nobody asked for.
abbrev rogue_input : ProcessorInputData
rogue_input = record mail_input { executions = mail_execution ∷ zone_execution ∷ [] }

abbrev rogue_processed : Processed
unfolding running
rogue_processed = elim (process com_libs example_rules short_messages rogue_input) [
  | none ↦ mail_processed
  | some p ↦ p
]

abbrev rogue_packet : ProcessorToRepoData
unfolding running
rogue_packet = elim rogue_processed.packet [ none ↦ mail_packet | some d ↦ d ]

process-violation_example : (rogue_packet.groups ≡ []) × (rogue_processed.tokens ≡ 0)
unfolding running rogue_packet rogue_processed
process-violation_example =
    process-violation com_libs example_rules short_messages rogue_input zone_execution
      rogue_processed rogue_packet (λ e. cc) (Memᴰ.tail (Memᴰ.head refl))
      ((mem_text-false_iff (codes "zone") rogue_input.requested_functions).0 refl) refl refl
