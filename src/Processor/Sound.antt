-- ===== src/Processor/Sound.antt =====
-- `Process` as a whole: it always answers, and what it sends obeys the rules.
use recon_sr.Base.{
  ◌≡◌, sym, subst, arith, List, [], ◌∷◌, map, ℕ, Option, none, some, All, >>=-eq-some, some-inj,
}
use recon_sr.Libs.{Libs}
use recon_sr.Scope.RuleSets.{Rules}
use recon_sr.Schema.{ProcessorInputData, ValidResult, ResultGroup, ProcessorToRepoData}
use recon_sr.Processor.Keys.{Key, entity_key, reachable_keys}
use recon_sr.Processor.Context.{Messages}
use recon_sr.Processor.Run.{Groups, Run}
use recon_sr.Processor.Process.{
  start, Processed, to_group, total_results, edges, finish, run_loop, process,
}
use recon_sr.Processor.WalkEnds.{reachable_keys_total}
use recon_sr.Processor.Firewall.{IsAdmissible, AllAdmissible, process_executions-AllAdmissible}

module _ (lib : Libs) (rules : Rules) (msg : Messages) (input : ProcessorInputData) where
  -- `Process` answers on every input: the walk over the sources never runs out of fuel.
  pub process_total : (p : Processed) × (process lib rules msg input ≡ some p)
  unfolding process
  process_total =
      let (ks, e) =
        reachable_keys_total (edges lib rules msg input) (entity_key input.source_entity) in
      (finish lib rules msg input (run_loop lib rules msg input ks), rw e)

  pub process-run :
      (p : Processed)
      → process lib rules msg input ≡ some p
      → (ks : List Key) × (finish lib rules msg input (run_loop lib rules msg input ks) ≡ p)
  unfolding process
  process-run p h =
      let (ks, _, e) =
        >>=-eq-some (reachable_keys (edges lib rules msg input) (entity_key input.source_entity)) _
          h in
      (ks, some-inj e)

  start-groups : (start msg input).groups ≡ []
  unfolding start
  start-groups = ground arith

  run_loop-AllAdmissible :
      (ks : List Key) → AllAdmissible lib rules (run_loop lib rules msg input ks).groups
  unfolding run_loop
  run_loop-AllAdmissible ks =
      process_executions-AllAdmissible lib rules msg input ks (start msg input) input.executions
        (subst (AllAdmissible lib rules) (sym start-groups) tt)

to_groups-All :
    (P : ValidResult → Type 0) (gs : Groups)
    → All (λ g. All P g.1) gs
    → All (λ (g : ResultGroup). All P g.results) (map to_group gs)
to_groups-All P [] h = tt
to_groups-All P (g ∷ gs) h = (h.0, to_groups-All P gs h.1)

module _ (lib : Libs) (rules : Rules) (msg : Messages) (input : ProcessorInputData) where
  pub finish-groups :
      (run : Run) (p : Processed) (d : ProcessorToRepoData)
      → finish lib rules msg input run ≡ p
      → p.packet ≡ some d
      → (d.groups ≡ map to_group run.groups) × (p.tokens ≡ total_results d.groups)
  unfolding finish
  finish-groups run p d h e = ground arith

  -- Every result that `Process` sends to the repository is marked out of scope if the user's
  -- rules say so, has a category, and carries well-formed tags only; and the tokens that it adds
  -- for the packet are as many as the results.
  pub process-IsAdmissible :
      (p : Processed) (d : ProcessorToRepoData)
      → process lib rules msg input ≡ some p
      → p.packet ≡ some d
      → All (λ (g : ResultGroup). All (IsAdmissible lib rules) g.results) d.groups
        × (p.tokens ≡ total_results d.groups)
  process-IsAdmissible p d h e =
      let (ks, same) = process-run lib rules msg input p h in
      let (gs, tokens) = finish-groups (run_loop lib rules msg input ks) p d same e in
      (
        rw gs (
            to_groups-All (IsAdmissible lib rules) (run_loop lib rules msg input ks).groups
              (run_loop-AllAdmissible lib rules msg input ks)),
        tokens,
      )

-- The results of the packet, if there is one.
abbrev pub sent_results : Option ProcessorToRepoData → ℕ
sent_results none = 0
sent_results (some d) = total_results d.groups

module _ (lib : Libs) (rules : Rules) (msg : Messages) (input : ProcessorInputData) where
  finish-tokens :
      (run : Run)
      → (finish lib rules msg input run).tokens
        ≡ sent_results (finish lib rules msg input run).packet
  unfolding finish
  finish-tokens run = ground arith

  pub process-tokens :
      (p : Processed) → process lib rules msg input ≡ some p → p.tokens ≡ sent_results p.packet
  process-tokens p h =
      let (ks, same) = process-run lib rules msg input p h in
      subst (λ (q : Processed). q.tokens ≡ sent_results q.packet) same
        (finish-tokens (run_loop lib rules msg input ks))
