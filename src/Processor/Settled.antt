-- ===== src/Processor/Settled.antt =====
-- `Process` as a whole: no requested function is forgotten.
use recon_sr.Base.{
  ◌≡◌, ◌≢◌, ◌⊎◌, inl, inr, refl, subst, arith, false, ◌&&◌, List, [], ◌∷◌, map, some, Text, Memᴰ,
  >>=-eq-some, some-inj, ⊎_elim,
}
use mathlib.Core.List.Memᴰ
use recon_sr.Libs.{Libs}
use recon_sr.Scope.RuleSets.{Rules}
use recon_sr.Schema.{ProcessorInputData, RepoError, ProcessorToRepoData}
use recon_sr.Processor.Context.{Messages, is_nil}
use recon_sr.Processor.Run.{Run}
use recon_sr.Processor.Process.{
  edges, Closing, close_functions, Processed, to_group, finish, run_loop, process,
}
use recon_sr.Processor.Answers.{
  HasError, IsHonest, Answered, run_loop-IsHonest, close_functions-Answered,
}
use recon_sr.Processor.Findings.{IsReported, HasFinding-IsReported}
use recon_sr.Processor.Keys.{Key, entity_key, reachable_keys}

HasError-some : (fn : Text) (es : List RepoError) → HasError fn es → is_nil es ≡ false
HasError-some fn [] (e, m, p) = absurd (Memᴰ.not-nil m)
HasError-some fn (e ∷ es) h = refl

ne_nil-is_nil : {A : Type 0} (xs : List A) → xs ≢ [] → is_nil xs ≡ false
ne_nil-is_nil [] h = absurd (h refl)
ne_nil-is_nil (x ∷ xs) h = refl

module _ (lib : Libs) (rules : Rules) (msg : Messages) (input : ProcessorInputData) where
  -- The packet says something of the function: an error, that it found nothing, or a result that
  -- the module returned for it, in the group of the result's source.
  abbrev pub IsSettled : List Key → Text → ProcessorToRepoData → Type 0
  IsSettled ks fn d =
      HasError fn d.errors
      ⊎ Memᴰ fn d.functions_without_results
      ⊎ IsReported lib rules msg input ks d.groups fn

  packet_sent :
      (ks : List Key) (run : Run) (c : Closing) (fn : Text)
      → IsHonest lib rules msg input ks run
      → Answered run c fn
      → (is_nil run.returned && is_nil c.closing_errors ≡ false)
        × (HasError fn c.closing_errors
            ⊎ Memᴰ fn c.without_results
            ⊎ IsReported lib rules msg input ks (map to_group run.groups) fn)
  unfolding Answered
  packet_sent ks run c fn honest a =
      ⊎_elim (λ e. let some_error = HasError-some fn c.closing_errors e in (ground arith, inl e))
        (λ r.
          ⊎_elim
            (λ (m, ne). let given = ne_nil-is_nil run.returned ne in (ground arith, inr (inl m)))
            (λ (m, ne).
              let given = ne_nil-is_nil run.returned ne in
              let finding = honest.found_some fn m in
              (
                ground arith,
                inr (inr (HasFinding-IsReported lib rules msg input ks run.groups fn finding)),
              ))
            r)
        a

  finish-IsSettled :
      (ks : List Key) (run : Run) (p : Processed) (fn : Text)
      → IsHonest lib rules msg input ks run
      → finish lib rules msg input run ≡ p
      → Memᴰ fn input.requested_functions
      → (d : ProcessorToRepoData) × (p.packet ≡ some d) × IsSettled ks fn d
  unfolding finish
  finish-IsSettled ks run p fn honest h m =
      let first : Closing = record {
        closing_errors = run.errors;
        closing_with_errors = run.with_errors;
        without_results = [];
      } in
      let c = close_functions msg input.module_name run first input.requested_functions in
      let (_, answered) =
        close_functions-Answered msg input.module_name run first input.requested_functions
          honest.erred in
      let (sent, says) = packet_sent ks run c fn honest (answered fn m) in
      subst (λ (q : Processed). (d : ProcessorToRepoData) × (q.packet ≡ some d) × IsSettled ks fn d)
        h (rw sent (_, refl, says))

  -- No function is forgotten: whenever a function was requested, `Process` sends a packet to the
  -- repository, and the packet has an error of that function, or lists it among the functions
  -- without results, or has a result that the module returned for that function: the group of the
  -- result's source has an entry with the type, the value and the identifier that the result has
  -- after normalisation. The sources and targets are resolved against the keys that the walk over
  -- the results finds.
  pub process_answers :
      (p : Processed) (fn : Text)
      → process lib rules msg input ≡ some p
      → Memᴰ fn input.requested_functions
      → (ks : List Key) × (reachable_keys
            (edges lib rules msg input)
            (entity_key input.source_entity)
          ≡ some ks)
        × (d : ProcessorToRepoData) × (p.packet ≡ some d)
        × IsSettled ks fn d
  unfolding process
  process_answers p fn h m =
      let (ks, walked, same) =
        >>=-eq-some (reachable_keys (edges lib rules msg input) (entity_key input.source_entity)) _
          h in
      let (d, sent, says) =
        finish-IsSettled ks (run_loop lib rules msg input ks) p fn
          (run_loop-IsHonest lib rules msg input ks) (some-inj same) m in
      (ks, walked, d, sent, says)
