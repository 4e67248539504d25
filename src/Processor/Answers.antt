-- ===== src/Processor/Answers.antt =====
-- Every function that was asked for is answered, and a module that answers for another function
-- has all its results refused.
use recon_sr.Base.{
  ◌≡◌, ◌≢◌, ◌⊎◌, inl, inr, refl, sym, subst, ◌||◌, List, [], ◌∷◌, ◌++◌, map, Text, Bool-cases,
  mem_text, mem_text_iff, Memᴰ, ⊎_elim,
}
use mathlib.Core.List.Memᴰ
use recon_sr.Libs.{Libs}
use recon_sr.Scope.RuleSets.{Rules}
use recon_sr.Schema.{InputResult, ProcessorInputData, RepoError, InputError}
use recon_sr.Processor.Keys.{Key}
use recon_sr.Processor.Context.{Messages, is_nil, rogue_functions, system_errors, violation_error}
use recon_sr.Processor.Run.{Groups, Run, add_to_group, source_ref, declared_scope, valid_result}
use recon_sr.Processor.Process.{
  start, Closing, close_function, close_functions, run_loop, error_functions,
}
use recon_sr.Processor.Rule.{IsGiven, found, process_executions-keeps}
use recon_sr.Processor.Findings.{HasFinding, HasFinding-keeps, add_to_group-new}

abbrev pub HasError : Text → List RepoError → Type 0
HasError fn es = (e : RepoError) × Memᴰ e es × (e.function ≡ fn)

HasError-left : (fn : Text) (es fs : List RepoError) → HasError fn es → HasError fn (es ++ fs)
HasError-left fn es fs (e, m, p) = (e, Memᴰ.append_left fs m, p)

HasError-right : (fn : Text) (es fs : List RepoError) → HasError fn fs → HasError fn (es ++ fs)
HasError-right fn es fs (e, m, p) = (e, Memᴰ.append_right es m, p)

system_errors-HasError :
    (es : List InputError) (fn : Text)
    → Memᴰ fn (error_functions es)
    → HasError fn (system_errors es)
unfolding system_errors
system_errors-HasError [] fn m = absurd (Memᴰ.not-nil m)
system_errors-HasError (e ∷ es) fn m =
    ⊎_elim (λ at. (_, Memᴰ.head refl, sym at))
      (λ later. let (d, n, p) = system_errors-HasError es fn later in (d, Memᴰ.tail n, p))
      (Memᴰ.cases_cons m)

map-HasError :
    (msg : Messages) (name : Text) (rogue fns : List Text) (fn : Text)
    → Memᴰ fn fns
    → HasError fn (map (violation_error msg name rogue) fns)
map-HasError msg name rogue fns fn m = (_, Memᴰ.map (violation_error msg name rogue) m, refl)

module _ (lib : Libs) (rules : Rules) (msg : Messages) (input : ProcessorInputData)
    (ks : List Key) where
  -- The flags of the main loop tell the truth, for each function.
  pub record IsHonest (run : Run) : Type 0 where
    pub erred : (fn : Text) → Memᴰ fn run.with_errors → HasError fn run.errors
    pub found_some :
        (fn : Text) → Memᴰ fn run.with_findings → HasFinding lib rules msg input ks run.groups fn

  start-IsHonest : IsHonest (start msg input)
  unfolding start
  start-IsHonest =
      let requested = input.requested_functions in
      let rogue = rogue_functions requested input.executions in
      elim (Bool-cases (is_nil rogue || is_nil requested)) [
        | inl e ↦ rw e (record {
          erred = system_errors-HasError input.errors;
          found_some = λ fn m. absurd (Memᴰ.not-nil m);
        })
        | inr e ↦ rw e (record {
          erred = λ fn m.
              ⊎_elim
                (λ r.
                  HasError-right fn _ _ (map-HasError msg input.module_name rogue requested fn r))
                (λ s. HasError-left fn _ _ (system_errors-HasError input.errors fn s))
                (Memᴰ.append_cases requested m);
          found_some = λ fn m. absurd (Memᴰ.not-nil m);
        })
      ]

  new-HasFinding :
      (gs : Groups) (fn : Text) (res : InputResult)
      → IsGiven input.executions fn res
      → HasFinding lib rules msg input ks
          (add_to_group
            (source_ref lib rules msg input ks res)
            (declared_scope lib rules msg input ks res)
            (valid_result lib rules msg input ks fn res)
            gs)
          fn
  new-HasFinding gs fn res given = (
    res,
    given,
    add_to_group-new (declared_scope lib rules msg input ks res)
        (valid_result lib rules msg input ks fn res) (source_ref lib rules msg input ks res) gs,
  )

  found-IsHonest :
      (run : Run) (fn : Text) (res : InputResult)
      → IsGiven input.executions fn res
      → IsHonest run
      → IsHonest (found lib rules msg input ks fn run res)
  found-IsHonest run fn res given h = record {
    erred = h.erred;
    found_some = λ f m.
        ⊎_elim
          (λ at.
            subst
              (HasFinding lib rules msg input ks (found lib rules msg input ks fn run res).groups)
              (sym at) (new-HasFinding run.groups fn res given))
          (λ later.
            HasFinding-keeps lib rules msg input ks run.groups
              (source_ref lib rules msg input ks res) (declared_scope lib rules msg input ks res)
              (valid_result lib rules msg input ks fn res) f (h.found_some f later))
          (Memᴰ.cases_cons m);
  }

  pub run_loop-IsHonest : IsHonest (run_loop lib rules msg input ks)
  unfolding run_loop
  run_loop-IsHonest =
      process_executions-keeps lib rules msg input ks input.executions IsHonest
        (record {
          at_report = λ run fn t u h. record {
            erred = λ f m.
                ⊎_elim (λ at. HasError-right f run.errors _ (_, Memᴰ.head refl, sym at))
                  (λ later. HasError-left f run.errors _ (h.erred f later)) (Memᴰ.cases_cons m);
            found_some = h.found_some;
          };
          at_found = λ run fn res given good ne h. found-IsHonest run fn res given h;
          at_raw = λ run raw h. record { erred = h.erred; found_some = h.found_some };
          at_returned = λ run fn h. record { erred = h.erred; found_some = h.found_some };
        })
        (start msg input) input.executions (λ e at. at) start-IsHonest

-- What the closing loop says of a function.
unfoldable pub Answered : Run → Closing → Text → Type 0
Answered run c fn =
    HasError fn c.closing_errors
    ⊎ Memᴰ fn c.without_results × (run.returned ≢ [])
    ⊎ Memᴰ fn run.with_findings × (run.returned ≢ [])

abbrev pub IsTruthful : Closing → Type 0
IsTruthful c = (fn : Text) → Memᴰ fn c.closing_with_errors → HasError fn c.closing_errors

-- The loop forgets nothing that it has recorded.
pub record Grows (c c' : Closing) : Type 0 where
  pub more_errors : (fn : Text) → HasError fn c.closing_errors → HasError fn c'.closing_errors
  pub more_empty : (fn : Text) → Memᴰ fn c.without_results → Memᴰ fn c'.without_results

Answered-Grows :
    (run : Run) (c c' : Closing) (fn : Text) → Grows c c' → Answered run c fn → Answered run c' fn
unfolding Answered
Answered-Grows run c c' fn g a =
    ⊎_elim (λ e. inl (g.more_errors fn e))
      (λ r. inr (⊎_elim (λ (m, ne). inl (g.more_empty fn m, ne)) inr r)) a

mem-ne-nil : (x : Text) (xs : List Text) → Memᴰ x xs → xs ≢ []
mem-ne-nil x xs m e = Memᴰ.not-nil (subst (Memᴰ x) e m)

module _ (msg : Messages) (name : Text) (run : Run) where
  close_function-step :
      (c : Closing) (fn : Text)
      → IsTruthful c
      → IsTruthful (close_function msg name run c fn)
        × Grows c (close_function msg name run c fn)
        × Answered run (close_function msg name run c fn) fn
  unfolding close_function Answered
  close_function-step c fn t = elim (Bool-cases (mem_text fn c.closing_with_errors)) [
    | inl erred ↦ rw erred (
      t,
      record { more_errors = λ f h. h; more_empty = λ f m. m },
      inl (t fn ((mem_text_iff fn c.closing_with_errors).0 erred)),
    )
    | inr clean ↦ rw clean (elim (Bool-cases (mem_text fn run.returned)) [
      | inr lost ↦ rw lost (
        λ f m.
            ⊎_elim (λ at. HasError-right f c.closing_errors _ (_, Memᴰ.head refl, sym at))
              (λ later. HasError-left f c.closing_errors _ (t f later)) (Memᴰ.cases_cons m),
        record { more_errors = λ f h. HasError-left f c.closing_errors _ h; more_empty = λ f m. m },
        inl (HasError-right fn c.closing_errors _ (_, Memᴰ.head refl, refl)),
      )
      | inl given ↦ rw given (elim (Bool-cases (mem_text fn run.with_findings)) [
        | inl hit ↦ rw hit (
          t,
          record { more_errors = λ f h. h; more_empty = λ f m. m },
          inr (
              inr (
                (mem_text_iff fn run.with_findings).0 hit,
                mem-ne-nil fn _ ((mem_text_iff fn run.returned).0 given),
              )),
        )
        | inr miss ↦ rw miss (
          t,
          record { more_errors = λ f h. h; more_empty = λ f m. Memᴰ.append_left (fn ∷ []) m },
          inr (
              inl (
                Memᴰ.append_right c.without_results (Memᴰ.head refl),
                mem-ne-nil fn _ ((mem_text_iff fn run.returned).0 given),
              )),
        )
      ])
    ])
  ]

  pub close_functions-Answered :
      (c : Closing) (fns : List Text)
      → IsTruthful c
      → Grows c (close_functions msg name run c fns)
        × ((fn : Text) → Memᴰ fn fns → Answered run (close_functions msg name run c fns) fn)
  unfolding close_functions
  close_functions-Answered c [] t =
      (record { more_errors = λ f h. h; more_empty = λ f m. m }, λ fn m. absurd (Memᴰ.not-nil m))
  close_functions-Answered c (fn ∷ fns) t =
      let (t', g, a) = close_function-step c fn t in
      let (g', later) = close_functions-Answered (close_function msg name run c fn) fns t' in
      (
        record {
          more_errors = λ f h. g'.more_errors f (g.more_errors f h);
          more_empty = λ f m. g'.more_empty f (g.more_empty f m);
        },
        λ f m.
            ⊎_elim
              (λ at.
                subst
                  (Answered run
                    (close_functions msg name run (close_function msg name run c fn) fns))
                  (sym at) (Answered-Grows run _ _ fn g' a))
              (later f) (Memᴰ.cases_cons m),
      )
