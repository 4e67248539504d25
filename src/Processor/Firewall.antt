-- ===== src/Processor/Firewall.antt =====
-- What `Process` lets into the store.
use recon_sr.Base.{
  ◌≡◌, ◌≢◌, inl, inr, arith, Bool, true, List, [], ◌∷◌, ◌++◌, none, Text, All, Bool-cases, codes,
  mem_text, if◌then◌else◌,
}
use recon_sr.Libs.{Libs}
use recon_sr.Strings.{is_empty}
use recon_sr.Validator.Types.{validate_tag}
use recon_sr.Scope.RuleSets.{Rules}
use recon_sr.Scope.{is_out_of_scope}
use recon_sr.Schema.{EntityRef, InputResult, InputExecution, ProcessorInputData, ValidResult}
use recon_sr.Processor.Keys.{Key}
use recon_sr.Processor.Context.{Messages}
use recon_sr.Processor.Rule.{process_executions-keeps}
use recon_sr.Processor.Run.{
  Groups, Run, eq_ref, same_result, add_tags, merge_result, add_result, add_to_group, bad_tag,
  valid_result, declared_scope, source_ref, process_executions,
}

-- What every stored result promises: it is marked out of scope if the user's rules say so, it has
-- a category, and its tags are well formed.
pub record IsAdmissible (lib : Libs) (rules : Rules) (r : ValidResult) : Type 0 where
  pub scoped : is_out_of_scope lib rules r.type r.value ≡ true → r.out_of_scope ≡ true
  pub categorised : r.category ≢ []
  pub tagged : All (λ t. validate_tag t ≡ true) r.tags

module _ (lib : Libs) (rules : Rules) where
  abbrev pub AllAdmissible : Groups → Type 0
  AllAdmissible = All (λ g. All (IsAdmissible lib rules) g.1)

  tags_concat :
      (tags : List Text) (t : Text)
      → All (λ t. validate_tag t ≡ true) tags
      → validate_tag t ≡ true
      → All (λ t. validate_tag t ≡ true) (tags ++ t ∷ [])
  tags_concat [] t h k = (k, tt)
  tags_concat (u ∷ tags) t (p, h) k = (p, tags_concat tags t h k)

  add_tags-valid :
      (ts tags : List Text)
      → All (λ t. validate_tag t ≡ true) tags
      → All (λ t. validate_tag t ≡ true) ts
      → All (λ t. validate_tag t ≡ true) (add_tags tags ts)
  unfolding add_tags
  add_tags-valid [] tags h k = h
  add_tags-valid (t ∷ ts) tags h (p, k) = elim (Bool-cases (mem_text t tags)) [
    | inl e ↦ rw e (add_tags-valid ts tags h k)
    | inr e ↦ rw e (add_tags-valid ts (tags ++ t ∷ []) (tags_concat tags t h p) k)
  ]

  merge-IsAdmissible :
      (declared : Bool) (new old : ValidResult)
      → IsAdmissible lib rules new
      → IsAdmissible lib rules old
      → IsAdmissible lib rules (merge_result declared new old)
  unfolding merge_result
  merge-IsAdmissible declared new old n o = record {
    scoped = λ h. let s = o.scoped h in ground arith;
    categorised = o.categorised;
    tagged = add_tags-valid new.tags old.tags o.tagged n.tagged;
  }

  add_result-AllAdmissible :
      (declared : Bool) (new : ValidResult) (rs : List ValidResult)
      → IsAdmissible lib rules new
      → All (IsAdmissible lib rules) rs
      → All (IsAdmissible lib rules) (add_result declared new rs)
  unfolding add_result
  add_result-AllAdmissible declared new [] n h = (n, tt)
  add_result-AllAdmissible declared new (old ∷ rs) n (o, h) =
      elim (Bool-cases (same_result old new)) [
        | inl e ↦ rw e (merge-IsAdmissible declared new old n o, h)
        | inr e ↦ rw e (o, add_result-AllAdmissible declared new rs n h)
      ]

  add_to_group-AllAdmissible :
      (source : EntityRef) (declared : Bool) (new : ValidResult) (gs : Groups)
      → IsAdmissible lib rules new
      → AllAdmissible gs
      → AllAdmissible (add_to_group source declared new gs)
  unfolding add_to_group
  add_to_group-AllAdmissible source declared new [] n h = ((n, tt), tt)
  add_to_group-AllAdmissible source declared new ((s, rs) ∷ gs) n (o, h) =
      elim (Bool-cases (eq_ref s source)) [
        | inl e ↦ rw e (add_result-AllAdmissible declared new rs n o, h)
        | inr e ↦ rw e (o, add_to_group-AllAdmissible source declared new gs n h)
      ]

bad_tag-none : (ts : List Text) → bad_tag ts ≡ none → All (λ t. validate_tag t ≡ true) ts
unfolding bad_tag
bad_tag-none [] h = tt
bad_tag-none (t ∷ ts) h = (ground arith, bad_tag-none ts (ground arith))

category_set : (c : Text) → (if is_empty c then codes "node" else c) ≢ []
category_set [] = λ h. cc
category_set (x ∷ c) = λ h. cc

module _ (lib : Libs) (rules : Rules) (msg : Messages) (input : ProcessorInputData)
    (reachable : List Key) where
  valid_result-IsAdmissible :
      (fn : Text) (res : InputResult)
      → bad_tag res.tags ≡ none
      → IsAdmissible lib rules (valid_result lib rules msg input reachable fn res)
  unfolding valid_result
  valid_result-IsAdmissible fn res h = record {
    scoped = λ e. ground arith;
    categorised = category_set res.category;
    tagged = bad_tag-none res.tags h;
  }

  pub process_executions-AllAdmissible :
      (run : Run) (execs : List InputExecution)
      → AllAdmissible lib rules run.groups
      → AllAdmissible lib rules (process_executions lib rules msg input reachable run execs).groups
  process_executions-AllAdmissible run execs h =
      process_executions-keeps lib rules msg input reachable execs
        (λ run. AllAdmissible lib rules run.groups)
        (record {
          at_report = λ run fn t u h. h;
          at_found = λ run fn res _ good _ h.
              add_to_group-AllAdmissible lib rules (source_ref lib rules msg input reachable res)
                (declared_scope lib rules msg input reachable res)
                (valid_result lib rules msg input reachable fn res) run.groups
                (valid_result-IsAdmissible fn res good) h;
          at_raw = λ run raw h. h;
          at_returned = λ run fn h. h;
        })
        run execs (λ e at. at) h
