-- ===== src/Inquire/Space/Limits.antt =====
-- The number of calls of the solver in smeme/reasoning/runtime/inquire/space.py.
use smeme.Base.{ℕ, Text, Bool, true, false, is_nil, if◌then◌else◌, none, some, List, [], ◌∷◌, ◌++◌}
use smeme.Theory.Formula.{Formula}
use smeme.Theory.Symbols.{Platform}
use smeme.Runtime.Evaluate.{CheckResult, conclusion_ids}
use smeme.Runtime.Gate.{answered, Run, WorkingBase, answer, possible_target, entails_target}
use smeme.Runtime.Gate.Limits.{
  IsFrugal, ends-IsFrugal, and_then-IsFrugal, check_premise_consistency-IsFrugal,
  possible_target-IsFrugal, entails_target-IsFrugal,
}
use smeme.Inquire.Space.{
  collect, check_cons, possible_conclusions, entailed_conclusions, first_two, if_entailed,
  resolved_conclusion,
}

pub collect-IsFrugal :
    (base : WorkingBase) (query : Text → Run Bool) (ids : List Text)
    → ((id : Text) → IsFrugal base (query id))
    → IsFrugal base (collect query ids)
unfolding collect
collect-IsFrugal base query [] h = ends-IsFrugal base (answered [])
collect-IsFrugal base query (id ∷ ids) h = and_then-IsFrugal base (query id) _ (h id) (λ yes.
    and_then-IsFrugal base (collect query ids) _ (collect-IsFrugal base query ids h)
      (λ rest. ends-IsFrugal base (answered (if yes then id ∷ rest else rest))))

module _ (p : Platform) (check : ℕ → ℕ → List Formula → CheckResult) (base : WorkingBase) where
  pub check_cons-IsFrugal : IsFrugal base (check_cons p check base)
  unfolding check_cons
  check_cons-IsFrugal = check_premise_consistency-IsFrugal p check base

  pub possible_conclusions-IsFrugal : IsFrugal base (possible_conclusions p check base)
  unfolding possible_conclusions
  possible_conclusions-IsFrugal =
      and_then-IsFrugal base (check_cons p check base) _ check_cons-IsFrugal (λ _.
        collect-IsFrugal base (possible_target p check base) (conclusion_ids base.ir)
          (possible_target-IsFrugal p check base))

  pub entailed_conclusions-IsFrugal : IsFrugal base (entailed_conclusions p check base)
  unfolding entailed_conclusions
  entailed_conclusions-IsFrugal =
      and_then-IsFrugal base (check_cons p check base) _ check_cons-IsFrugal (λ _.
        collect-IsFrugal base (entails_target p check base) (conclusion_ids base.ir)
          (entails_target-IsFrugal p check base))

  first_two-IsFrugal : (found ids : List Text) → IsFrugal base (first_two p check base found ids)
  unfolding first_two
  first_two-IsFrugal found [] = ends-IsFrugal base (answered found)
  first_two-IsFrugal found (id ∷ ids) =
      and_then-IsFrugal base (possible_target p check base id) _
        (possible_target-IsFrugal p check base id)
        (decided (first_two-IsFrugal found ids) (λ l. first_two-IsFrugal l ids) found)
    where
      decided :
          IsFrugal base (first_two p check base found ids)
          → ((l : List Text) → IsFrugal base (first_two p check base l ids))
          → (l : List Text) (possible : Bool)
          → IsFrugal base (
              if possible
              then (if is_nil l
                  then first_two p check base (id ∷ []) ids
                  else answer (l ++ id ∷ []))
              else first_two p check base found ids)
      decided same more l false = same
      decided same more [] true = more (id ∷ [])
      decided same more (x ∷ xs) true = ends-IsFrugal base (answered ((x ∷ xs) ++ id ∷ []))

  if_entailed-IsFrugal : (found : List Text) → IsFrugal base (if_entailed p check base found)
  unfolding if_entailed
  if_entailed-IsFrugal [] = ends-IsFrugal base (answered none)
  if_entailed-IsFrugal (only ∷ []) =
      and_then-IsFrugal base (entails_target p check base only) _
        (entails_target-IsFrugal p check base only)
        (λ e. ends-IsFrugal base (answered (if e then some only else none)))
  if_entailed-IsFrugal (a ∷ b ∷ l) = ends-IsFrugal base (answered none)

  pub resolved_conclusion-IsFrugal : IsFrugal base (resolved_conclusion p check base)
  unfolding resolved_conclusion
  resolved_conclusion-IsFrugal =
      and_then-IsFrugal base (check_cons p check base) _ check_cons-IsFrugal (λ _.
        and_then-IsFrugal base (first_two p check base [] (conclusion_ids base.ir)) _
          (first_two-IsFrugal [] (conclusion_ids base.ir)) (λ found. if_entailed-IsFrugal found))
