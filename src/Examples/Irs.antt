-- ===== src/Examples/Irs.antt =====
-- Validation and compilation of the sample.
use mathlib.Core.WellFounded.{WellFounded}
use smeme.Base.{
  mem, Text, codes, ◌==◌, text_leb, sort, ◌≡◌, refl, ◌↔◌, ◌≢◌, true, some, List, [], ◌∷◌, head,
  tail, distinct, is_blank, all, all→In,
}
use smeme.Ir.Dag.{
  directed_cycle, dag_structure_errors, update, dfs_all, dfs_fuel, successors, all_unseen,
  out_of_fuel,
}
use smeme.Ir.Dag.Acyclic.{Arrow, dag_structure_errors-nil_iff, dfs_all_ends}
use smeme.Ir.Validate.{dag_error, validate_ir, is_valid}
use smeme.Ir.Validate.Spec.{IsValidIr}
use smeme.Ir.Validate.Exact.{is_valid_iff}
use smeme.Theory.Formula.{conj, iff, exactly_one, atom, implies, Formula, Model, holds, Satisfies}
use smeme.Theory.Symbols.{reach_symbol, guard_symbol, radio_option_symbol_name}
use smeme.Theory.Compile.{compile_ir_to_z3}
use smeme.Theory.Total.{compile_ir_to_z3_total}
use smeme.Theory.Reach.{Reached, reach_iff}
use smeme.Examples.Trees.{sample_ir, cyclic_ir, plain, end}

sample_accepted : is_valid sample_ir ≡ true
unfolding is_valid update distinct is_blank sort text_leb ◌==◌
sample_accepted = refl

cyclic_rejected : validate_ir cyclic_ir ≡ dag_error directed_cycle ∷ []
unfolding validate_ir update distinct is_blank sort text_leb ◌==◌
cyclic_rejected = refl

is_valid_iff_example : (is_valid sample_ir ≡ true) ↔ IsValidIr sample_ir
is_valid_iff_example = is_valid_iff sample_ir

pub sample_valid : IsValidIr sample_ir
sample_valid = (is_valid_iff sample_ir).0 sample_accepted

dag_structure_errors-nil_iff_example :
    (dag_structure_errors cyclic_ir.edges (codes "a" ∷ codes "b" ∷ codes "s" ∷ []) ≡ [])
    ↔ WellFounded (Arrow cyclic_ir.edges (codes "a" ∷ codes "b" ∷ codes "s" ∷ []))
dag_structure_errors-nil_iff_example =
    dag_structure_errors-nil_iff cyclic_ir.edges (codes "a" ∷ codes "b" ∷ codes "s" ∷ [])

dfs_all_ends_example :
    dfs_all
      (successors cyclic_ir.edges (codes "a" ∷ codes "b" ∷ []))
      (dfs_fuel
        (successors cyclic_ir.edges (codes "a" ∷ codes "b" ∷ []))
        (codes "a" ∷ codes "b" ∷ []))
      all_unseen
      (sort text_leb (codes "a" ∷ codes "b" ∷ []))
    ≢ out_of_fuel
dfs_all_ends_example = dfs_all_ends cyclic_ir.edges (codes "a" ∷ codes "b" ∷ [])

compile_ir_to_z3_total_example : (fs : List Formula) × (compile_ir_to_z3 plain sample_ir ≡ some fs)
compile_ir_to_z3_total_example = compile_ir_to_z3_total plain sample_ir sample_valid

-- The model in which the answer is "Yes".
abbrev pub yes_symbols : List Text
yes_symbols =
    codes "ir_reach_q1"
    ∷ codes "ir_reach_ok"
    ∷ codes "ir_g_g_000001"
    ∷ codes "ir_radioopt_q1_Yes_Yes"
    ∷ []

abbrev pub yes_model : Model
yes_model s = mem s yes_symbols

abbrev pub sample_theory : List Formula
sample_theory =
    implies (atom (codes "ir_reach_q1"))
      (exactly_one (codes "ir_radioopt_q1_Yes_Yes" ∷ codes "ir_radioopt_q1_No_No" ∷ []))
    ∷ iff (atom (codes "ir_g_g_000000")) (atom (codes "ir_radioopt_q1_No_No"))
    ∷ iff (atom (codes "ir_g_g_000001")) (atom (codes "ir_radioopt_q1_Yes_Yes"))
    ∷ iff (atom (codes "ir_reach_no"))
        (conj (atom (codes "ir_reach_q1")) (atom (codes "ir_g_g_000000")))
    ∷ iff (atom (codes "ir_reach_ok"))
        (conj (atom (codes "ir_reach_q1")) (atom (codes "ir_g_g_000001")))
    ∷ atom (codes "ir_reach_q1")
    ∷ []

pub compile-sample : compile_ir_to_z3 plain sample_ir ≡ some sample_theory
unfolding compile_ir_to_z3 distinct sort text_leb ◌==◌ reach_symbol radio_option_symbol_name
    guard_symbol
compile-sample = refl

yes_holds : all (holds yes_model) sample_theory ≡ true
unfolding holds ◌==◌
yes_holds = refl

pub yes_Satisfies : Satisfies yes_model sample_theory
yes_Satisfies f i = all→In (holds yes_model) yes_holds i

reach_iff_example :
    (yes_model (reach_symbol plain (codes "ok")) ≡ true)
    ↔ Reached plain sample_ir yes_model (codes "ok")
reach_iff_example =
    reach_iff plain sample_ir yes_model sample_valid sample_theory compile-sample yes_Satisfies
      (end (codes "ok")) (tail (tail head))
