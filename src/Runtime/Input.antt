-- ===== src/Runtime/Input.antt =====
-- `validate_raw_answers_for_ir` of smeme/reasoning/runtime/input_validation.py.
use smeme.Base.{
  ℕ, Text, ◌==◌, mem, is_blank, Bool, true, false, not, ◌&&◌, ◌||◌, leb, ltb, nat_beq, Option, none,
  some, List, [], ◌∷◌, map, keep, find, any, length,
}
use smeme.Base.Result.{Result, ok, err, raise_if, ◌>>◌}
use smeme.Ir.Types.{Ir, IrNode, question, conclusion, IrQuestionShape, radio}

abbrev pub max_answer_keys : ℕ
max_answer_keys = 512

abbrev pub max_question_id_len : ℕ
max_question_id_len = 256

abbrev pub max_radio_or_option_str_len : ℕ
max_radio_or_option_str_len = 2048

-- A value of the answers' dict: null, a string, or something else, with its `str`.
pub data Answer : Type 0 where
  null : Answer
  text : Text → Answer
  other : Text → Answer

-- A dict in the order of its items; its keys are distinct. Keys are strings here, so the test that
-- the key is a string has no counterpart.
abbrev pub RawAnswers : Type 0
RawAnswers = List (Text × Answer)

pub data InputError : Type 0 where
  too_many_keys : InputError
  invalid_question_id : Text → InputError
  control_characters : Text → InputError
  unknown_question : Text → InputError
  unsupported_type : Text → InputError
  not_a_string : Text → InputError
  too_long : Text → InputError
  not_an_option : Text → Text → List Text → InputError

-- `_CTRL_RE.search(s)`
unfoldable pub has_ctrl : Text → Bool
has_ctrl = any (λ c. leb c 8 || nat_beq c 11 || nat_beq c 12 || leb 14 c && leb c 31)

unfoldable pub is_question_node : IrNode → Bool
is_question_node n = elim n.kind [
  | conclusion ↦ false
  | question ↦ elim n.question [ none ↦ false | some _ ↦ true ]
]

-- The ids in `allowed`.
unfoldable pub allowed : Ir → List Text
unfolding is_question_node
allowed ir = map (λ (n : IrNode). n.id) (keep is_question_node ir.nodes)

-- The tests of a string answer against the options of its question.
unfoldable pub validate_text : Text → Text → List Text → Result InputError Unit
unfolding has_ctrl is_blank
validate_text qid val options = do
  raise_if (has_ctrl val) (control_characters qid)
  raise_if (ltb max_radio_or_option_str_len (length val)) (too_long qid)
  raise_if (not (is_blank val) && not (mem val options)) (not_an_option qid val options)

unfoldable pub validate_value : Text → Answer → IrQuestionShape → Result InputError Unit
unfolding validate_text
validate_value qid null q = raise_if (not (q.qtype == radio)) (unsupported_type qid)
validate_value qid (other _) q = do
  raise_if (not (q.qtype == radio)) (unsupported_type qid)
  err (not_a_string qid)
validate_value qid (text val) q = do
  raise_if (not (q.qtype == radio)) (unsupported_type qid)
  validate_text qid val q.options

-- The first node with the id. Where it carries no question the source's `assert` fails; that cannot
-- be if ids are distinct, and is reported as an unknown question.
unfoldable pub validate_at : Text → Answer → Option IrNode → Result InputError Unit
unfolding validate_value
validate_at qid val none = err (unknown_question qid)
validate_at qid val (some n) = elim n.question [
  | none ↦ err (unknown_question qid)
  | some q ↦ validate_value qid val q
]

unfoldable pub validate_answer : Ir → Text → Answer → Result InputError Unit
unfolding allowed validate_at
validate_answer ir qid val = do
  raise_if (ltb max_question_id_len (length qid) || is_blank qid) (invalid_question_id qid)
  raise_if (has_ctrl qid) (control_characters qid)
  raise_if (not (mem qid (allowed ir))) (unknown_question qid)
  validate_at qid val (find (λ (n : IrNode). n.id == qid) ir.nodes)

unfoldable pub validate_each : Ir → RawAnswers → Result InputError Unit
unfolding validate_answer
validate_each ir [] = ok tt
validate_each ir ((qid, val) ∷ rest) = do validate_answer ir qid val; validate_each ir rest

unfoldable pub validate_raw_answers_for_ir : Ir → RawAnswers → Result InputError Unit
unfolding validate_each
validate_raw_answers_for_ir ir raw = do
  raise_if (ltb max_answer_keys (length raw)) too_many_keys
  validate_each ir raw
