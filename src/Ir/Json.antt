-- ===== src/Ir/Json.antt =====
-- smeme/reasoning/ir/serialize.py: the stored form of an Ir. A JSON value is what `json` loads, with the
-- natural numbers for its numbers. The types say `str` for ids, labels and options, and the code stores
-- whatever stands there; here a value that is no text is the error `ill_typed`.
pub mod RoundTrip
use smeme.Base.{
  ℕ, ◌+◌, ◌*◌, ◌-◌, Text, codes, ◌==◌, strip, is_nil, Bool, true, false, not, ◌&&◌, leb, nat_beq,
  if◌then◌else◌, Option, none, some, List, [], ◌∷◌, map,
}
use smeme.Base.Result.{Result, ok, err, raise_if, ◌>>=◌, ◌>>◌}
use smeme.Ir.Types.{
  Ir, IrNode, IrEdge, Guard, IrNodeKind, question, conclusion, IrQuestionShape, radio,
  ir_format_version,
}

mutual
  pub data Json : Type 0 where
    null : Json
    boolean : Bool → Json
    number : ℕ → Json
    text : Text → Json
    array : Items → Json
    object : Fields → Json

  pub data Items : Type 0 where
    no_items : Items
    item : Json → Items → Items

  pub data Fields : Type 0 where
    no_fields : Fields
    field : Text → Json → Fields → Fields

-- What reading raises: `KeyError`, `TypeError` and `AttributeError`, and the `ValueError`s.
pub data JsonError : Type 0 where
  key_error : Text → JsonError
  type_error attribute_error : JsonError
  no_int unknown_kind unsupported_qtype no_options : JsonError
  unsupported_version : ℕ → JsonError
  ill_typed : JsonError

unfoldable pub items : List Json → Items
items [] = no_items
items (x ∷ xs) = item x (items xs)

unfoldable pub question_json : Option IrQuestionShape → Json
unfolding items
question_json none = null
question_json (some q) = object (
    field (codes "qtype") (text q.qtype)
      (field (codes "options") (array (items (map text q.options))) no_fields))

unfoldable pub kind_value : IrNodeKind → Text
kind_value question = codes "question"
kind_value conclusion = codes "conclusion"

unfoldable pub node_json : IrNode → Json
unfolding kind_value question_json
node_json n = object (
    field (codes "id") (text n.id) (
      field (codes "kind") (text (kind_value n.kind))
        (field (codes "question") (question_json n.question) no_fields)))

unfoldable pub edge_json : IrEdge → Json
edge_json e = object (
    field (codes "source") (text e.source) (
      field (codes "target") (text e.target)
        (field (codes "guard_id") (text e.guard_id) no_fields)))

unfoldable pub guard_json : Guard → Json
guard_json g =
    object (field (codes "id") (text g.id) (field (codes "expr") (text g.expr) no_fields))

unfoldable pub ir_to_json : Ir → Json
unfolding items node_json edge_json guard_json
ir_to_json ir = object (
    field (codes "format_version") (number ir.format_version) (
      field (codes "nodes") (array (items (map node_json ir.nodes))) (
        field (codes "edges") (array (items (map edge_json ir.edges)))
          (field (codes "guards") (array (items (map guard_json ir.guards))) no_fields))))

unfoldable pub find_field : Text → Fields → Option Json
find_field k no_fields = none
find_field k (field j v fs) = if j == k then some v else find_field k fs

or_key_error : Text → Option Json → Result JsonError Json
or_key_error k none = err (key_error k)
or_key_error k (some v) = ok v

-- `d[k]`
unfoldable pub at_key : Text → Json → Result JsonError Json
unfolding find_field or_key_error
at_key k (object fs) = or_key_error k (find_field k fs)
at_key k _ = err type_error

or_null : Option Json → Json
or_null none = null
or_null (some v) = v

-- `d.get(k)`
unfoldable pub get : Text → Json → Result JsonError Json
unfolding find_field or_null
get k (object fs) = ok (or_null (find_field k fs))
get k _ = err attribute_error

unfoldable pub items_list : Items → List Json
items_list no_items = []
items_list (item x xs) = x ∷ items_list xs

unfoldable pub keys : Fields → List Json
keys no_fields = []
keys (field k v fs) = text k ∷ keys fs

-- The values that a loop over the value runs through: of a text its characters, of a dict its keys.
unfoldable pub iterate : Json → Result JsonError (List Json)
unfolding items_list keys
iterate (array xs) = ok (items_list xs)
iterate (text t) = ok (map (λ c. text (c ∷ [])) t)
iterate (object fs) = ok (keys fs)
iterate _ = err type_error

-- `not v`
unfoldable pub is_falsy : Json → Bool
is_falsy null = true
is_falsy (boolean b) = not b
is_falsy (number n) = nat_beq n 0
is_falsy (text t) = is_nil t
is_falsy (array no_items) = true
is_falsy (array (item _ _)) = false
is_falsy (object no_fields) = true
is_falsy (object (field _ _ _)) = false

unfoldable pub as_text : Json → Result JsonError Text
as_text (text t) = ok t
as_text _ = err ill_typed

unfoldable pub each :
    {A : Type 0} → (Json → Result JsonError A) → List Json → Result JsonError (List A)
each read [] = ok []
each read (x ∷ xs) = do a ← read x; rest ← each read xs; ok (a ∷ rest)

-- Reading an integer, by whether a digit stands before and the number so far: a digit, or a single
-- underscore between two digits.
unfoldable pub next_digit : Bool → ℕ → ℕ → Option (Bool × ℕ)
next_digit after acc c =
    if leb 48 c && leb c 57
    then some (true, acc * 10 + (c - 48))
    else if after && nat_beq c 95
    then some (false, acc)
    else none

unfoldable pub digits : Bool → ℕ → Text → Result JsonError ℕ
unfolding next_digit
digits true acc [] = ok acc
digits false acc [] = err no_int
digits after acc (c ∷ s) = elim (next_digit after acc c) [
  | none ↦ err no_int
  | some (more, n) ↦ digits more n s
]

unfoldable pub signed : Text → Result JsonError ℕ
unfolding digits
signed [] = err no_int
signed (c ∷ s) = if nat_beq c 43 then digits false 0 s else digits false 0 (c ∷ s)

-- `int(v)`. A negative number is no supported version either, so its sign is refused with it.
unfoldable pub int : Json → Result JsonError ℕ
unfolding signed strip
int (number n) = ok n
int (boolean b) = ok (if b then 1 else 0)
int (text t) = signed (strip t)
int _ = err type_error

unfoldable pub kind_of : Json → Result JsonError IrNodeKind
kind_of (text t) =
    if t == codes "question"
    then ok question
    else if t == codes "conclusion"
    then ok conclusion
    else err unknown_kind
kind_of _ = err unknown_kind

unfoldable pub is_radio : Json → Bool
is_radio (text t) = t == radio
is_radio _ = false

-- `tuple(qraw.get("options") or ())`
unfoldable pub options_of : Json → Result JsonError (List Json)
unfolding iterate is_falsy
options_of v = if is_falsy v then ok [] else iterate v

unfoldable pub shape_from : Json → Result JsonError IrQuestionShape
unfolding get is_radio options_of each as_text
shape_from qraw = do
  qt ← get (codes "qtype") qraw
  raise_if (not (is_radio qt)) unsupported_qtype
  raw ← get (codes "options") qraw
  opts ← options_of raw
  raise_if (is_nil opts) no_options
  options ← each as_text opts
  ok (record { qtype = radio; options = options })

unfoldable pub question_from : Json → Result JsonError (Option IrQuestionShape)
unfolding shape_from
question_from null = ok none
question_from qraw = do q ← shape_from qraw; ok (some q)

unfoldable pub text_at : Text → Json → Result JsonError Text
unfolding at_key as_text
text_at k row = do v ← at_key k row; as_text v

unfoldable pub node_from : Json → Result JsonError IrNode
unfolding at_key get kind_of question_from text_at
node_from row = do
  raw ← at_key (codes "kind") row
  kind ← kind_of raw
  qraw ← get (codes "question") row
  q ← question_from qraw
  id ← text_at (codes "id") row
  ok (record { id = id; kind = kind; question = q })

unfoldable pub edge_from : Json → Result JsonError IrEdge
unfolding text_at
edge_from r = do
  source ← text_at (codes "source") r
  target ← text_at (codes "target") r
  guard_id ← text_at (codes "guard_id") r
  ok (record { source = source; target = target; guard_id = guard_id })

unfoldable pub guard_from : Json → Result JsonError Guard
unfolding text_at
guard_from r = do
  id ← text_at (codes "id") r
  expr ← text_at (codes "expr") r
  ok (record { id = id; expr = expr })

-- The rows of a list of the artifact.
unfoldable pub rows :
    {A : Type 0} → Text → (Json → Result JsonError A) → Json → Result JsonError (List A)
unfolding at_key iterate each
rows k read json = do v ← at_key k json; xs ← iterate v; each read xs

unfoldable pub ir_from_json : Json → Result JsonError Ir
unfolding at_key int rows node_from edge_from guard_from
ir_from_json json = do
  raw ← at_key (codes "format_version") json
  fv ← int raw
  raise_if (not (nat_beq fv ir_format_version)) (unsupported_version fv)
  nodes ← rows (codes "nodes") node_from json
  edges ← rows (codes "edges") edge_from json
  guards ← rows (codes "guards") guard_from json
  ok (record { format_version = fv; nodes = nodes; edges = edges; guards = guards })
