-- ===== src/Examples/Stored.antt =====
-- Stored forms of an Ir.
use smeme.Base.{codes, ◌==◌, strip, ◌≡◌, refl, [], ◌∷◌, In, head, tail}
use smeme.Base.Result.{ok, err}
use smeme.Ir.Types.{Ir, IrNode}
use smeme.Ir.Json.{
  Json, text, object, field, no_fields, ir_to_json, ir_from_json, unsupported_version, options_of,
  iterate, int, no_int,
}
use smeme.Ir.Json.RoundTrip.{IsStorable, ir_from_json-to_json, ir_from_json-stable}
use smeme.Examples.Trees.{sample_ir}

-- The version as a text, and no node, edge or guard: an empty text is an empty list too.
abbrev odd : Json
odd = object (
    field (codes "format_version") (text (codes " 3")) (
      field (codes "nodes") (text [])
        (field (codes "edges") (text []) (field (codes "guards") (text []) no_fields))))

abbrev bare : Ir
bare = record { format_version = 3; nodes = []; edges = []; guards = [] }

reads_odd : ir_from_json odd ≡ ok bare
unfolding ir_from_json strip ◌==◌
reads_odd = refl

-- A text in the place of the options gives an option for each of its characters.
spells_options : options_of (text (codes "ab")) ≡ ok (text (codes "a") ∷ text (codes "b") ∷ [])
unfolding options_of iterate
spells_options = refl

reads_underscores : int (text (codes "+1_000")) ≡ ok 1000
unfolding int strip
reads_underscores = refl

refuses_trailing_underscore : int (text (codes "3_")) ≡ err no_int
unfolding int strip
refuses_trailing_underscore = refl

refuses_old_version :
    ir_from_json (ir_to_json (record { format_version = 2; nodes = []; edges = []; guards = [] }))
    ≡ err (unsupported_version 2)
unfolding ir_from_json ir_to_json ◌==◌
refuses_old_version = refl

sample-IsStorable : (n : IrNode) → In n sample_ir.nodes → IsStorable n.question
sample-IsStorable n head = tt
sample-IsStorable n (tail head) = (refl, λ e. absurd (cc))
sample-IsStorable n (tail (tail head)) = tt
sample-IsStorable n (tail (tail (tail m))) = elim m [ ]

ir_from_json-to_json_example : ir_from_json (ir_to_json sample_ir) ≡ ok sample_ir
ir_from_json-to_json_example = ir_from_json-to_json sample_ir refl sample-IsStorable

ir_from_json-stable_example : ir_from_json (ir_to_json bare) ≡ ok bare
ir_from_json-stable_example = ir_from_json-stable odd bare reads_odd
