-- ===== src/Examples/Trees.antt =====
-- A tree with one question and two conclusions: its graph and its Ir.
use smeme.Base.{false, Text, codes, none, some, List, [], ◌∷◌}
use smeme.Ir.Types.{Ir, IrNode, IrEdge, Guard, question, conclusion}
use smeme.Theory.Symbols.{Platform}

abbrev pub ask : Text → List Text → IrNode
ask id options = record {
  id = id;
  kind = question;
  question = some (record { qtype = codes "radio"; options = options });
}

abbrev pub end : Text → IrNode
end id = record { id = id; kind = conclusion; question = none }

abbrev pub edge : Text → Text → Text → IrEdge
edge s t g = record { source = s; target = t; guard_id = g }

abbrev pub guard : Text → Text → Guard
guard id expr = record { id = id; expr = expr }

abbrev pub sample_ir : Ir
sample_ir = record {
  format_version = 3;
  nodes =
      end (codes "no") ∷ ask (codes "q1") (codes "Yes" ∷ codes "No" ∷ []) ∷ end (codes "ok") ∷ [];
  edges =
      edge (codes "q1") (codes "no") (codes "g_000000")
      ∷ edge (codes "q1") (codes "ok") (codes "g_000001")
      ∷ [];
  guards = guard (codes "g_000000") (codes "No") ∷ guard (codes "g_000001") (codes "Yes") ∷ [];
}

-- Two questions that lead to one another.
abbrev pub cyclic_ir : Ir
cyclic_ir = record {
  format_version = 3;
  nodes =
      ask (codes "a") (codes "x" ∷ [])
      ∷ ask (codes "b") (codes "x" ∷ [])
      ∷ ask (codes "s") (codes "x" ∷ [])
      ∷ [];
  edges =
      edge (codes "s") (codes "a") (codes "g0")
      ∷ edge (codes "a") (codes "b") (codes "g1")
      ∷ edge (codes "b") (codes "a") (codes "g2")
      ∷ [];
  guards = guard (codes "g0") [] ∷ guard (codes "g1") [] ∷ guard (codes "g2") [] ∷ [];
}

-- No code point above ASCII is alphanumeric, and the digest is the label itself.
abbrev pub plain : Platform
plain = record { wide_alnum = λ c. false; wide_digit = λ c. false; sha256_hex = λ s. s }
