-- ===== src/Ir/Types.antt =====
-- smeme/reasoning/ir/types.py: the value types of the Ir.
use smeme.Base.{ℕ, Text, codes, Option, List, []}

-- `DEFAULT_GUARD_EXPR`, the guard of an edge that is always open.
abbrev pub default_guard_expr : Text
default_guard_expr = []

abbrev pub ir_format_version : ℕ
ir_format_version = 3

abbrev pub radio : Text
radio = codes "radio"

-- `qtype` is a `Literal["radio"]` that nothing enforces at run time, so any text may stand there.
pub record IrQuestionShape : Type 0 where
  pub qtype : Text
  pub options : List Text

pub data IrNodeKind : Type 0 where
  question conclusion : IrNodeKind

pub record IrNode : Type 0 where
  pub id : Text
  pub kind : IrNodeKind
  pub question : Option IrQuestionShape

pub record Guard : Type 0 where
  pub id : Text
  pub expr : Text

pub record IrEdge : Type 0 where
  pub source : Text
  pub target : Text
  pub guard_id : Text

pub record Ir : Type 0 where
  pub format_version : ℕ
  pub nodes : List IrNode
  pub edges : List IrEdge
  pub guards : List Guard
