-- ===== src/Inquire/Budget.antt =====
-- `InquiryBudget` of smeme/reasoning/runtime/inquire/types.py, with the checks of its construction.
use smeme.Base.{ℕ, Text, codes, not, ◌&&◌, leb, Option, none, some}
use smeme.Base.Result.{Result, ok, raise_if, ◌>>◌}

abbrev pub default_inquire_max_sat_calls : ℕ
default_inquire_max_sat_calls = 2000

abbrev pub hard_max_inquire_sat_calls : ℕ
hard_max_inquire_sat_calls = 10000

abbrev pub default_inquire_timeout_ms : ℕ
default_inquire_timeout_ms = 5000

abbrev pub hard_max_inquire_timeout_ms : ℕ
hard_max_inquire_timeout_ms = 30000

abbrev pub default_resolving_support_max_sat_calls : ℕ
default_resolving_support_max_sat_calls = 2000

abbrev pub hard_max_resolving_support_sat_calls : ℕ
hard_max_resolving_support_sat_calls = 10000

abbrev pub default_resolving_support_timeout_ms : ℕ
default_resolving_support_timeout_ms = 5000

pub record InquiryBudget : Type 0 where
  pub max_sat_calls : ℕ
  pub timeout_ms : ℕ
  pub max_residual_sat_calls : Option ℕ
  pub max_resolving_support_sat_calls : ℕ
  pub resolving_support_timeout_ms : ℕ

-- The `ValueError` of a value out of its range, with the name and the range of its message.
pub data RangeError : Type 0 where
  out_of_range : Text → ℕ → ℕ → RangeError

unfoldable pub require_budget_range : Text → ℕ → ℕ → ℕ → Result RangeError Unit
require_budget_range name value minimum maximum =
    raise_if (not (leb minimum value && leb value maximum)) (out_of_range name minimum maximum)

unfoldable pub require_residual : Option ℕ → Result RangeError Unit
unfolding require_budget_range
require_residual none = ok tt
require_residual (some value) =
    require_budget_range (codes "max_residual_sat_calls") value 0 hard_max_inquire_sat_calls

-- `__post_init__`
unfoldable pub make_budget : InquiryBudget → Result RangeError InquiryBudget
unfolding require_budget_range require_residual
make_budget b = do
  require_budget_range (codes "max_sat_calls") b.max_sat_calls 1 hard_max_inquire_sat_calls
  require_budget_range (codes "timeout_ms") b.timeout_ms 1 hard_max_inquire_timeout_ms
  require_residual b.max_residual_sat_calls
  require_budget_range (codes "max_resolving_support_sat_calls") b.max_resolving_support_sat_calls 1
      hard_max_resolving_support_sat_calls
  require_budget_range (codes "resolving_support_timeout_ms") b.resolving_support_timeout_ms 1
      hard_max_inquire_timeout_ms
  ok b
