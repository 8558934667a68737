-- ===== src/Theory/Symbols.antt =====
-- smeme/reasoning/theory/z3_symbols.py. The Unicode tables behind `isalnum` and `isdigit` above the
-- ASCII range and SHA-256 are not in the repository: they are parameters. A text holds no lone
-- surrogate, which `encode` would refuse.
use smeme.Base.{
  ℕ, Text, codes, Bool, ◌||◌, ◌&&◌, leb, ltb, nat_beq, if◌then◌else◌, [], ◌∷◌, ◌++◌, take,
}

pub record Platform : Type 0 where
  -- `isalnum` and `isdigit` of a code point from 128 on
  pub wide_alnum : ℕ → Bool
  pub wide_digit : ℕ → Bool
  -- `hashlib.sha256(s.encode("utf-8")).hexdigest()`
  pub sha256_hex : Text → Text

module _ (p : Platform) where
  unfoldable pub is_digit : ℕ → Bool
  is_digit c = if ltb c 128 then leb 48 c && leb c 57 else p.wide_digit c

  unfoldable pub is_alnum : ℕ → Bool
  is_alnum c =
      if ltb c 128
      then leb 48 c && leb c 57 || leb 65 c && leb c 90 || leb 97 c && leb c 122
      else p.wide_alnum c

  -- The loop that replaces what is neither alphanumeric nor `_`.
  unfoldable pub sanitize : Text → Text
  unfolding is_alnum
  sanitize [] = []
  sanitize (c ∷ s) = (if is_alnum c || nat_beq c 95 then c else 95) ∷ sanitize s

  -- `"x_"` in front of an empty text or a leading digit.
  unfoldable pub prefix_digit : Text → Text
  unfolding is_digit
  prefix_digit [] = codes "x_"
  prefix_digit (c ∷ s) = if is_digit c then codes "x_" ++ (c ∷ s) else c ∷ s

  unfoldable pub z3_sym_fragment : ℕ → Text → Text
  unfolding sanitize prefix_digit
  z3_sym_fragment max_len s = take max_len (prefix_digit (sanitize s))

  unfoldable pub radio_option_symbol_name : Text → Text → Text
  unfolding z3_sym_fragment
  radio_option_symbol_name question_id option_label =
      codes "ir_radioopt_"
      ++ (z3_sym_fragment 64 question_id
          ++ (codes "_"
              ++ (z3_sym_fragment 64 option_label
                  ++ (codes "_" ++ take 16 (p.sha256_hex option_label)))))

  -- The variable names that `compile_ir_to_z3` gives to nodes and guards.
  unfoldable pub reach_symbol : Text → Text
  unfolding z3_sym_fragment
  reach_symbol id = codes "ir_reach_" ++ z3_sym_fragment 120 id

  unfoldable pub guard_symbol : Text → Text
  unfolding z3_sym_fragment
  guard_symbol id = codes "ir_g_" ++ z3_sym_fragment 120 id
