-- ===== src/Runtime/Atoms.antt =====
-- The atoms that `BlobEvidenceItem` of smeme/reasoning/runtime/schemas.py admits, against the symbols of
-- smeme/reasoning/theory/z3_symbols.py.
use smeme.Base.{
  ℕ, zero, suc, ◌≤◌, Text, codes, all, all-append, take, length, length-append, leb, Bool, true,
  ◌&&◌, ◌||◌, ◌≡◌, refl, ◌∙◌, List, [], ◌∷◌, ◌++◌, map, some, none, arith,
}
use smeme.Ir.Types.{Ir, IrNode}
use smeme.Theory.Symbols.{Platform, z3_sym_fragment, radio_option_symbol_name}
use smeme.Runtime.Facts.{is_word, is_evidence_atom}

-- What hashlib says of `hexdigest`: it holds hexadecimal digits only.
abbrev pub HasHexDigests : Platform → Type 0
HasHexDigests p =
    (s : Text) → all (λ c. leb 48 c && leb c 57 || leb 97 c && leb c 102) (p.sha256_hex s) ≡ true

-- The options of the questions, each with the id of its question, in the order of the nodes.
unfoldable pub node_options : IrNode → List (Text × Text)
node_options n = elim n.question [ none ↦ [] | some q ↦ map (λ o. (n.id, o)) q.options ]

unfoldable pub question_options : List IrNode → List (Text × Text)
unfolding node_options
question_options [] = []
question_options (n ∷ ns) = node_options n ++ question_options ns

length-take-le {ℓ} : {A : Type ℓ} (n : ℕ) (xs : List A) → length (take n xs) ≤ n
length-take-le zero xs = omega arith
length-take-le (suc n) [] = omega arith
length-take-le (suc n) (x ∷ xs) = omega (arith, length-take-le n xs)

hex-word :
    (n : ℕ) (s : Text)
    → all (λ c. leb 48 c && leb c 57 || leb 97 c && leb c 102) s ≡ true
    → all is_word (take n s) ≡ true
unfolding is_word
hex-word zero s h = refl
hex-word (suc n) [] h = refl
hex-word (suc n) (c ∷ s) h = ground (arith, hex-word n s)

prefixed-atom :
    (s : Text) → length s ≤ 200 → is_evidence_atom (codes "ir_radioopt_" ++ s) ≡ all is_word s
unfolding is_evidence_atom is_word
prefixed-atom s h = ground (arith)

-- The atom of an option, of the parts that it is put together from.
parts-atom :
    (a b d : Text)
    → length a ≤ 64
    → length b ≤ 64
    → length d ≤ 16
    → all is_word d ≡ true
    → is_evidence_atom (codes "ir_radioopt_" ++ (a ++ (codes "_" ++ (b ++ (codes "_" ++ d)))))
      ≡ (all is_word a && all is_word b)
unfolding is_word
parts-atom a b d la lb ld w =
    prefixed-atom _ (
      omega (
        arith,
        length-append a (codes "_" ++ (b ++ (codes "_" ++ d))),
        length-append b (codes "_" ++ d),
      ))
    ∙ words
  where
    words :
        all is_word (a ++ (codes "_" ++ (b ++ (codes "_" ++ d)))) ≡ (all is_word a && all is_word b)
    words =
        rw
          (
            all-append is_word a (codes "_" ++ (b ++ (codes "_" ++ d))),
            all-append is_word b (codes "_" ++ d),
            w,
          )
          (ground arith)

module _ (p : Platform) where
  -- What the symbol of an option keeps of the id and of the label is made of ASCII letters, digits and
  -- underscores.
  unfoldable pub is_plain_option : Text × Text → Bool
  is_plain_option (q, o) =
      all is_word (z3_sym_fragment p 64 q) && all is_word (z3_sym_fragment p 64 o)

  -- Every option of every question is plain.
  abbrev pub HasPlainOptions : Ir → Type 0
  HasPlainOptions ir = all is_plain_option (question_options ir.nodes) ≡ true

  -- The symbol of an option is admitted exactly if the option is plain.
  pub symbol-atom :
      HasHexDigests p
      → (q o : Text) → is_evidence_atom (radio_option_symbol_name p q o) ≡ is_plain_option (q, o)
  unfolding radio_option_symbol_name is_plain_option z3_sym_fragment
  symbol-atom hex q o =
      parts-atom (z3_sym_fragment p 64 q) (z3_sym_fragment p 64 o) (take 16 (p.sha256_hex o))
        (length-take-le 64 _) (length-take-le 64 _) (length-take-le 16 _) (hex-word 16 _ (hex o))
