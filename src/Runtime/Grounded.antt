-- ===== src/Runtime/Grounded.antt =====
-- The facts that answers give in smeme/reasoning/runtime/canonical_facts.py, against the questions of
-- the Ir.
use smeme.Base.{
  ◌∙◌, Text, eq_refl, mem, In→mem, true, ◌||◌, ltb, length, ◌≡◌, refl, Option, none, some, List, [],
  ◌∷◌, In, head, tail, In-cons, In-append_cases, inl, inr, subst, sym, map, map-append, ◌++◌, ap,
  In-of_map,
}
use smeme.Base.Result.{ok, >>=-eq-ok, >>-eq-ok, ok_injective}
use smeme.Ir.Types.{IrNode, IrNodeKind, question, conclusion, IrQuestionShape, radio}
use smeme.Ir.Validate.Spec.{IsShaped}
use smeme.Runtime.Input.{RawAnswers, max_question_id_len, max_radio_or_option_str_len}
use smeme.Runtime.Facts.{
  CanonicalFactRecord, answer_of, make_fact, option_facts, node_facts, facts_from,
}
use smeme.Runtime.Atoms.{node_options, question_options}

-- A fact about an option that a radio question of the list offers.
pub record IsAligned (nodes : List IrNode) (rec : CanonicalFactRecord) : Type 0 where
  pub node : IrNode
  pub listed : In node nodes
  pub named : node.id ≡ rec.question_id
  pub shape : IrQuestionShape
  pub asks : node.kind ≡ question
  pub shaped : node.question ≡ some shape
  pub is_radio : shape.qtype ≡ radio
  pub label : Text
  pub labelled : rec.option_label ≡ some label
  pub offered : mem label shape.options ≡ true

abbrev pub AllAligned : List IrNode → List CanonicalFactRecord → Type 0
AllAligned nodes facts = (rec : CanonicalFactRecord) → In rec facts → IsAligned nodes rec

option_facts-IsAligned :
    (nodes : List IrNode) (n : IrNode) (q : IrQuestionShape) (answer : Option Text)
    → In n nodes
    → n.kind ≡ question
    → n.question ≡ some q
    → q.qtype ≡ radio
    → (opts : List Text) → ((o : Text) → In o opts → mem o q.options ≡ true)
    → {facts : List CanonicalFactRecord} → option_facts n.id answer opts ≡ ok facts
    → AllAligned nodes facts
unfolding option_facts make_fact
option_facts-IsAligned nodes n q answer i k s r [] sub h rec m =
    elim (subst (In rec) (sym (ok_injective h)) m) [ ]
option_facts-IsAligned nodes n q answer i k s r (o ∷ opts) sub h rec m =
    let (fact, made, h1) = >>=-eq-ok (make_fact n.id answer o) _ h in
    let (rest, later, h2) = >>=-eq-ok (option_facts n.id answer opts) _ h1 in
    let (_, same) =
      >>-eq-ok (ltb max_question_id_len (length n.id) || ltb max_radio_or_option_str_len (length o))
        _ _ made in
    elim (In-cons (subst (In rec) (sym (ok_injective h2)) m)) [
      | inl e ↦ subst (IsAligned nodes) (ok_injective same ∙ sym e) (record {
        node = n;
        listed = i;
        named = refl;
        shape = q;
        asks = k;
        shaped = s;
        is_radio = r;
        label = o;
        labelled = refl;
        offered = sub o head;
      })
      | inr old ↦
          option_facts-IsAligned nodes n q answer i k s r opts (λ x j. sub x (tail j)) later rec old
    ]

node_facts-IsAligned :
    (nodes : List IrNode) (raw : RawAnswers) (n : IrNode)
    → In n nodes
    → IsShaped n.kind n.question
    → {facts : List CanonicalFactRecord} → node_facts raw n ≡ ok facts
    → AllAligned nodes facts
unfolding node_facts
node_facts-IsAligned nodes raw n i w h = parts n.kind n.question refl refl w h
  where
    parts :
        (k : IrNodeKind) (q : Option IrQuestionShape)
        → n.kind ≡ k
        → n.question ≡ q
        → IsShaped k q
        → {facts : List CanonicalFactRecord} → node_facts raw n ≡ ok facts
        → AllAligned nodes facts
    parts conclusion none a b w h rec m =
        elim (subst (In rec) (sym (ok_injective (rw (node_facts, a) at h))) m) [ ]
    parts conclusion (some q) a b w h rec m = absurd w
    parts question none a b w h rec m = absurd w
    parts question (some q) a b w h rec m =
        option_facts-IsAligned nodes n q (answer_of raw n.id) i a b w.0 q.options (λ o j. In→mem j)
          (rw (node_facts, a, b, w.0, eq_refl radio) at h) rec m

pub facts_from-IsAligned :
    (nodes : List IrNode) (raw : RawAnswers) (ns : List IrNode)
    → ((n : IrNode) → In n ns → In n nodes × IsShaped n.kind n.question)
    → {facts : List CanonicalFactRecord} → facts_from raw ns ≡ ok facts
    → AllAligned nodes facts
unfolding facts_from
facts_from-IsAligned nodes raw [] w h rec m = elim (subst (In rec) (sym (ok_injective h)) m) [ ]
facts_from-IsAligned nodes raw (n ∷ ns) w h rec m =
    let (here, a, h1) = >>=-eq-ok (node_facts raw n) _ h in
    let (later, b, h2) = >>=-eq-ok (facts_from raw ns) _ h1 in
    elim (In-append_cases here (subst (In rec) (sym (ok_injective h2)) m)) [
      | inl i ↦ node_facts-IsAligned nodes raw n (w n head).0 (w n head).1 a rec i
      | inr i ↦ facts_from-IsAligned nodes raw ns (λ x j. w x (tail j)) b rec i
    ]

-- What a fact is about: the id of its question and the option's label.
abbrev pub key_of : CanonicalFactRecord → Text × Option Text
key_of rec = (rec.question_id, rec.option_label)

abbrev pub labelled_option : Text × Text → Text × Option Text
labelled_option (q, o) = (q, some o)

option_facts-keys :
    (qid : Text) (answer : Option Text) (opts : List Text) {facts : List CanonicalFactRecord}
    → option_facts qid answer opts ≡ ok facts
    → map key_of facts ≡ map labelled_option (map (λ o. (qid, o)) opts)
unfolding option_facts make_fact
option_facts-keys qid answer [] h = ap (map key_of) (sym (ok_injective h))
option_facts-keys qid answer (o ∷ opts) h =
    let (fact, made, h1) = >>=-eq-ok (make_fact qid answer o) _ h in
    let (rest, later, h2) = >>=-eq-ok (option_facts qid answer opts) _ h1 in
    let (_, same) =
      >>-eq-ok (ltb max_question_id_len (length qid) || ltb max_radio_or_option_str_len (length o))
        _ _ made in
    ap (map key_of) (sym (ok_injective h2))
    ∙ ap (λ k. k ∷ map key_of rest) (ap key_of (sym (ok_injective same)))
    ∙ ap (λ ks. (qid, some o) ∷ ks) (option_facts-keys qid answer opts later)

node_facts-keys :
    (raw : RawAnswers) (n : IrNode)
    → IsShaped n.kind n.question
    → {facts : List CanonicalFactRecord} → node_facts raw n ≡ ok facts
    → map key_of facts ≡ map labelled_option (node_options n)
unfolding node_facts node_options
node_facts-keys raw n w h = parts n.kind n.question refl refl w h
  where
    parts :
        (k : IrNodeKind) (q : Option IrQuestionShape)
        → n.kind ≡ k
        → n.question ≡ q
        → IsShaped k q
        → {facts : List CanonicalFactRecord} → node_facts raw n ≡ ok facts
        → map key_of facts ≡ map labelled_option (node_options n)
    parts conclusion none a b w h =
        rw (node_options, b) (ap (map key_of) (sym (ok_injective (rw (node_facts, a) at h))))
    parts conclusion (some q) a b w h = absurd w
    parts question none a b w h = absurd w
    parts question (some q) a b w h =
        rw (node_options, b)
          (option_facts-keys n.id (answer_of raw n.id) q.options
            (rw (node_facts, a, b, w.0, eq_refl radio) at h))

-- Answers give one fact for each option of each question, in order.
pub facts_from-keys :
    (raw : RawAnswers) (ns : List IrNode)
    → ((n : IrNode) → In n ns → IsShaped n.kind n.question)
    → {facts : List CanonicalFactRecord} → facts_from raw ns ≡ ok facts
    → map key_of facts ≡ map labelled_option (question_options ns)
unfolding facts_from question_options
facts_from-keys raw [] w h = ap (map key_of) (sym (ok_injective h))
facts_from-keys raw (n ∷ ns) w h =
    let (here, a, h1) = >>=-eq-ok (node_facts raw n) _ h in
    let (later, b, h2) = >>=-eq-ok (facts_from raw ns) _ h1 in
    ap (map key_of) (sym (ok_injective h2))
    ∙ map-append key_of here later
    ∙ ap (λ z. z ++ map key_of later) (node_facts-keys raw n (w n head) a)
    ∙ ap (λ z. map labelled_option (node_options n) ++ z)
        (facts_from-keys raw ns (λ x m. w x (tail m)) b)
    ∙ sym (map-append labelled_option (node_options n) (question_options ns))

pub labelled_option-In :
    (os : List (Text × Text)) {o : Text × Text}
    → In (labelled_option o) (map labelled_option os)
    → In o os
labelled_option-In os {o} m =
    let (x, i, e) = In-of_map labelled_option os m in subst (λ z. In z os) (ap unlabelled e) i
  where
    unlabelled : Text × Option Text → Text × Text
    unlabelled (q, l) = (q, elim l [ none ↦ [] | some t ↦ t ])
