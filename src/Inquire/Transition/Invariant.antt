-- ===== src/Inquire/Transition/Invariant.antt =====
-- The invariant of a session's assertions and verification keys, for the moves of
-- smeme/reasoning/runtime/inquire/transition.py.
use smeme.Base.{
  ap, ◌∙◌, some, ◌||◌, Text, ◌==◌, eq_iff, ==→eq, eq_refl, mem, is_blank, Distinct, ◌≡◌, refl, true,
  false, List, [], ◌∷◌, ◌++◌, In, head, In-cons, arith, inl, inr, subst, sym, In-of_keep, In-keep,
  In-append_cases, In-append_left, Bool-cases, Option-cases, Distinct-keep, not-false, In-map, not,
  key_unique,
}
use smeme.Base.Result.{Result-cases, ok_injective, Result, ok, err, >>-eq-ok, >>=-eq-ok}
use smeme.Ir.Types.{Ir}
use smeme.Runtime.Input.{text, validate_answer, validate_raw_answers_for_ir}
use smeme.Inquire.Types.{
  AdmittedAssertion, VerificationKey, Evidence, logical_evidence, verification_key_for,
  make_assertion, same_assertion,
}
use smeme.Inquire.Transition.{
  InputError, VerificationDecision, retain, retract, replace, insufficient, VerificationTransition,
  admission_rejected, unchanged, matching, remaining, only, live_assertion, is_key_of,
  drop_keys_for_assertion, set_answer, as_answers, has_answer, lift_input, admit_assertion,
  apply_replace, apply_to_live, apply_verification_decision,
}
use smeme.Inquire.Transition.Projection.{
  questions, pairs, logical_evidence-pairs, has_answer-pairs, In-set_answer,
  validate_raw_answers-In,
}

pub record IsSession (ir : Ir) (artifact : Text) (admitted : List AdmittedAssertion)
    (verified : List VerificationKey) : Type 0 where
  -- one live assertion for a question
  pub distinct : Distinct (questions admitted)
  pub sourced : (a : AdmittedAssertion) → In a admitted → is_blank a.provenance_id ≡ false
  -- each answer is one that the tree accepts
  pub accepted :
      (a : AdmittedAssertion)
      → In a admitted
      → validate_answer ir a.question_id (text a.option) ≡ ok tt
  -- each key of the artifact is a key of a live assertion
  pub live :
      (k : VerificationKey)
      → In k verified
      → k.artifact_identity ≡ artifact
      → (a : AdmittedAssertion) × In a admitted × (is_key_of a artifact k ≡ true)

only-some : {a : AdmittedAssertion} (xs : List AdmittedAssertion) → only xs ≡ some a → In a xs
unfolding only
only-some [] h = absurd (cc)
only-some (x ∷ []) h = let e : x ≡ _ = ground arith in subst (λ y. In y (x ∷ [])) e head
only-some (x ∷ y ∷ zs) h = absurd (cc)

pub live_assertion-In :
    (admitted : List AdmittedAssertion) (q : Text) {a : AdmittedAssertion}
    → live_assertion admitted q ≡ some a
    → In a admitted × (a.question_id ≡ q)
unfolding live_assertion
live_assertion-In admitted q {a} h =
    let (m, e) =
      In-of_keep (λ (x : AdmittedAssertion). x.question_id == q) admitted
        (only-some (matching q admitted) h) in
    (m, ==→eq a.question_id q e)

make_assertion-parts :
    (q o p : Text) {a : AdmittedAssertion}
    → make_assertion q o p ≡ ok a
    → (is_blank p ≡ false) × (a ≡ record { question_id = q; option = o; provenance_id = p })
unfolding make_assertion
make_assertion-parts q o p h = let (b, e) = >>-eq-ok (is_blank p) _ _ h in (b, ground arith)

mem-concat :
    (q : Text) (xs : List AdmittedAssertion) (a : AdmittedAssertion)
    → mem q (questions (xs ++ a ∷ [])) ≡ (mem q (questions xs) || a.question_id == q)
mem-concat q [] a = ground arith
mem-concat q (x ∷ xs) a = ground (arith, mem-concat q xs a)

Distinct-concat :
    (xs : List AdmittedAssertion) (a : AdmittedAssertion)
    → Distinct (questions xs)
    → mem a.question_id (questions xs) ≡ false
    → Distinct (questions (xs ++ a ∷ []))
Distinct-concat [] a d h = (refl, tt)
Distinct-concat (x ∷ xs) a d h = (
  ground (
    arith,
    mem-concat x.question_id xs a,
    d.0,
    eq_iff x.question_id a.question_id,
    eq_iff a.question_id x.question_id,
  ),
  Distinct-concat xs a d.1 (ground arith),
)

lift_input-ok : (r : Result InputError Unit) {u : Unit} → lift_input r ≡ ok u → r ≡ ok tt
unfolding lift_input
lift_input-ok (ok x) h = refl
lift_input-ok (err e) h = absurd (cc)

module _ (ir : Ir) (artifact : Text) where
  -- A session whose new assertion is accepted stays one.
  extend :
      (admitted : List AdmittedAssertion) (verified : List VerificationKey) (a : AdmittedAssertion)
      → IsSession ir artifact admitted verified
      → mem a.question_id (questions admitted) ≡ false
      → is_blank a.provenance_id ≡ false
      → validate_answer ir a.question_id (text a.option) ≡ ok tt
      → IsSession ir artifact (admitted ++ a ∷ []) verified
  extend admitted verified a s new sourced ok_answer = record {
    distinct = Distinct-concat admitted a s.distinct new;
    sourced = λ x m. elim (In-append_cases admitted m) [
      | inl old ↦ s.sourced x old
      | inr last ↦ elim (In-cons last) [ inl e ↦ rw e sourced | inr gone ↦ elim gone [ ] ]
    ];
    accepted = λ x m. elim (In-append_cases admitted m) [
      | inl old ↦ s.accepted x old
      | inr last ↦ elim (In-cons last) [ inl e ↦ rw e ok_answer | inr gone ↦ elim gone [ ] ]
    ];
    live = λ k m e. let (x, n, h) = s.live k m e in (x, In-append_left (a ∷ []) n, h);
  }

  -- Admission keeps the invariant.
  pub admit_assertion-IsSession :
      (admitted admitted' : List AdmittedAssertion) (verified : List VerificationKey)
      (q option provenance : Text)
      → IsSession ir artifact admitted verified
      → admit_assertion ir admitted q option provenance ≡ ok admitted'
      → IsSession ir artifact admitted' verified
  unfolding admit_assertion lift_input
  admit_assertion-IsSession admitted admitted' verified q option provenance s h =
      let (ev, e, h1) = >>=-eq-ok (logical_evidence admitted) _ h in
      let (new, h2) = >>-eq-ok (has_answer q ev) _ _ h1 in
      let raw = as_answers (set_answer q option ev) in
      let (_, v, h3) = >>=-eq-ok (lift_input (validate_raw_answers_for_ir ir raw)) _ h2 in
      let (a, made, h4) = >>=-eq-ok (make_assertion q option provenance) _ h3 in
      let (sourced, same) = make_assertion-parts q option provenance made in
      let evidence : ev ≡ pairs admitted =
        ok_injective (sym e ∙ logical_evidence-pairs admitted s.distinct) in
      let accepted =
        validate_raw_answers-In ir raw (lift_input-ok _ v)
          (In-map (λ (x : Text × Text). (x.0, text x.1)) (In-set_answer q option ev)) in
      let result : admitted ++ a ∷ [] ≡ admitted' = ok_injective h4 in
      subst (λ l. IsSession ir artifact l verified)
        (ap (λ x. admitted ++ x ∷ []) (sym same) ∙ result)
        (extend admitted verified
          (record { question_id = q; option = option; provenance_id = provenance }) s
          (sym (has_answer-pairs q admitted) ∙ (ap (has_answer q) (sym evidence) ∙ new)) sourced
          accepted)

  -- Without one question's assertion, and without the keys of that assertion, a session stays one.
  remove :
      (admitted : List AdmittedAssertion) (verified : List VerificationKey) (a : AdmittedAssertion)
      → IsSession ir artifact admitted verified
      → In a admitted
      → IsSession ir artifact
          (remaining a.question_id admitted)
          (drop_keys_for_assertion verified a artifact)
  unfolding drop_keys_for_assertion
  remove admitted verified a s m = record {
    distinct =
        Distinct-keep (λ (x : AdmittedAssertion). x.question_id)
          (λ (x : AdmittedAssertion). not (x.question_id == a.question_id)) admitted s.distinct;
    sourced = λ x n.
        s.sourced x
          (In-of_keep (λ (y : AdmittedAssertion). not (y.question_id == a.question_id)) admitted
            n).0;
    accepted = λ x n.
        s.accepted x
          (In-of_keep (λ (y : AdmittedAssertion). not (y.question_id == a.question_id)) admitted
            n).0;
    live = λ k n e.
        let (l, other) = In-of_keep (λ k. not (is_key_of a artifact k)) verified n in
        let (x, i, h) = s.live k l e in
        elim (Bool-cases (x.question_id == a.question_id)) [
          | inl same ↦
              let one =
                key_unique (λ (y : AdmittedAssertion). y.question_id) admitted s.distinct i m
                  (==→eq x.question_id a.question_id same) in
              absurd (cc (subst (λ y. is_key_of y artifact k ≡ true) one h, not-false _ other))
          | inr differs ↦ (
            x,
            In-keep (λ (y : AdmittedAssertion). not (y.question_id == a.question_id)) i
                (rw differs refl),
            h,
          )
        ];
  }

  not_remaining :
      (q : Text) (xs : List AdmittedAssertion) → mem q (questions (remaining q xs)) ≡ false
  not_remaining q [] = refl
  not_remaining q (x ∷ xs) = ground (arith, not_remaining q xs)

  add_key :
      (admitted : List AdmittedAssertion) (verified : List VerificationKey) (a : AdmittedAssertion)
      (pv : Text)
      → IsSession ir artifact admitted verified
      → In a admitted
      → IsSession ir artifact admitted (verification_key_for a artifact pv ∷ verified)
  unfolding verification_key_for is_key_of
  add_key admitted verified a pv s m = record {
    distinct = s.distinct;
    sourced = s.sourced;
    accepted = s.accepted;
    live = λ k n e. elim (In-cons n) [
      | inl same ↦ (
        a,
        m,
        rw same (
            ground (
              arith,
              eq_refl artifact,
              eq_refl a.question_id,
              eq_refl a.option,
              eq_refl a.provenance_id,
            )),
      )
      | inr old ↦ s.live k old e
    ];
  }

  apply_replace-IsSession :
      (admitted : List AdmittedAssertion) (verified : List VerificationKey) (a : AdmittedAssertion)
      (option provenance : Text) (ev : Evidence) (t : VerificationTransition)
      → IsSession ir artifact admitted verified
      → In a admitted
      → apply_replace ir admitted verified a artifact option provenance ev ≡ ok t
      → IsSession ir artifact t.admitted t.verified
  unfolding apply_replace unchanged
  apply_replace-IsSession admitted verified a option provenance ev t s m h =
      elim (Result-cases
        (validate_raw_answers_for_ir ir (as_answers (set_answer a.question_id option ev)))) [
          | inr (x, e) ↦
              let same : unchanged admitted verified admission_rejected ≡ t =
                ok_injective (rw (e, apply_replace) at h) in
              subst (λ (y : VerificationTransition). IsSession ir artifact y.admitted y.verified)
                same s
          | inl (u, e) ↦
              let (b, made, h') =
                >>=-eq-ok (make_assertion a.question_id option provenance) _
                  (rw (e, apply_replace) at h) in
              let (sourced, named) = make_assertion-parts a.question_id option provenance made in
              let raw = as_answers (set_answer a.question_id option ev) in
              let accepted = validate_raw_answers-In ir raw e (
                In-map (λ (x : Text × Text). (x.0, text x.1))
                  (In-set_answer a.question_id option ev)) in
              subst (λ (y : VerificationTransition). IsSession ir artifact y.admitted y.verified)
                (ok_injective h')
                (subst
                  (λ x.
                    IsSession ir artifact (remaining a.question_id admitted ++ x ∷ [])
                      (drop_keys_for_assertion verified a artifact))
                  (sym named)
                  (extend (remaining a.question_id admitted)
                    (drop_keys_for_assertion verified a artifact)
                    (record {
                      question_id = a.question_id;
                      option = option;
                      provenance_id = provenance;
                    })
                    (remove admitted verified a s m) (not_remaining a.question_id admitted) sourced
                    accepted))
        ]

  apply_to_live-IsSession :
      (admitted : List AdmittedAssertion) (verified : List VerificationKey) (a : AdmittedAssertion)
      (pv : Text) (decision : VerificationDecision) (t : VerificationTransition)
      → IsSession ir artifact admitted verified
      → In a admitted
      → apply_to_live ir admitted verified a artifact pv decision ≡ ok t
      → IsSession ir artifact t.admitted t.verified
  unfolding apply_to_live unchanged
  apply_to_live-IsSession admitted verified a pv insufficient t s m h =
      subst (λ (y : VerificationTransition). IsSession ir artifact y.admitted y.verified)
        (ok_injective h) s
  apply_to_live-IsSession admitted verified a pv retain t s m h =
      subst (λ (y : VerificationTransition). IsSession ir artifact y.admitted y.verified)
        (ok_injective h) (add_key admitted verified a pv s m)
  apply_to_live-IsSession admitted verified a pv retract t s m h =
      subst (λ (y : VerificationTransition). IsSession ir artifact y.admitted y.verified)
        (ok_injective h) (remove admitted verified a s m)
  apply_to_live-IsSession admitted verified a pv (replace option provenance) t s m h =
      let (ev, _, h') = >>=-eq-ok (logical_evidence admitted) _ h in
      apply_replace-IsSession admitted verified a option provenance ev t s m h'

  -- Every decision, applied or refused, keeps the invariant.
  pub apply_verification_decision-IsSession :
      (admitted : List AdmittedAssertion) (verified : List VerificationKey)
      (assertion : AdmittedAssertion) (pv : Text) (decision : VerificationDecision)
      (t : VerificationTransition)
      → IsSession ir artifact admitted verified
      → apply_verification_decision ir admitted verified assertion artifact pv decision ≡ ok t
      → IsSession ir artifact t.admitted t.verified
  unfolding apply_verification_decision unchanged
  apply_verification_decision-IsSession admitted verified assertion pv decision t s h =
      elim (Option-cases (live_assertion admitted assertion.question_id)) [
        | inl e ↦
            subst (λ (y : VerificationTransition). IsSession ir artifact y.admitted y.verified)
              (ok_injective (rw (e, apply_verification_decision) at h)) s
        | inr (a, e) ↦ elim (Bool-cases (same_assertion a assertion)) [
          | inl same ↦
              apply_to_live-IsSession admitted verified a pv decision t s
                (live_assertion-In admitted assertion.question_id e).0
                (rw (e, apply_verification_decision, same) at h)
          | inr differs ↦
              subst (λ (y : VerificationTransition). IsSession ir artifact y.admitted y.verified)
                (ok_injective (rw (e, apply_verification_decision, differs) at h)) s
        ]
      ]
