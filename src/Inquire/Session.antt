-- ===== src/Inquire/Session.antt =====
-- Sessions over smeme/reasoning/runtime/inquire/transition.py as sequences of moves: admissions and
-- verification decisions, in any order.
use smeme.Base.{
  not, Text, ==→eq, is_blank, ◌≡◌, refl, true, false, List, [], In, arith, inl, inr, subst,
  In-of_keep, Bool-cases, Option-cases, not-false,
}
use smeme.Base.Result.{ok, ok_injective, >>=-eq-ok, Result-cases}
use smeme.Ir.Types.{Ir}
use smeme.Runtime.Input.{validate_raw_answers_for_ir}
use smeme.Inquire.Types.{
  AdmittedAssertion, VerificationKey, logical_evidence, make_assertion, same_assertion,
}
use smeme.Inquire.Transition.{
  VerificationDecision, retain, retract, replace, insufficient, VerificationTransition, unchanged,
  live_assertion, is_key_of, drop_keys_for_assertion, set_answer, as_answers, admit_assertion,
  apply_replace, apply_to_live, apply_verification_decision,
}
use smeme.Inquire.Transition.Projection.{pairs, logical_evidence-pairs}
use smeme.Inquire.Transition.Invariant.{
  IsSession, admit_assertion-IsSession, apply_verification_decision-IsSession,
}

pub record SessionState : Type 0 where
  pub admitted : List AdmittedAssertion
  pub verified : List VerificationKey

abbrev pub blank_session : SessionState
blank_session = record { admitted = []; verified = [] }

-- One call of the kernel that returned.
pub data Move (ir : Ir) (artifact : Text) (s : SessionState) : SessionState → Type 0 where
  admits :
      (q option provenance : Text) (admitted : List AdmittedAssertion)
      → admit_assertion ir s.admitted q option provenance ≡ ok admitted
      → Move ir artifact s (record { admitted = admitted; verified = s.verified })
  decides :
      (assertion : AdmittedAssertion) (pv : Text) (decision : VerificationDecision)
      (t : VerificationTransition)
      → apply_verification_decision ir s.admitted s.verified assertion artifact pv decision ≡ ok t
      → Move ir artifact s (record { admitted = t.admitted; verified = t.verified })

pub data Reachable (ir : Ir) (artifact : Text) : SessionState → Type 0 where
  start : Reachable ir artifact blank_session
  then_move :
      {s t : SessionState}
      → Reachable ir artifact s
      → Move ir artifact s t
      → Reachable ir artifact t

abbrev pub IsSound : Ir → Text → SessionState → Type 0
IsSound ir artifact s = IsSession ir artifact s.admitted s.verified

module _ (ir : Ir) (artifact : Text) where
  IsSound-blank : IsSound ir artifact blank_session
  IsSound-blank = record {
    distinct = tt;
    sourced = λ a m. elim m [ ];
    accepted = λ a m. elim m [ ];
    live = λ k m e. elim m [ ];
  }

  Move-IsSound :
      {s t : SessionState} → Move ir artifact s t → IsSound ir artifact s → IsSound ir artifact t
  Move-IsSound {s} (admits q option provenance admitted h) i =
      admit_assertion-IsSession ir artifact s.admitted admitted s.verified q option provenance i h
  Move-IsSound {s} (decides assertion pv decision t h) i =
      apply_verification_decision-IsSession ir artifact s.admitted s.verified assertion pv decision
        t i h

  -- In every session that starts blank and makes only moves that returned, each question has one
  -- live assertion, each assertion has a provenance and an answer that the tree accepts, and each
  -- verification key of the artifact is a key of an assertion that is still live.
  pub Reachable-IsSound : {s : SessionState} → Reachable ir artifact s → IsSound ir artifact s
  Reachable-IsSound start = IsSound-blank
  Reachable-IsSound (then_move r m) = Move-IsSound m (Reachable-IsSound r)

  module _ (admitted : List AdmittedAssertion) (verified : List VerificationKey)
      (assertion : AdmittedAssertion) (pv : Text) where
    same_assertion-eq : (a : AdmittedAssertion) → same_assertion a assertion ≡ true → a ≡ assertion
    unfolding same_assertion
    same_assertion-eq a h = ground (
      arith,
      ==→eq a.question_id assertion.question_id,
      ==→eq a.option assertion.option,
      ==→eq a.provenance_id assertion.provenance_id,
    )

    abbrev HasProvenance : VerificationDecision → Type 0
    HasProvenance (replace option provenance) = is_blank provenance ≡ false
    HasProvenance _ = Unit

    replace-total :
        (a : AdmittedAssertion) (option provenance : Text)
        → IsSession ir artifact admitted verified
        → is_blank provenance ≡ false
        → (t : VerificationTransition) × (apply_to_live ir admitted verified a artifact pv
              (replace option provenance)
            ≡ ok t)
    unfolding apply_to_live apply_replace make_assertion
    replace-total a option provenance s h =
        elim (Result-cases (
          validate_raw_answers_for_ir ir
            (as_answers (set_answer a.question_id option (pairs admitted))))) [
              | inl (u, e) ↦
                  rw (logical_evidence-pairs admitted s.distinct)
                    (rw (e, apply_replace, h) (_, refl))
              | inr (x, e) ↦
                  rw (logical_evidence-pairs admitted s.distinct) (rw (e, apply_replace) (_, refl))
            ]

    to_live-total :
        (a : AdmittedAssertion) (decision : VerificationDecision)
        → IsSession ir artifact admitted verified
        → HasProvenance decision
        → (t : VerificationTransition) × (apply_to_live ir admitted verified a artifact pv decision
            ≡ ok t)
    unfolding apply_to_live
    to_live-total a retain s h = (_, refl)
    to_live-total a retract s h = (_, refl)
    to_live-total a insufficient s h = (_, refl)
    to_live-total a (replace option provenance) s h = replace-total a option provenance s h

    -- In a session no decision raises, but for a replacement with a blank provenance.
    pub apply_verification_decision_total :
        (decision : VerificationDecision)
        → IsSession ir artifact admitted verified
        → HasProvenance decision
        → (t : VerificationTransition) × (apply_verification_decision ir admitted verified assertion
              artifact pv decision
            ≡ ok t)
    unfolding apply_verification_decision
    apply_verification_decision_total decision s h =
        elim (Option-cases (live_assertion admitted assertion.question_id)) [
          | inl e ↦ rw (e, apply_verification_decision) (_, refl)
          | inr (a, e) ↦ elim (Bool-cases (same_assertion a assertion)) [
            | inl same ↦ rw (e, apply_verification_decision, same) (to_live-total a decision s h)
            | inr differs ↦ rw (e, apply_verification_decision, differs) (_, refl)
          ]
        ]

    -- What a transition promises about the evidence and the keys of the assertion that it was about.
    abbrev Rebased : VerificationTransition → Type 0
    Rebased t =
        (t.base_changed ≡ false → t.admitted ≡ admitted)
        × (t.base_changed ≡ true
            → (k : VerificationKey) → In k t.verified
            → is_key_of assertion artifact k ≡ false)

    dropped :
        (k : VerificationKey)
        → In k (drop_keys_for_assertion verified assertion artifact)
        → is_key_of assertion artifact k ≡ false
    unfolding drop_keys_for_assertion
    dropped k m = not-false _ (In-of_keep (λ k. not (is_key_of assertion artifact k)) verified m).1

    replace-Rebased :
        (option provenance : Text) (ev : _) (t : VerificationTransition)
        → apply_replace ir admitted verified assertion artifact option provenance ev ≡ ok t
        → Rebased t
    unfolding apply_replace unchanged make_assertion
    replace-Rebased option provenance ev t h =
        elim (Result-cases (
          validate_raw_answers_for_ir ir
            (as_answers (set_answer assertion.question_id option ev)))) [
              | inl (u, e) ↦
                  let (b, made, h') =
                    >>=-eq-ok (make_assertion assertion.question_id option provenance) _
                      (rw (e, apply_replace) at h) in
                  subst Rebased (ok_injective h') (λ c. absurd (cc), λ c k m. dropped k m)
              | inr (x, e) ↦
                  subst Rebased (ok_injective (rw (e, apply_replace) at h))
                    (λ c. refl, λ c. absurd (cc))
            ]

    to_live-Rebased :
        (decision : VerificationDecision) (t : VerificationTransition)
        → apply_to_live ir admitted verified assertion artifact pv decision ≡ ok t
        → Rebased t
    unfolding apply_to_live unchanged
    to_live-Rebased insufficient t h = subst Rebased (ok_injective h) (λ c. refl, λ c. absurd (cc))
    to_live-Rebased retain t h = subst Rebased (ok_injective h) (λ c. refl, λ c. absurd (cc))
    to_live-Rebased retract t h =
        subst Rebased (ok_injective h) (λ c. absurd (cc), λ c k m. dropped k m)
    to_live-Rebased (replace option provenance) t h =
        let (ev, _, h') = >>=-eq-ok (logical_evidence admitted) _ h in
        replace-Rebased option provenance ev t h'

    decision-Rebased :
        (decision : VerificationDecision) (t : VerificationTransition)
        → apply_verification_decision ir admitted verified assertion artifact pv decision ≡ ok t
        → Rebased t
    unfolding apply_verification_decision unchanged
    decision-Rebased decision t h =
        elim (Option-cases (live_assertion admitted assertion.question_id)) [
          | inl e ↦
              subst Rebased (ok_injective (rw (e, apply_verification_decision) at h))
                (λ c. refl, λ c. absurd (cc))
          | inr (a, e) ↦ elim (Bool-cases (same_assertion a assertion)) [
            | inl same ↦ to_live-Rebased decision t (
                subst (λ x. apply_to_live ir admitted verified x artifact pv decision ≡ ok t)
                  (same_assertion-eq a same) (rw (e, apply_verification_decision, same) at h))
            | inr differs ↦
                subst Rebased (ok_injective (rw (e, apply_verification_decision, differs) at h))
                  (λ c. refl, λ c. absurd (cc))
          ]
        ]

    -- A decision that returns and reports an unchanged base has left the assertions as they were.
    pub apply_verification_decision_same_base :
        (decision : VerificationDecision) (t : VerificationTransition)
        → apply_verification_decision ir admitted verified assertion artifact pv decision ≡ ok t
        → t.base_changed ≡ false
        → t.admitted ≡ admitted
    apply_verification_decision_same_base decision t h b = (decision-Rebased decision t h).0 b

    -- A decision that returns and reports a changed base has left no key of the assertion in the
    -- artifact, of any policy version.
    pub apply_verification_decision_revoked :
        (decision : VerificationDecision) (t : VerificationTransition)
        → apply_verification_decision ir admitted verified assertion artifact pv decision ≡ ok t
        → t.base_changed ≡ true
        → (k : VerificationKey) → In k t.verified
        → is_key_of assertion artifact k ≡ false
    apply_verification_decision_revoked decision t h b k m = (decision-Rebased decision t h).1 b k m
