-- ===== src/Tutoring/Complete.antt =====
-- The production evidence of an expanded session is about all its attempts and observations.
use mathlib.Core.List.{map-append}
use aprendiendo.Base.{
  ℕ, Bool, true, false, ◌&&◌, some, List, [], ◌∷◌, ◌++◌, ◌≡◌, refl, is_none, is_some, is_some_and,
  leb, flat_map-append, ok, bail_if, ok_or, try_fold, try_fold-keeps, >>=-eq-ok, length, arith, All,
  All-append, Option-cases, inl, inr,
}
use aprendiendo.Model.Requests.{ObservationInput, AttemptInput}
use aprendiendo.Model.Production.{
  AttemptEvidence, ObservationEvidence, ProductionEvidence, VariationAssessment,
}
use aprendiendo.Model.Numbers.{
  attempt_nos, observation_nos, written_observations, evidence_nos, assessed_nos,
}
use aprendiendo.Model.Session.{RecordPracticeSessionRequest}
use aprendiendo.Evidence.Numbers.{numbers_of as session_numbers, all_observations}
use aprendiendo.Production.Classes.{is_initial, is_self_correction}
use aprendiendo.Tutoring.Requests.{
  TutoringAttemptEvidence, TutoringObservationInput, TutoringAttemptInput, TutoringTurnInput,
  RecordTutoringSessionRequest,
}
use aprendiendo.Tutoring.Checks.{
  TutoringError, text, optional_text, enumerate_from, compact_observation,
}
use aprendiendo.Tutoring.Scan.{AttemptMeta, ObservationSlot, find_meta, find_slot}
use aprendiendo.Tutoring.Emit.{
  Written, assess, emit_observation, emit_intervention, original_no, evidence_of, emit_evidence,
  attempt_input, emit_attempt, emit_turn,
}
use aprendiendo.Tutoring.Expand.{production_present, evidence_envelope, nothing_written, expand}
use aprendiendo.Tutoring.Whole.{expand-Expanded, session_numbers-Expanded}

-- A first attempt names no original, a self-correction names one, and an original is earlier.
pub record IsOriginal (e : AttemptEvidence) : Type 0 where
  pub initial : is_initial e.attempt_kind && is_some e.original_attempt_no ≡ false
  pub correction : is_self_correction e.attempt_kind && is_none e.original_attempt_no ≡ false
  pub earlier : is_some_and e.original_attempt_no (λ n. leb e.attempt_no n) ≡ false

-- One piece of evidence about each attempt and each observation, in their order.
pub record IsComplete (written : List AttemptInput) (es : List AttemptEvidence)
    (os : List ObservationEvidence) : Type 0 where
  pub attempts : evidence_nos es ≡ attempt_nos written
  pub observations : assessed_nos os ≡ observation_nos (written_observations written)
  pub originals : All IsOriginal es

emit_observation-keeps :
    (slots : List ObservationSlot) (meta : AttemptMeta)
    (acc acc' : List ObservationInput × List ObservationEvidence) (x : ℕ × TutoringObservationInput)
    → assessed_nos acc.1 ≡ observation_nos acc.0
    → emit_observation true slots meta acc x ≡ ok acc'
    → assessed_nos acc'.1 ≡ observation_nos acc'.0
unfolding emit_observation compact_observation
emit_observation-keeps slots meta acc acc' (index, o) same h =
    let (number, _, h1) =
      >>=-eq-ok (ok_or (find_slot meta.key index slots) TutoringError.missing_key) _ h in
    let (es, assessed, last) = >>=-eq-ok (assess true number meta.attempt_no o.assessment) _ h1 in
    let one : assessed_nos es ≡ number ∷ [] = elim (Option-cases o.assessment) [
      | inl none' ↦ ground (arith, none')
      | inr (a, some') ↦ ground (arith, some')
    ] in
    let written : acc' ≡ (acc.0 ++ compact_observation o number ∷ [], acc.1 ++ es) =
      ground (arith, last) in
    rw
      (
        written,
        map-append (λ (e : ObservationEvidence). e.observation_no) acc.1 es,
        map-append (λ (x : ObservationInput). x.observation_no) acc.0
            (compact_observation o number ∷ []),
        same,
        one,
      )
      refl

evidence_of-IsOriginal :
    (metas : List AttemptMeta) (meta : AttemptMeta) (e : TutoringAttemptEvidence)
    (out : AttemptEvidence)
    → evidence_of metas meta e ≡ ok out
    → (out.attempt_no ≡ meta.attempt_no) × IsOriginal out
unfolding evidence_of
evidence_of-IsOriginal metas meta e out h =
    let (original, _, h1) = >>=-eq-ok (original_no meta.original metas) _ h in
    let (_, initial, h2) =
      >>=-eq-ok
        (bail_if (is_initial e.kind && is_some original) TutoringError.initial_with_original) _
        h1 in
    let (_, correction, h3) =
      >>=-eq-ok
        (bail_if (is_self_correction e.kind && is_none original)
          TutoringError.self_correction_without_original)
        _ h2 in
    let (_, earlier, h4) =
      >>=-eq-ok
        (bail_if (is_some_and original (λ n. leb meta.attempt_no n))
          TutoringError.original_not_earlier)
        _ h3 in
    let (_, _, h5) = >>=-eq-ok (text e.scenario 160) _ h4 in
    let (_, _, h6) = >>=-eq-ok (text e.topic 160) _ h5 in
    let (_, _, last) = >>=-eq-ok (optional_text e.exposure_source 500) _ h6 in
    (
      ground (arith, last),
      record {
        initial = ground (arith, initial, last);
        correction = ground (arith, correction, last);
        earlier = ground (arith, earlier, last);
      },
    )

emit_attempt-keeps :
    (metas : List AttemptMeta) (slots : List ObservationSlot) (ti count : ℕ) (w out : Written)
    (x : ℕ × TutoringAttemptInput)
    → IsComplete w.attempts w.evidence w.observations
    → emit_attempt true metas slots ti count w x ≡ ok out
    → IsComplete out.attempts out.evidence out.observations
unfolding emit_attempt emit_evidence
emit_attempt-keeps metas slots ti count w out (ai, a) c h =
    let (meta, _, h1) =
      >>=-eq-ok (ok_or (find_meta (ti, ai) metas) TutoringError.missing_key) _ h in
    let ((os, assessed), folded, h2) =
      >>=-eq-ok
        (try_fold (emit_observation true slots meta) ([], []) (enumerate_from 0 a.observations)) _
        h1 in
    let ((is, last_no), _, h3) =
      >>=-eq-ok
        (try_fold (emit_intervention true metas count meta) (w.interventions, w.intervention_no)
          a.interventions_after)
        _ h2 in
    let (es, emitted, last) = >>=-eq-ok (emit_evidence true metas meta a.evidence) _ h3 in
    let (te, _, h4) = >>=-eq-ok (ok_or a.evidence TutoringError.evidence_required) _ emitted in
    let (e, judged, one) = >>=-eq-ok (evidence_of metas meta te) _ h4 in
    let (number, original) = evidence_of-IsOriginal metas meta te e judged in
    let a' = attempt_input meta a os in
    let matched =
      try_fold-keeps (emit_observation true slots meta)
        (λ acc. assessed_nos acc.1 ≡ observation_nos acc.0) (emit_observation-keeps slots meta)
        ([], []) (enumerate_from 0 a.observations) refl folded in
    let attempts : out.attempts ≡ w.attempts ++ a' ∷ [] = ground (arith, last) in
    let evidence : out.evidence ≡ w.evidence ++ e ∷ [] = ground (arith, last, one) in
    let observations : out.observations ≡ w.observations ++ assessed = ground (arith, last) in
    record {
      attempts =
          rw
            (
              attempts,
              evidence,
              map-append (λ (x : AttemptEvidence). x.attempt_no) w.evidence (e ∷ []),
              map-append (λ (x : AttemptInput). x.attempt_no) w.attempts (a' ∷ []),
              c.attempts,
              number,
            )
            refl;
      observations =
          rw
            (
              attempts,
              observations,
              map-append (λ (x : ObservationEvidence). x.observation_no) w.observations assessed,
              flat_map-append (λ (x : AttemptInput). x.observations) w.attempts a',
              map-append (λ (x : ObservationInput). x.observation_no)
                  (written_observations w.attempts) os,
              c.observations,
              matched,
            )
            refl;
      originals =
          rw evidence (All-append IsOriginal w.evidence (e ∷ []) c.originals (original, tt));
    }

emit_turns-keeps :
    (metas : List AttemptMeta) (slots : List ObservationSlot) (w : Written)
    (turns : List (ℕ × TutoringTurnInput)) {out : Written}
    → IsComplete w.attempts w.evidence w.observations
    → try_fold (emit_turn true metas slots) w turns ≡ ok out
    → IsComplete out.attempts out.evidence out.observations
unfolding emit_turn
emit_turns-keeps metas slots =
    try_fold-keeps (emit_turn true metas slots)
      (λ w. IsComplete w.attempts w.evidence w.observations)
      (λ w w' x.
        try_fold-keeps (emit_attempt true metas slots x.0 (length (TutoringTurnInput.attempts x.1)))
          (λ v. IsComplete v.attempts v.evidence v.observations)
          (emit_attempt-keeps metas slots x.0 (length (TutoringTurnInput.attempts x.1))) w
          (enumerate_from 0 (TutoringTurnInput.attempts x.1)))

evidence_envelope-some :
    (present : Bool) (r : RecordTutoringSessionRequest) (w : Written)
    (vs : List VariationAssessment) (e : ProductionEvidence)
    → evidence_envelope present r w vs ≡ ok (some e)
    → (present ≡ true) × (e.attempts ≡ w.evidence) × (e.observations ≡ w.observations)
unfolding evidence_envelope
evidence_envelope-some false r w vs e h = absurd (cc)
evidence_envelope-some true r w vs e h =
    let (version, _, last) =
      >>=-eq-ok (ok_or r.policy_version TutoringError.policy_version_required) _ h in
    (refl, ground (arith, last), ground (arith, last))

-- An expanded session with production evidence has exactly one piece of evidence about each of its
-- attempts and about each of its observations, in their order; a first attempt names no original
-- attempt, a self-correction names one, and an original is an earlier attempt.
pub expand-IsComplete :
    (r : RecordTutoringSessionRequest) (out : RecordPracticeSessionRequest) (e : ProductionEvidence)
    → expand r ≡ ok out
    → out.production_evidence ≡ some e
    → (evidence_nos e.attempts ≡ attempt_nos out.attempts)
      × (assessed_nos e.observations ≡ session_numbers (all_observations out))
      × All IsOriginal e.attempts
expand-IsComplete r out e h given =
    let x = expand-Expanded r h in
    let (present, attempts, observations) =
      evidence_envelope-some (production_present r.turns r.reviews) r x.written x.variations e
        (rw (← given) x.envelope) in
    let c =
      emit_turns-keeps x.totals.metas x.slots.entries nothing_written (enumerate_from 0 r.turns)
        (record { attempts = refl; observations = refl; originals = tt })
        (rw present at x.emitted) in
    (
      rw (attempts, x.attempts) c.attempts,
      rw (observations, session_numbers-Expanded r out x) c.observations,
      rw attempts c.originals,
    )
