-- ===== src/Production/Validation.antt =====
-- `validate_evidence` of src/production.rs: the production evidence of a session against its
-- attempts, items and observations. A `HashSet` is the list of what was inserted, the latest first.
use aprendiendo.Base.{
  ℕ, Bool, true, not, ◌&&◌, ◌||◌, none, some, List, [], ◌∷◌, Outcome, ok, ◌>>=◌, ◌>>◌, bail_if,
  for_each, try_fold, ok_or, is_none, is_some, is_some_and, any, has, length, is_blank, str_eq, leb,
  ◌==◌, if◌then◌else◌,
}
use aprendiendo.Model.Evidence.{ObservationOutcome, observation_outcome_eq}
use aprendiendo.Model.Requests.{ObservationInput, AttemptInput, PracticeItemInput}
use aprendiendo.Model.Session.{RecordPracticeSessionRequest}
use aprendiendo.Model.Production.{
  TargetAccuracy, AttemptEvidence, ObservationEvidence, Intervention, VariationAssessment,
  ProductionEvidence,
}
use aprendiendo.Production.Classes.{find_attempt, is_initial, is_self_correction}
use aprendiendo.Production.Reviews.{
  observations, find_observation, is_unobserved, is_not_assessable,
}

pub data EvidenceRefusal : Type 0 where
  duplicate_attempt invalid_attempt incomplete_attempt missing_provenance : EvidenceRefusal
  invalid_original self_correction_without_original initial_retry uncovered_attempts :
      EvidenceRefusal
  duplicate_observation invalid_observation invalid_observation_attempt not_nested : EvidenceRefusal
  assessed_unobserved inconsistent_accuracy observed_outcome uncovered_observations :
      EvidenceRefusal
  invalid_intervention untimed_self_correction invalid_variation : EvidenceRefusal

-- `r.attempts.iter().any(|v| v.attempt_no == n)`
abbrev pub has_attempt : ℕ → List AttemptInput → Bool
has_attempt n attempts = any (λ (v : AttemptInput). v.attempt_no == n) attempts

-- The body of the loop over the evidence about attempts.
unfoldable pub validate_attempt :
    RecordPracticeSessionRequest → List ℕ → AttemptEvidence → Outcome EvidenceRefusal (List ℕ)
validate_attempt r seen a = do
  bail_if (has a.attempt_no seen) EvidenceRefusal.duplicate_attempt
  attempt ← ok_or (find_attempt a.attempt_no r.attempts) EvidenceRefusal.invalid_attempt
  bail_if
      (is_blank (AttemptInput.transcript attempt)
        || not (
            any
              (λ (i : PracticeItemInput).
                is_some_and (AttemptInput.practice_item_no attempt) (λ n. i.item_no == n))
              r.items))
      EvidenceRefusal.incomplete_attempt
  bail_if (is_blank a.assessment_provenance.evidence) EvidenceRefusal.missing_provenance
  bail_if
      (is_some_and a.original_attempt_no
        (λ n. leb a.attempt_no n || not (has_attempt n r.attempts)))
      EvidenceRefusal.invalid_original
  bail_if (is_self_correction a.attempt_kind && is_none a.original_attempt_no)
      EvidenceRefusal.self_correction_without_original
  bail_if (is_initial a.attempt_kind && is_some a.original_attempt_no) EvidenceRefusal.initial_retry
  ok (a.attempt_no ∷ seen)

-- The value of `consistent`.
unfoldable pub is_consistent : TargetAccuracy → ObservationOutcome → Bool
unfolding observation_outcome_eq
is_consistent TargetAccuracy.correct outcome =
    observation_outcome_eq outcome ObservationOutcome.correct
    || observation_outcome_eq outcome ObservationOutcome.prompted_correct
is_consistent TargetAccuracy.incorrect outcome =
    observation_outcome_eq outcome ObservationOutcome.incorrect
is_consistent TargetAccuracy.partially_correct outcome =
    observation_outcome_eq outcome ObservationOutcome.partially_correct
is_consistent TargetAccuracy.not_assessable _ = true

-- The last test of the loop's body.
unfoldable pub validate_outcome :
    ObservationEvidence → ObservationOutcome → Outcome EvidenceRefusal (Unit {0})
unfolding observation_outcome_eq is_consistent
validate_outcome o outcome =
    if is_unobserved o.target_realization
    then bail_if (not (observation_outcome_eq outcome ObservationOutcome.omitted))
        EvidenceRefusal.observed_outcome
    else bail_if (not (is_consistent o.target_accuracy outcome))
        EvidenceRefusal.inconsistent_accuracy

-- The body of the loop over the evidence about observations.
unfoldable pub validate_observation :
    RecordPracticeSessionRequest → List ℕ → ObservationEvidence → Outcome EvidenceRefusal (List ℕ)
unfolding validate_outcome
validate_observation r seen o = do
  bail_if (has o.observation_no seen) EvidenceRefusal.duplicate_observation
  actual ←
      ok_or (find_observation o.observation_no (observations r)) EvidenceRefusal.invalid_observation
  a ← ok_or (find_attempt o.attempt_no r.attempts) EvidenceRefusal.invalid_observation_attempt
  bail_if
      (not (
        any (λ (v : ObservationInput). v.observation_no == o.observation_no)
          (AttemptInput.observations a)))
      EvidenceRefusal.not_nested
  bail_if (is_unobserved o.target_realization && not (is_not_assessable o.target_accuracy))
      EvidenceRefusal.assessed_unobserved
  bail_if (is_blank o.assessment_provenance.evidence) EvidenceRefusal.missing_provenance
  validate_outcome o (ObservationInput.outcome actual)
  ok (o.observation_no ∷ seen)

-- The body of the loop over the interventions.
unfoldable pub validate_intervention :
    RecordPracticeSessionRequest → List ℕ → Intervention → Outcome EvidenceRefusal (List ℕ)
validate_intervention r seen i = do
  bail_if
      (i.intervention_no == 0
        || (has i.intervention_no seen
            || (is_blank i.text
                || (not (has_attempt i.after_attempt_no r.attempts)
                    || is_some_and i.before_attempt_no
                        (λ n. leb n i.after_attempt_no || not (has_attempt n r.attempts))))))
      EvidenceRefusal.invalid_intervention
  ok (i.intervention_no ∷ seen)

-- An intervention after the original attempt and before this one.
abbrev pub is_timed : AttemptEvidence → Intervention → Bool
is_timed a i =
    is_some_and a.original_attempt_no (λ n. leb n i.after_attempt_no)
    && is_some_and i.before_attempt_no (λ n. n == a.attempt_no)

unfoldable pub validate_timing :
    ProductionEvidence → AttemptEvidence → Outcome EvidenceRefusal (Unit {0})
validate_timing e a =
    bail_if (is_self_correction a.attempt_kind && not (any (is_timed a) e.interventions))
      EvidenceRefusal.untimed_self_correction

unfoldable pub validate_variation :
    RecordPracticeSessionRequest → VariationAssessment → Outcome EvidenceRefusal (Unit {0})
validate_variation r v =
    bail_if
      (is_blank v.rationale
        || any
            (λ n. not (
              any
                (λ (o : ObservationInput).
                  o.observation_no == n && str_eq o.weakness_key v.weakness_key)
                (observations r)))
            v.observation_nos)
      EvidenceRefusal.invalid_variation

-- The tests where the session has production evidence.
unfoldable pub validate_some :
    RecordPracticeSessionRequest → ProductionEvidence → Outcome EvidenceRefusal (Unit {0})
unfolding validate_timing validate_variation
validate_some r e = do
  seen ← try_fold (validate_attempt r) [] e.attempts
  bail_if (not (length seen == length r.attempts)) EvidenceRefusal.uncovered_attempts
  seen ← try_fold (validate_observation r) [] e.observations
  bail_if (not (length seen == length (observations r))) EvidenceRefusal.uncovered_observations
  _ ← try_fold (validate_intervention r) [] e.interventions
  for_each (validate_timing e) e.attempts
  for_each (validate_variation r) e.variation_assessments

unfoldable pub validate_evidence : RecordPracticeSessionRequest → Outcome EvidenceRefusal (Unit {0})
unfolding validate_some
validate_evidence r = elim r.production_evidence [ none ↦ ok tt | some e ↦ validate_some r e ]
