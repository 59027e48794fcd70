-- ===== src/Evidence.antt =====
-- src/evidence.rs: which assessment phase an observation may claim, and the numbering of the
-- observations of a session. Each `bail!` is a constructor of `EvidenceError`.
pub mod Phase
pub mod Numbers
mod Examples
use aprendiendo.Base.{
  ℕ, String, Bool, ◌&&◌, ◌||◌, not, Option, none, some, List, ◌∷◌, Outcome, ok, err, ◌>>=◌, ◌>>◌,
  bail_if, try_fold, for_each, is_none, is_some_and, has, ◌==◌, if◌then◌else◌,
}
use aprendiendo.Model.Evidence.{
  ObservationRole, AssessmentPhase, HintLevel, ObservationOutcome, assessment_phase_eq,
  hint_level_eq, observation_outcome_eq,
}
use aprendiendo.Model.Requests.{ObservationInput, AttemptInput, PracticeItemInput}
use aprendiendo.Model.Session.{RecordPracticeSessionRequest}

pub data EvidenceError : Type 0 where
  missing_phase incidental_only historical_reserved targeted_incidental : EvidenceError
  missing_strength answer_shown_correct bad_number : EvidenceError

-- The `match` on the declared phase and the role.
declared_phase : Option AssessmentPhase → ObservationRole → Outcome EvidenceError AssessmentPhase
declared_phase (some phase) role = ok phase
declared_phase none ObservationRole.incidental = ok AssessmentPhase.incidental
declared_phase none ObservationRole.targeted = err missing_phase

-- The `match (observation.role, phase)`.
role_allows : ObservationRole → AssessmentPhase → Outcome EvidenceError (Unit {0})
role_allows ObservationRole.incidental AssessmentPhase.incidental = ok tt
role_allows ObservationRole.targeted AssessmentPhase.cold_retrieval = ok tt
role_allows ObservationRole.targeted AssessmentPhase.guided_practice = ok tt
role_allows ObservationRole.targeted AssessmentPhase.immediate_retry = ok tt
role_allows ObservationRole.targeted AssessmentPhase.transfer = ok tt
role_allows ObservationRole.incidental _ = err incidental_only
role_allows ObservationRole.targeted AssessmentPhase.historical = err historical_reserved
role_allows ObservationRole.targeted AssessmentPhase.incidental = err targeted_incidental

pub normalized_phase : ObservationInput → Outcome EvidenceError AssessmentPhase
unfolding declared_phase role_allows assessment_phase_eq hint_level_eq observation_outcome_eq
normalized_phase o = do
  phase ← declared_phase o.assessment_phase o.role
  role_allows o.role phase
  bail_if
      (not (assessment_phase_eq phase AssessmentPhase.incidental) && is_none o.evidence_strength)
      missing_strength
  bail_if
      (is_some_and o.hint_level (λ h. hint_level_eq h HintLevel.answer_shown)
        && observation_outcome_eq o.outcome ObservationOutcome.correct)
      answer_shown_correct
  ok phase

-- `numbers` is the `HashSet` of the numbers that were met, the latest first.
pub validate_one : List ℕ → ObservationInput → Outcome EvidenceError (List ℕ)
validate_one numbers o =
    let number = o.observation_no in
    do
      bail_if (number == 0 || has number numbers) bad_number
      _ ← normalized_phase o
      ok (number ∷ numbers)

pub validate_session_observation_numbers :
    RecordPracticeSessionRequest → Outcome EvidenceError (Unit {0})
validate_session_observation_numbers request = do
  numbers ← try_fold validate_one List.[] request.observations
  numbers ←
      try_fold (λ seen (a : AttemptInput). try_fold validate_one seen a.observations) numbers
        request.attempts
  _ ←
      try_fold (λ seen (i : PracticeItemInput). try_fold validate_one seen i.observations) numbers
        request.items
  ok tt
