-- ===== src/Evidence/Examples.antt =====
-- A session with two observations, on which the theorems about evidence are applied.
use aprendiendo.Base.{ℕ, none, some, [], ◌∷◌, ◌≡◌, ◌↔◌, ok, All, IsDistinct}
use aprendiendo.Model.Formats.{ExerciseTypeKey}
use aprendiendo.Model.Evidence.{
  ObservationOutcome, ObservationRole, EvidenceStrength, AssessmentPhase,
}
use aprendiendo.Model.Requests.{ObservationInput}
use aprendiendo.Model.Session.{RecordPracticeSessionRequest}
use aprendiendo.Evidence.{normalized_phase, validate_session_observation_numbers}
use aprendiendo.Evidence.Phase.{Admissible, normalized_phase_iff}
use aprendiendo.Evidence.Numbers.{IsNumbered, all_observations, numbers_of, session_numbers_iff}

abbrev observation : ℕ → ObservationInput
observation n = record {
  observation_no = n;
  weakness_key = "ser-estar";
  outcome = ObservationOutcome.correct;
  role = ObservationRole.targeted;
  assessment_phase = some AssessmentPhase.transfer;
  hint_level = none;
  learner_effort = none;
  evidence_source = none;
  evidence_strength = some EvidenceStrength.spontaneous_production;
  severity = none;
  produced = none;
  correction = none;
  error_span = none;
  notes = none;
}

abbrev session : RecordPracticeSessionRequest
session = record {
  production_evidence = none;
  idempotency_key = "s-1";
  session_date = none;
  reviewed_at = none;
  task_ref = none;
  exercise_type_key = ExerciseTypeKey.production_drill;
  topic = none;
  notes = none;
  new_weaknesses = [];
  items = [];
  attempts = [];
  observations = observation 1 ∷ observation 2 ∷ [];
  findings = [];
  reviews = [];
  activity_runs = [];
  task_requirements = [];
  requested_point_assessments = [];
}

normalized_phase-iff_example :
    (normalized_phase (observation 1) ≡ ok AssessmentPhase.transfer)
    ↔ Admissible (observation 1) AssessmentPhase.transfer
normalized_phase-iff_example = normalized_phase_iff (observation 1) AssessmentPhase.transfer

session_numbers-iff_example : (validate_session_observation_numbers session ≡ ok tt) ↔ (
    All (IsNumbered []) (all_observations session)
    × IsDistinct (numbers_of (all_observations session)))
session_numbers-iff_example = session_numbers_iff session
