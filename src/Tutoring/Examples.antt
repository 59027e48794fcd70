-- ===== src/Tutoring/Examples.antt =====
-- A session of one turn with a first attempt and its correction, on which the theorems about
-- `expand` are applied.
use aprendiendo.Base.{
  map, true, Option, none, some, List, [], ◌∷◌, ◌≡◌, ◌↔◌, refl, Outcome, ok, err, All, IsDistinct,
  any, has, not, ◌||◌, is_ok, is_blank, is_whitespace,
}
use aprendiendo.Model.Formats.{DrillType, ExerciseTypeKey}
use aprendiendo.Model.Evidence.{
  AssessmentPhase, EvidenceStrength, FsrsRating, ObservationOutcome, observation_outcome_eq,
  observation_outcome_index, ObservationRole, RetrievalMode,
}
use aprendiendo.Model.Requests.{ReviewInput}
use aprendiendo.Model.Production.{
  AssessmentProvenance, AttemptKind, CommunicativeOutcome, Exposure, InterventionKind, PromptCueing,
  ProvenanceKind, TargetAccuracy, TargetRealization, VariationAssessment, ProductionEvidence,
}
use aprendiendo.Model.Numbers.{attempt_nos, observation_nos, evidence_nos, assessed_nos}
use aprendiendo.Model.Session.{RecordPracticeSessionRequest}
use aprendiendo.Evidence.{normalized_phase, validate_session_observation_numbers}
use aprendiendo.Evidence.Numbers.{numbers_of as session_numbers, all_observations}
use aprendiendo.Production.Classes.{is_self_correction}
use aprendiendo.Production.Reviews.{observations}
use aprendiendo.Production.Validation.{
  validate_attempt, is_consistent, validate_outcome, validate_observation, validate_intervention,
  validate_timing, validate_variation, validate_some, validate_evidence,
}
use aprendiendo.Production.Accepted.{
  is_between, validate_evidence-covers, validate_evidence-corrections,
}
use aprendiendo.Tutoring.Requests.{
  TutoringAttemptReference, TutoringObservationInput, TutoringInterventionInput,
  TutoringAttemptInput, TutoringTurnInput, RecordTutoringSessionRequest,
}
use aprendiendo.Tutoring.Checks.{
  TutoringError, text, optional_text, checked_index, compact_observation, finding,
  feedback_for_turn,
}
use aprendiendo.Tutoring.Scan.{
  resolve_attempt, resolve_observation, original_of, check_attempt_input, scan_attempt, scan_turn,
  number_one, number_attempt, number_turn,
}
use aprendiendo.Tutoring.Emit.{
  emit_observation, before_attempt, emit_intervention, original_no, evidence_of, emit_evidence,
  emit_attempt, emit_turn,
}
use aprendiendo.Tutoring.Expand.{
  production_present, emit_item, emit_variation, emit_review, evidence_envelope, emit_assessment,
  check_request, expand,
}
use aprendiendo.Tutoring.Slots.{observations_in_turns}
use aprendiendo.Tutoring.Order.{numbers_from, attempts_in_turns}
use aprendiendo.Tutoring.Whole.{expand-numbers, expand-validates_iff}
use aprendiendo.Tutoring.References.{variations_of, IsObserved, expand-citations}
use aprendiendo.Tutoring.Complete.{IsOriginal, expand-IsComplete}

abbrev judged : AssessmentProvenance
judged = record { kind = ProvenanceKind.tutor_judgment; evidence = "heard" }

abbrev used_ser : TutoringObservationInput
used_ser = record {
  weakness_key = "ser-estar";
  outcome = ObservationOutcome.correct;
  role = some ObservationRole.targeted;
  assessment_phase = some AssessmentPhase.transfer;
  hint_level = none;
  learner_effort = none;
  evidence_source = none;
  evidence_strength = some EvidenceStrength.spontaneous_production;
  severity = none;
  produced = none;
  correction = none;
  error_span = none;
  notes = none;
  assessment = some (record {
    target_realization = TargetRealization.used;
    target_accuracy = TargetAccuracy.correct;
    provenance = judged;
  });
}

abbrev attempt_of :
    AttemptKind
    → Option TutoringAttemptReference
    → List TutoringInterventionInput
    → TutoringAttemptInput
attempt_of kind original interventions = record {
  transcript = "Es tarde";
  response_mode = none;
  target_duration_seconds = none;
  actual_duration_milliseconds = none;
  response_latency_milliseconds = none;
  timing_source = none;
  evidence = some (record {
    kind = kind;
    original_attempt = original;
    cueing = PromptCueing.none_detected;
    exposure = Exposure.none_known;
    exposure_source = none;
    outcome = CommunicativeOutcome.successful;
    provenance = judged;
    scenario = "home";
    topic = "time";
    sentence_count = none;
    effort = none;
  });
  observations = used_ser ∷ [];
  findings = [];
  interventions_after = interventions;
}

abbrev spoken_turn : TutoringTurnInput
spoken_turn = record {
  drill_type = DrillType.translation;
  prompt = "It is late";
  target_weakness_keys = "ser-estar" ∷ [];
  communicative_function = some "telling the time";
  attempts =
      attempt_of AttemptKind.initial none (
        record { kind = InterventionKind.indirect_hint; text = "ser"; target_weakness_keys = [] }
        ∷ [])
      ∷ attempt_of AttemptKind.self_correction (some (record { turn = 1; attempt = 1 })) []
      ∷ [];
}

abbrev tutored : RecordTutoringSessionRequest
tutored = record {
  task_requirements = [];
  task_assessments = [];
  idempotency_key = "t-1";
  exercise_type_key = ExerciseTypeKey.production_drill;
  session_date = none;
  reviewed_at = none;
  task_ref = none;
  topic = none;
  notes = none;
  policy_version = some 1;
  session_overrides = none;
  new_weaknesses = [];
  turns = spoken_turn ∷ [];
  reviews =
      record {
        target = "ser-estar";
        rating = FsrsRating.good;
        retrieval_mode = RetrievalMode.spontaneous_production;
        evidence_strength = EvidenceStrength.spontaneous_production;
        observation_refs = record { turn = 1; attempt = 2; observation = 1 } ∷ [];
        rating_rationale = none;
        rating_source = none;
        evidence = "said it";
        variation = none;
      }
      ∷ [];
}

abbrev blank_session : RecordPracticeSessionRequest
blank_session = record {
  production_evidence = none;
  idempotency_key = "";
  session_date = none;
  reviewed_at = none;
  task_ref = none;
  exercise_type_key = ExerciseTypeKey.production_drill;
  topic = none;
  notes = none;
  new_weaknesses = [];
  items = [];
  attempts = [];
  observations = [];
  findings = [];
  reviews = [];
  activity_runs = [];
  task_requirements = [];
  requested_point_assessments = [];
}

abbrev session_of :
    Outcome TutoringError RecordPracticeSessionRequest → RecordPracticeSessionRequest
session_of (ok out) = out
session_of (err _) = blank_session

abbrev evidence_in : Option ProductionEvidence → ProductionEvidence
evidence_in (some e) = e
evidence_in none = record {
  policy_version = 0;
  session_overrides = none;
  target_opportunities = [];
  attempts = [];
  observations = [];
  interventions = [];
  variation_assessments = [];
}

abbrev expanded : RecordPracticeSessionRequest
expanded = session_of (expand tutored)

abbrev produced : ProductionEvidence
produced = evidence_in expanded.production_evidence

-- It expands, with production evidence, and the review cites the correction's observation.
tutored_run :
    (expand tutored ≡ ok expanded)
    × (expanded.production_evidence ≡ some produced)
    × (validate_evidence expanded ≡ ok tt)
    × (map (λ (a : ReviewInput). a.evidence_observation_nos) expanded.reviews ≡ (2 ∷ []) ∷ [])
unfolding text optional_text checked_index compact_observation finding feedback_for_turn
    resolve_attempt resolve_observation original_of check_attempt_input scan_attempt scan_turn
    number_one number_attempt number_turn emit_observation before_attempt emit_intervention
    original_no evidence_of emit_evidence emit_attempt emit_turn production_present emit_item
    emit_variation emit_review evidence_envelope emit_assessment check_request expand
    validate_attempt is_consistent validate_outcome validate_observation validate_intervention
    validate_timing validate_variation validate_some validate_evidence observations
    observation_outcome_eq observation_outcome_index is_blank is_whitespace
tutored_run = (refl, refl, refl, refl)

expand-numbers_example :
    (attempt_nos expanded.attempts ≡ numbers_from 0 (attempts_in_turns tutored.turns))
    × (session_numbers (all_observations expanded)
        ≡ numbers_from 0 (observations_in_turns tutored.turns))
expand-numbers_example = expand-numbers tutored expanded tutored_run.0

expand-validates-iff_example :
    (validate_session_observation_numbers expanded ≡ ok tt)
    ↔ All (λ o. is_ok (normalized_phase o) ≡ true) (all_observations expanded)
expand-validates-iff_example = expand-validates_iff tutored expanded tutored_run.0

expand-citations_example :
    All (λ (a : ReviewInput). All (IsObserved expanded) a.evidence_observation_nos) expanded.reviews
    × All
        (λ (a : VariationAssessment). All (IsObserved expanded) a.observation_nos)
        (variations_of expanded.production_evidence)
expand-citations_example = expand-citations tutored expanded tutored_run.0

expand-IsComplete_example :
    (evidence_nos produced.attempts ≡ attempt_nos expanded.attempts)
    × (assessed_nos produced.observations ≡ session_numbers (all_observations expanded))
    × All IsOriginal produced.attempts
expand-IsComplete_example = expand-IsComplete tutored expanded produced tutored_run.0 tutored_run.1

validate_evidence-covers_example :
    All (λ n. has n (evidence_nos produced.attempts) ≡ true) (attempt_nos expanded.attempts)
    × IsDistinct (attempt_nos expanded.attempts)
    × All
        (λ n. has n (assessed_nos produced.observations) ≡ true)
        (observation_nos (observations expanded))
    × IsDistinct (observation_nos (observations expanded))
validate_evidence-covers_example =
    validate_evidence-covers expanded produced tutored_run.2 tutored_run.1

validate_evidence-corrections_example :
    All
      (λ a.
        not (is_self_correction a.attempt_kind) || any (is_between a) produced.interventions ≡ true)
      produced.attempts
validate_evidence-corrections_example =
    validate_evidence-corrections expanded produced tutored_run.2 tutored_run.1
