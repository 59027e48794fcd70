-- ===== src/Production/Examples.antt =====
-- A session with two independent observations, on which the theorem about reviews is applied.
use aprendiendo.Base.{
  ℕ, ◌≤◌, String, true, false, none, some, [], ◌∷◌, ◌≡◌, refl, any, keep, length, is_blank,
  is_whitespace, ◌&&◌,
}
use aprendiendo.Model.Formats.{DrillType, ExerciseTypeKey}
use aprendiendo.Model.Evidence.{
  ObservationOutcome, ObservationRole, EvidenceStrength, AssessmentPhase, HintLevel, LearnerEffort,
  FsrsRating, RetrievalMode, RatingSource, fsrs_rating_eq, fsrs_rating_index, hint_level_eq,
  hint_level_index,
}
use aprendiendo.Model.Requests.{ObservationInput, AttemptInput, PracticeItemInput, ReviewInput}
use aprendiendo.Model.Session.{RecordPracticeSessionRequest}
use aprendiendo.Model.Production.{
  AttemptKind, PromptCueing, Exposure, CommunicativeOutcome, TargetRealization, TargetAccuracy,
  ProvenanceKind, AssessmentProvenance, AttemptEvidence, ObservationEvidence, ProductionEvidence,
}
use aprendiendo.Practice.Media.{to_ascii_lowercase}
use aprendiendo.Production.Prompts.{prompt_findings}
use aprendiendo.Production.Classes.{
  attempt_class, class_of, was_exposed, is_cued, is_controlled_drill, is_unknown,
}
use aprendiendo.Production.Reviews.{
  review_decision, final_reasons, tally_one, count_observation, exclude_observation, exclusion,
  observations, is_failure,
}
use aprendiendo.Production.Eligible.{
  is_independent, numbers_of, supports, is_hidden_failure, about, review_decision-eligible,
}

abbrev observation : ℕ → ObservationInput
observation n = record {
  observation_no = n;
  weakness_key = "por-para";
  outcome = ObservationOutcome.correct;
  role = ObservationRole.targeted;
  assessment_phase = some AssessmentPhase.transfer;
  hint_level = some HintLevel.none;
  learner_effort = some LearnerEffort.effortless;
  evidence_source = none;
  evidence_strength = some EvidenceStrength.spontaneous_production;
  severity = none;
  produced = none;
  correction = none;
  error_span = none;
  notes = none;
}

abbrev attempt : ℕ → AttemptInput
attempt n = record {
  attempt_no = n;
  practice_item_no = some n;
  transcript = "Salí para Madrid";
  target_duration_seconds = none;
  actual_duration_milliseconds = none;
  response_mode = none;
  response_latency_milliseconds = none;
  timing_source = none;
  observations = observation n ∷ [];
  reflections = [];
}

abbrev item : ℕ → PracticeItemInput
item n = record {
  item_no = n;
  drill_type = DrillType.situational_response;
  prompt = "Cuenta tu viaje";
  response = none;
  corrected_response = none;
  reference_answer = none;
  feedback = none;
  outcome = none;
  activity_run_no = none;
  item_phase = none;
  target_weakness_keys = "por-para" ∷ [];
  observations = [];
}

abbrev provenance : AssessmentProvenance
provenance = record { kind = ProvenanceKind.tutor_judgment; evidence = "transcript" }

abbrev attempt_evidence : ℕ → String → AttemptEvidence
attempt_evidence n scenario = record {
  attempt_no = n;
  attempt_kind = AttemptKind.initial;
  original_attempt_no = none;
  prompt_cueing = PromptCueing.none_detected;
  prior_target_exposure = Exposure.none_known;
  exposure_source = none;
  communicative_outcome = CommunicativeOutcome.successful;
  assessment_provenance = provenance;
  scenario_tag = scenario;
  topic_tag = "travel";
  initial_sentence_count = none;
}

abbrev observation_evidence : ℕ → ObservationEvidence
observation_evidence n = record {
  observation_no = n;
  attempt_no = n;
  target_realization = TargetRealization.used;
  target_accuracy = TargetAccuracy.correct;
  assessment_provenance = provenance;
}

abbrev evidence : ProductionEvidence
evidence = record {
  policy_version = 1;
  session_overrides = none;
  target_opportunities = [];
  attempts = attempt_evidence 1 "station" ∷ attempt_evidence 2 "market" ∷ [];
  observations = observation_evidence 1 ∷ observation_evidence 2 ∷ [];
  interventions = [];
  variation_assessments =
      record { weakness_key = "por-para"; observation_nos = 1 ∷ 2 ∷ []; rationale = "two scenes" }
      ∷ [];
}

abbrev session : RecordPracticeSessionRequest
session = record {
  production_evidence = some evidence;
  idempotency_key = "s-1";
  session_date = none;
  reviewed_at = none;
  task_ref = none;
  exercise_type_key = ExerciseTypeKey.production_drill;
  topic = none;
  notes = none;
  new_weaknesses = [];
  items = item 1 ∷ item 2 ∷ [];
  attempts = attempt 1 ∷ attempt 2 ∷ [];
  observations = [];
  findings = [];
  reviews = [];
  activity_runs = [];
  task_requirements = [];
  requested_point_assessments = [];
}

abbrev review : ReviewInput
review = record {
  weakness_key = "por-para";
  rating = FsrsRating.good;
  retrieval_mode = RetrievalMode.spontaneous_production;
  evidence_strength = EvidenceStrength.spontaneous_production;
  evidence_observation_nos = 1 ∷ 2 ∷ [];
  rating_rationale = some "used twice without help";
  rating_source = RatingSource.assistant_suggested;
  evidence = "transcript";
}

eligible : (review_decision to_ascii_lowercase session review 1).eligible ≡ true
unfolding review_decision final_reasons tally_one count_observation exclude_observation exclusion
    observations attempt_class class_of was_exposed is_cued is_controlled_drill is_unknown
    prompt_findings is_blank is_whitespace fsrs_rating_eq fsrs_rating_index hint_level_eq
    hint_level_index
eligible = refl

review_decision-eligible_example :
    ((review_decision to_ascii_lowercase session review 1).supporting_observation_nos
      ≡ numbers_of (
          keep
            (supports to_ascii_lowercase session evidence review)
            (about to_ascii_lowercase session evidence review)))
    × (2
        ≤ length (
            numbers_of (
              keep
                (supports to_ascii_lowercase session evidence review)
                (about to_ascii_lowercase session evidence review))))
    × (any
          (is_hidden_failure to_ascii_lowercase session evidence review)
          (about to_ascii_lowercase session evidence review)
        ≡ false)
    × (fsrs_rating_eq review.rating FsrsRating.again
        ≡ any
            (λ (o : ObservationEvidence).
              is_independent to_ascii_lowercase session evidence o && is_failure o.target_accuracy)
            (about to_ascii_lowercase session evidence review))
review_decision-eligible_example =
    review_decision-eligible to_ascii_lowercase session evidence review 1 refl eligible
