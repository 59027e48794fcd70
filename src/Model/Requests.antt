-- ===== src/Model/Requests.antt =====
-- The structs of src/model.rs that make up a recorded session. A `u16`, `u32` or `u64` is a
-- natural number; a JSON value that no modelled code reads is kept as its text.
use aprendiendo.Base.{ℕ, String, Bool, Option, List}
use aprendiendo.Model.Formats.{
  DrillType, ActivityType, ActivityItemPhase, StimulusKind, StimulusDeliveryMode,
}
use aprendiendo.Model.Evidence.{
  ObservationOutcome, ObservationRole, EvidenceStrength, ObservationSeverity, FindingKind,
  AssessmentPhase, HintLevel, LearnerEffort, EvidenceSource, FsrsRating, RetrievalMode,
  RatingSource, PracticeItemOutcome, ResponseMode, TimingSource, ReflectionSource, ReflectionKind,
  TaskRequirementSource, RequestedPointStatus, TargetType, ConceptLinkRole,
}

pub record ObservationInput : Type 0 where
  pub observation_no : ℕ
  pub weakness_key : String
  pub outcome : ObservationOutcome
  pub role : ObservationRole
  pub assessment_phase : Option AssessmentPhase
  pub hint_level : Option HintLevel
  pub learner_effort : Option LearnerEffort
  pub evidence_source : Option EvidenceSource
  pub evidence_strength : Option EvidenceStrength
  pub severity : Option ObservationSeverity
  pub produced : Option String
  pub correction : Option String
  pub error_span : Option String
  pub notes : Option String

pub record FindingInput : Type 0 where
  pub practice_item_no : Option ℕ
  pub attempt_no : Option ℕ
  pub assessment_kind : FindingKind
  pub original : String
  pub suggestion : Option String
  pub note : Option String

pub record ActivityConfigInput : Type 0 where
  pub preparation_seconds : Option ℕ
  pub response_seconds : Option ℕ
  pub question_count : Option ℕ
  pub exposure_count : Option ℕ
  pub source_hidden_before_response : Option Bool
  pub unpredictable_followups : Option Bool
  pub complication_count : Option ℕ

pub record ActivityStimulusInput : Type 0 where
  pub stimulus_no : ℕ
  pub kind : StimulusKind
  pub delivery_mode : StimulusDeliveryMode
  pub content_text : Option String
  pub source_uri : Option String

pub record ActivityRunInput : Type 0 where
  pub run_no : ℕ
  pub activity_type : ActivityType
  pub planned_duration_seconds : Option ℕ
  pub actual_duration_milliseconds : Option ℕ
  pub timing_source : Option TimingSource
  pub config : Option ActivityConfigInput
  pub notes : Option String
  pub stimuli : List ActivityStimulusInput

pub record AttemptReflectionInput : Type 0 where
  pub reflection_no : ℕ
  pub source : ReflectionSource
  pub kind : ReflectionKind
  pub note : String

pub record AttemptInput : Type 0 where
  pub attempt_no : ℕ
  pub practice_item_no : Option ℕ
  pub transcript : String
  pub target_duration_seconds : Option ℕ
  pub actual_duration_milliseconds : Option ℕ
  pub response_mode : Option ResponseMode
  pub response_latency_milliseconds : Option ℕ
  pub timing_source : Option TimingSource
  pub observations : List ObservationInput
  pub reflections : List AttemptReflectionInput

pub record PracticeItemInput : Type 0 where
  pub item_no : ℕ
  pub drill_type : DrillType
  pub prompt : String
  pub response : Option String
  pub corrected_response : Option String
  pub reference_answer : Option String
  pub feedback : Option String
  pub outcome : Option PracticeItemOutcome
  pub activity_run_no : Option ℕ
  pub item_phase : Option ActivityItemPhase
  pub target_weakness_keys : List String
  pub observations : List ObservationInput

pub record ConceptLinkInput : Type 0 where
  pub concept_key : String
  pub role : ConceptLinkRole

pub record TargetRelationInput : Type 0 where
  pub other_weakness_key : String
  pub predicate : String
  pub notes : Option String

pub record NewWeaknessInput : Type 0 where
  pub key : String
  pub category : String
  pub description : String
  pub target_pattern : Option String
  pub recommended_drill_types : Option (List DrillType)
  pub active : Option Bool
  pub target_type : Option TargetType
  pub primary_concept_key : Option String
  pub concept_links : List ConceptLinkInput
  pub target_relations : List TargetRelationInput

pub record ReviewInput : Type 0 where
  pub weakness_key : String
  pub rating : FsrsRating
  pub retrieval_mode : RetrievalMode
  pub evidence_strength : EvidenceStrength
  pub evidence_observation_nos : List ℕ
  pub rating_rationale : Option String
  pub rating_source : RatingSource
  pub evidence : String

pub record TaskRequirementInput : Type 0 where
  pub practice_item_no : Option ℕ
  pub exam_key : Option String
  pub specification_version : Option String
  pub skill : String
  pub task_key : String
  pub prompt_hash : Option String
  pub requested_points : List String
  pub word_min : Option ℕ
  pub word_max : Option ℕ
  pub time_budget_seconds : Option ℕ
  pub preparation_budget_seconds : Option ℕ
  pub source : TaskRequirementSource

pub record RequestedPointAssessmentInput : Type 0 where
  pub attempt_no : ℕ
  pub point_key : String
  pub status : RequestedPointStatus
  pub supporting_excerpt : Option String
  pub reason : Option String
  pub evaluator : String
  pub rubric_version : Option String
  pub assessed_at : Option String
  pub retrospective : Bool
