-- ===== src/Tutoring/Requests.antt =====
-- The compact request of src/tutoring.rs: a session as turns with attempts, without numbers. A JSON
-- value that no modelled code reads is kept as its text.
use aprendiendo.Base.{ℕ, String, Option, List}
use aprendiendo.Model.Formats.{DrillType, ExerciseTypeKey}
use aprendiendo.Model.Evidence.{
  AssessmentPhase, EvidenceSource, EvidenceStrength, FindingKind, FsrsRating, HintLevel,
  LearnerEffort, ObservationOutcome, ObservationRole, ObservationSeverity, RatingSource,
  RequestedPointStatus, ResponseMode, RetrievalMode, TimingSource,
}
use aprendiendo.Model.Requests.{NewWeaknessInput, TaskRequirementInput}
use aprendiendo.Model.Production.{
  AssessmentProvenance, AttemptKind, CommunicativeOutcome, Exposure, InterventionKind, PromptCueing,
  SessionOverride, TargetAccuracy, TargetRealization,
}

pub record TutoringAttemptReference : Type 0 where
  pub turn : ℕ
  pub attempt : ℕ

pub record TutoringObservationReference : Type 0 where
  pub turn : ℕ
  pub attempt : ℕ
  pub observation : ℕ

pub record TutoringAttemptEvidence : Type 0 where
  pub kind : AttemptKind
  pub original_attempt : Option TutoringAttemptReference
  pub cueing : PromptCueing
  pub exposure : Exposure
  pub exposure_source : Option String
  pub outcome : CommunicativeOutcome
  pub provenance : AssessmentProvenance
  pub scenario : String
  pub topic : String
  pub sentence_count : Option ℕ
  pub effort : Option LearnerEffort

pub record TutoringObservationAssessment : Type 0 where
  pub target_realization : TargetRealization
  pub target_accuracy : TargetAccuracy
  pub provenance : AssessmentProvenance

pub record TutoringObservationInput : Type 0 where
  pub weakness_key : String
  pub outcome : ObservationOutcome
  pub role : Option ObservationRole
  pub assessment_phase : Option AssessmentPhase
  pub hint_level : Option HintLevel
  pub learner_effort : Option LearnerEffort
  pub evidence_source : Option EvidenceSource
  pub evidence_strength : Option EvidenceStrength
  pub severity : Option ObservationSeverity
  pub produced : Option String
  pub correction : Option String
  pub error_span : Option String
  pub notes : Option String
  pub assessment : Option TutoringObservationAssessment

pub record TutoringFindingInput : Type 0 where
  pub assessment_kind : FindingKind
  pub original : String
  pub suggestion : Option String
  pub note : Option String

pub record TutoringInterventionInput : Type 0 where
  pub kind : InterventionKind
  pub text : String
  pub target_weakness_keys : List String

pub record TutoringAttemptInput : Type 0 where
  pub transcript : String
  pub response_mode : Option ResponseMode
  pub target_duration_seconds : Option ℕ
  pub actual_duration_milliseconds : Option ℕ
  pub response_latency_milliseconds : Option ℕ
  pub timing_source : Option TimingSource
  pub evidence : Option TutoringAttemptEvidence
  pub observations : List TutoringObservationInput
  pub findings : List TutoringFindingInput
  pub interventions_after : List TutoringInterventionInput

pub record TutoringTurnInput : Type 0 where
  pub drill_type : DrillType
  pub prompt : String
  pub target_weakness_keys : List String
  pub communicative_function : Option String
  pub attempts : List TutoringAttemptInput

pub record TutoringVariationInput : Type 0 where
  pub observation_refs : List TutoringObservationReference
  pub rationale : String

pub record TutoringReviewInput : Type 0 where
  pub target : String
  pub rating : FsrsRating
  pub retrieval_mode : RetrievalMode
  pub evidence_strength : EvidenceStrength
  pub observation_refs : List TutoringObservationReference
  pub rating_rationale : Option String
  pub rating_source : Option RatingSource
  pub evidence : String
  pub variation : Option TutoringVariationInput

pub record TutoringTaskAssessment : Type 0 where
  pub attempt : TutoringAttemptReference
  pub point_key : String
  pub status : RequestedPointStatus
  pub supporting_excerpt : Option String
  pub reason : Option String
  pub evaluator : String
  pub rubric_version : Option String

pub record RecordTutoringSessionRequest : Type 0 where
  pub task_requirements : List TaskRequirementInput
  pub task_assessments : List TutoringTaskAssessment
  pub idempotency_key : String
  pub exercise_type_key : ExerciseTypeKey
  pub session_date : Option String
  pub reviewed_at : Option String
  pub task_ref : Option String
  pub topic : Option String
  pub notes : Option String
  pub policy_version : Option ℕ
  pub session_overrides : Option SessionOverride
  pub new_weaknesses : List NewWeaknessInput
  pub turns : List TutoringTurnInput
  pub reviews : List TutoringReviewInput
