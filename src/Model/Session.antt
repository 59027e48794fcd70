-- ===== src/Model/Session.antt =====
-- The request that records a whole session (src/model.rs).
use aprendiendo.Base.{String, Option, List}
use aprendiendo.Model.Formats.{ExerciseTypeKey}
use aprendiendo.Model.Requests.{
  ObservationInput, FindingInput, ActivityRunInput, AttemptInput, PracticeItemInput,
  NewWeaknessInput, ReviewInput, TaskRequirementInput, RequestedPointAssessmentInput,
}
use aprendiendo.Model.Production.{ProductionEvidence}

pub record RecordPracticeSessionRequest : Type 0 where
  pub production_evidence : Option ProductionEvidence
  pub idempotency_key : String
  pub session_date : Option String
  pub reviewed_at : Option String
  pub task_ref : Option String
  pub exercise_type_key : ExerciseTypeKey
  pub topic : Option String
  pub notes : Option String
  pub new_weaknesses : List NewWeaknessInput
  pub items : List PracticeItemInput
  pub attempts : List AttemptInput
  pub observations : List ObservationInput
  pub findings : List FindingInput
  pub reviews : List ReviewInput
  pub activity_runs : List ActivityRunInput
  pub task_requirements : List TaskRequirementInput
  pub requested_point_assessments : List RequestedPointAssessmentInput
