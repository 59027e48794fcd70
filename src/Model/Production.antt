-- ===== src/Model/Production.antt =====
-- The types of src/production.rs: stored preferences, and the evidence a session carries.
use aprendiendo.Base.{ℕ, String, Bool, Option, List}
use aprendiendo.Model.Formats.{DrillType}

pub data PracticeMode : Type 0 where
  spontaneous controlled mixed : PracticeMode

pub record PromptPolicy : Type 0 where
  pub allow_required_constructions : Bool
  pub allow_sentence_starters : Bool
  pub allow_model_answer_before_attempt : Bool
  pub prefer_actual_recent_experiences : Bool
  pub one_turn_at_a_time : Bool
  pub adaptive_followups : Bool

pub record WrittenRoundBudget : Type 0 where
  pub minimum : ℕ
  pub maximum : ℕ

pub record CorrectionPolicy : Type 0 where
  pub after_round : Bool
  pub allow_communication_breakdown_exception : Bool
  pub self_correction_attempts_before_model : ℕ
  pub quote_original_on_hint : Bool
  pub show_original_with_model_correction : Bool

pub record LearningFocus : Type 0 where
  pub skills : List String
  pub daily_minutes : Option ℕ
  pub exam_practice_percent : ℕ

pub record Preferences : Type 0 where
  pub learning_focus : LearningFocus
  pub default_practice_mode : PracticeMode
  pub excluded_drill_types : List DrillType
  pub prompt_policy : PromptPolicy
  pub written_round_budget : WrittenRoundBudget
  pub correction_policy : CorrectionPolicy

pub record PromptPolicyPatch : Type 0 where
  pub allow_required_constructions : Option Bool
  pub allow_sentence_starters : Option Bool
  pub allow_model_answer_before_attempt : Option Bool
  pub prefer_actual_recent_experiences : Option Bool
  pub one_turn_at_a_time : Option Bool
  pub adaptive_followups : Option Bool

pub record WrittenRoundBudgetPatch : Type 0 where
  pub minimum : Option ℕ
  pub maximum : Option ℕ

pub record CorrectionPolicyPatch : Type 0 where
  pub after_round : Option Bool
  pub allow_communication_breakdown_exception : Option Bool
  pub self_correction_attempts_before_model : Option ℕ
  pub quote_original_on_hint : Option Bool
  pub show_original_with_model_correction : Option Bool

pub record PreferencePatch : Type 0 where
  pub learning_focus : Option LearningFocus
  pub default_practice_mode : Option PracticeMode
  pub excluded_drill_types : Option (List DrillType)
  pub prompt_policy : Option PromptPolicyPatch
  pub written_round_budget : Option WrittenRoundBudgetPatch
  pub correction_policy : Option CorrectionPolicyPatch

pub record SessionOverride : Type 0 where
  pub patch : PreferencePatch
  pub source : String

pub record TargetOpportunity : Type 0 where
  pub weakness_key : String
  pub communicative_function : String

pub data AttemptKind : Type 0 where
  initial self_correction fresh_transfer later_review : AttemptKind

pub data PromptCueing : Type 0 where
  none_detected indirect target_form_supplied model_supplied unknown : PromptCueing

pub data Exposure : Type 0 where
  none_known relevant_wording model unknown : Exposure

pub data CommunicativeOutcome : Type 0 where
  successful partially_successful unsuccessful not_assessed : CommunicativeOutcome

pub data TargetRealization : Type 0 where
  used attempted not_observed ambiguous : TargetRealization

pub data TargetAccuracy : Type 0 where
  correct partially_correct incorrect not_assessable : TargetAccuracy

pub data ProvenanceKind : Type 0 where
  tutor_judgment learner_report deterministic_rule legacy_import : ProvenanceKind

pub record AssessmentProvenance : Type 0 where
  pub kind : ProvenanceKind
  pub evidence : String

pub record AttemptEvidence : Type 0 where
  pub attempt_no : ℕ
  pub attempt_kind : AttemptKind
  pub original_attempt_no : Option ℕ
  pub prompt_cueing : PromptCueing
  pub prior_target_exposure : Exposure
  pub exposure_source : Option String
  pub communicative_outcome : CommunicativeOutcome
  pub assessment_provenance : AssessmentProvenance
  pub scenario_tag : String
  pub topic_tag : String
  pub initial_sentence_count : Option ℕ

pub record ObservationEvidence : Type 0 where
  pub observation_no : ℕ
  pub attempt_no : ℕ
  pub target_realization : TargetRealization
  pub target_accuracy : TargetAccuracy
  pub assessment_provenance : AssessmentProvenance

pub data InterventionKind : Type 0 where
  indirect_hint target_form model_correction : InterventionKind

pub record Intervention : Type 0 where
  pub intervention_no : ℕ
  pub kind : InterventionKind
  pub text : String
  pub target_weakness_keys : List String
  pub after_attempt_no : ℕ
  pub before_attempt_no : Option ℕ

pub record VariationAssessment : Type 0 where
  pub weakness_key : String
  pub observation_nos : List ℕ
  pub rationale : String

pub record ProductionEvidence : Type 0 where
  pub policy_version : ℕ
  pub session_overrides : Option SessionOverride
  pub target_opportunities : List TargetOpportunity
  pub attempts : List AttemptEvidence
  pub observations : List ObservationEvidence
  pub interventions : List Intervention
  pub variation_assessments : List VariationAssessment
