-- ===== src/Model/Evidence.antt =====
-- The enums of src/model.rs that describe what was observed and how a review is rated.
use aprendiendo.Base.{ℕ, String, Bool, ◌==◌}

pub data ObservationOutcome : Type 0 where
  incorrect partially_correct correct prompted_correct omitted : ObservationOutcome

-- The discriminant, which the derived `==` compares.
unfoldable pub observation_outcome_index : ObservationOutcome → ℕ
observation_outcome_index ObservationOutcome.incorrect = 0
observation_outcome_index ObservationOutcome.partially_correct = 1
observation_outcome_index ObservationOutcome.correct = 2
observation_outcome_index ObservationOutcome.prompted_correct = 3
observation_outcome_index ObservationOutcome.omitted = 4

unfoldable pub observation_outcome_eq : ObservationOutcome → ObservationOutcome → Bool
unfolding observation_outcome_index
observation_outcome_eq a b = observation_outcome_index a == observation_outcome_index b

pub data ObservationRole : Type 0 where
  targeted incidental : ObservationRole

pub data EvidenceStrength : Type 0 where
  recognition cued_production controlled_production spontaneous_production : EvidenceStrength

unfoldable pub evidence_strength_str : EvidenceStrength → String
evidence_strength_str EvidenceStrength.recognition = "recognition"
evidence_strength_str EvidenceStrength.cued_production = "cued_production"
evidence_strength_str EvidenceStrength.controlled_production = "controlled_production"
evidence_strength_str EvidenceStrength.spontaneous_production = "spontaneous_production"

pub data ObservationSeverity : Type 0 where
  minor meaning_affecting blocking : ObservationSeverity

pub data FindingKind : Type 0 where
  error awkward regional_variant stylistic_improvement accepted : FindingKind

pub data AssessmentPhase : Type 0 where
  historical cold_retrieval guided_practice immediate_retry transfer incidental : AssessmentPhase

unfoldable pub assessment_phase_str : AssessmentPhase → String
assessment_phase_str AssessmentPhase.historical = "historical"
assessment_phase_str AssessmentPhase.cold_retrieval = "cold_retrieval"
assessment_phase_str AssessmentPhase.guided_practice = "guided_practice"
assessment_phase_str AssessmentPhase.immediate_retry = "immediate_retry"
assessment_phase_str AssessmentPhase.transfer = "transfer"
assessment_phase_str AssessmentPhase.incidental = "incidental"

-- The discriminant, which the derived `==` compares.
unfoldable pub assessment_phase_index : AssessmentPhase → ℕ
assessment_phase_index AssessmentPhase.historical = 0
assessment_phase_index AssessmentPhase.cold_retrieval = 1
assessment_phase_index AssessmentPhase.guided_practice = 2
assessment_phase_index AssessmentPhase.immediate_retry = 3
assessment_phase_index AssessmentPhase.transfer = 4
assessment_phase_index AssessmentPhase.incidental = 5

unfoldable pub assessment_phase_eq : AssessmentPhase → AssessmentPhase → Bool
unfolding assessment_phase_index
assessment_phase_eq a b = assessment_phase_index a == assessment_phase_index b

pub data HintLevel : Type 0 where
  none indirect direct answer_shown : HintLevel

unfoldable pub hint_level_str : HintLevel → String
hint_level_str HintLevel.none = "none"
hint_level_str HintLevel.indirect = "indirect"
hint_level_str HintLevel.direct = "direct"
hint_level_str HintLevel.answer_shown = "answer_shown"

-- The discriminant, which the derived `==` compares.
unfoldable pub hint_level_index : HintLevel → ℕ
hint_level_index HintLevel.none = 0
hint_level_index HintLevel.indirect = 1
hint_level_index HintLevel.direct = 2
hint_level_index HintLevel.answer_shown = 3

unfoldable pub hint_level_eq : HintLevel → HintLevel → Bool
unfolding hint_level_index
hint_level_eq a b = hint_level_index a == hint_level_index b

pub data LearnerEffort : Type 0 where
  effortless some_effort substantial_effort unknown : LearnerEffort

unfoldable pub learner_effort_str : LearnerEffort → String
learner_effort_str LearnerEffort.effortless = "effortless"
learner_effort_str LearnerEffort.some_effort = "some_effort"
learner_effort_str LearnerEffort.substantial_effort = "substantial_effort"
learner_effort_str LearnerEffort.unknown = "unknown"

pub data EvidenceSource : Type 0 where
  learner assistant legacy : EvidenceSource

pub data FsrsRating : Type 0 where
  again hard good easy : FsrsRating

-- The discriminant, which the derived `==` compares.
unfoldable pub fsrs_rating_index : FsrsRating → ℕ
fsrs_rating_index FsrsRating.again = 0
fsrs_rating_index FsrsRating.hard = 1
fsrs_rating_index FsrsRating.good = 2
fsrs_rating_index FsrsRating.easy = 3

unfoldable pub fsrs_rating_eq : FsrsRating → FsrsRating → Bool
unfolding fsrs_rating_index
fsrs_rating_eq a b = fsrs_rating_index a == fsrs_rating_index b

pub data RetrievalMode : Type 0 where
  recognition cued_production controlled_production spontaneous_production : RetrievalMode

pub data RatingSource : Type 0 where
  learner assistant_suggested_confirmed assistant_suggested : RatingSource

pub data PracticeItemOutcome : Type 0 where
  incorrect partially_correct correct omitted : PracticeItemOutcome

pub data ResponseMode : Type 0 where
  typed spoken_transcript : ResponseMode

pub data TimingSource : Type 0 where
  learner_reported external_timer client_measured : TimingSource

pub data ReflectionSource : Type 0 where
  learner assistant : ReflectionSource

-- The discriminant, which the derived `==` compares.
unfoldable pub reflection_source_index : ReflectionSource → ℕ
reflection_source_index ReflectionSource.learner = 0
reflection_source_index ReflectionSource.assistant = 1

unfoldable pub reflection_source_eq : ReflectionSource → ReflectionSource → Bool
unfolding reflection_source_index
reflection_source_eq a b = reflection_source_index a == reflection_source_index b

pub data ReflectionKind : Type 0 where
  hesitation_reported simplification_reported retrieval_gap_reported self_correction_reported
        circumlocution_reported general :
      ReflectionKind

-- The discriminant, which the derived `==` compares.
unfoldable pub reflection_kind_index : ReflectionKind → ℕ
reflection_kind_index ReflectionKind.hesitation_reported = 0
reflection_kind_index ReflectionKind.simplification_reported = 1
reflection_kind_index ReflectionKind.retrieval_gap_reported = 2
reflection_kind_index ReflectionKind.self_correction_reported = 3
reflection_kind_index ReflectionKind.circumlocution_reported = 4
reflection_kind_index ReflectionKind.general = 5

unfoldable pub reflection_kind_eq : ReflectionKind → ReflectionKind → Bool
unfolding reflection_kind_index
reflection_kind_eq a b = reflection_kind_index a == reflection_kind_index b

pub data TaskRequirementSource : Type 0 where
  official teacher_created micropractice : TaskRequirementSource

pub data RequestedPointStatus : Type 0 where
  met partial missing unclear : RequestedPointStatus

pub data TargetType : Type 0 where
  grammatical_construction lexical_item lexical_chunk form_meaning_contrast pronunciation
        orthography discourse_strategy sociopragmatic_choice :
      TargetType

pub data ConceptLinkRole : Type 0 where
  form meaning function context error_source curriculum : ConceptLinkRole
