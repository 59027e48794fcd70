-- ===== src/Model/Formats.antt =====
-- The enums of src/model.rs that describe exercises, drills and activities. `…_str` is `as_str`.
use aprendiendo.Base.{ℕ, String, Bool, ◌==◌}

pub data ExerciseTypeKey : Type 0 where
  fluency_4_3_2 production_drill translation_drill dele_a2_oral_microdrill
        agreement_disagreement_drill guided_conversation :
      ExerciseTypeKey

unfoldable pub exercise_type_key_str : ExerciseTypeKey → String
exercise_type_key_str ExerciseTypeKey.fluency_4_3_2 = "fluency_4_3_2"
exercise_type_key_str ExerciseTypeKey.production_drill = "production_drill"
exercise_type_key_str ExerciseTypeKey.translation_drill = "translation_drill"
exercise_type_key_str ExerciseTypeKey.dele_a2_oral_microdrill = "dele_a2_oral_microdrill"
exercise_type_key_str ExerciseTypeKey.agreement_disagreement_drill = "agreement_disagreement_drill"
exercise_type_key_str ExerciseTypeKey.guided_conversation = "guided_conversation"

pub data DrillType : Type 0 where
  translation situational_response sentence_transformation question_answer sentence_completion
        sentence_combining error_correction minimal_pair_choice dialogue_completion micro_story
        retell fluency_4_3_2 :
      DrillType

unfoldable pub drill_type_str : DrillType → String
drill_type_str DrillType.translation = "translation"
drill_type_str DrillType.situational_response = "situational_response"
drill_type_str DrillType.sentence_transformation = "sentence_transformation"
drill_type_str DrillType.question_answer = "question_answer"
drill_type_str DrillType.sentence_completion = "sentence_completion"
drill_type_str DrillType.sentence_combining = "sentence_combining"
drill_type_str DrillType.error_correction = "error_correction"
drill_type_str DrillType.minimal_pair_choice = "minimal_pair_choice"
drill_type_str DrillType.dialogue_completion = "dialogue_completion"
drill_type_str DrillType.micro_story = "micro_story"
drill_type_str DrillType.retell = "retell"
drill_type_str DrillType.fluency_4_3_2 = "fluency_4_3_2"

-- The discriminant, which the derived `==` compares.
unfoldable pub drill_type_index : DrillType → ℕ
drill_type_index DrillType.translation = 0
drill_type_index DrillType.situational_response = 1
drill_type_index DrillType.sentence_transformation = 2
drill_type_index DrillType.question_answer = 3
drill_type_index DrillType.sentence_completion = 4
drill_type_index DrillType.sentence_combining = 5
drill_type_index DrillType.error_correction = 6
drill_type_index DrillType.minimal_pair_choice = 7
drill_type_index DrillType.dialogue_completion = 8
drill_type_index DrillType.micro_story = 9
drill_type_index DrillType.retell = 10
drill_type_index DrillType.fluency_4_3_2 = 11

unfoldable pub drill_type_eq : DrillType → DrillType → Bool
unfolding drill_type_index
drill_type_eq a b = drill_type_index a == drill_type_index b

pub data ActivityType : Type 0 where
  situational_response picture_narration question_answer_sprint retell_reconstruction
        corrective_conversation sentence_transformation_sprint dictogloss voice_diary
        read_close_explain role_play_complications :
      ActivityType

unfoldable pub activity_type_str : ActivityType → String
activity_type_str ActivityType.situational_response = "situational_response"
activity_type_str ActivityType.picture_narration = "picture_narration"
activity_type_str ActivityType.question_answer_sprint = "question_answer_sprint"
activity_type_str ActivityType.retell_reconstruction = "retell_reconstruction"
activity_type_str ActivityType.corrective_conversation = "corrective_conversation"
activity_type_str ActivityType.sentence_transformation_sprint = "sentence_transformation_sprint"
activity_type_str ActivityType.dictogloss = "dictogloss"
activity_type_str ActivityType.voice_diary = "voice_diary"
activity_type_str ActivityType.read_close_explain = "read_close_explain"
activity_type_str ActivityType.role_play_complications = "role_play_complications"

pub data ActivityInteractionMode : Type 0 where
  single_response sprint multi_turn : ActivityInteractionMode

pub data ActivityItemPhase : Type 0 where
  initial follow_up complication : ActivityItemPhase

-- The discriminant, which the derived `==` compares.
unfoldable pub activity_item_phase_index : ActivityItemPhase → ℕ
activity_item_phase_index ActivityItemPhase.initial = 0
activity_item_phase_index ActivityItemPhase.follow_up = 1
activity_item_phase_index ActivityItemPhase.complication = 2

unfoldable pub activity_item_phase_eq : ActivityItemPhase → ActivityItemPhase → Bool
unfolding activity_item_phase_index
activity_item_phase_eq a b = activity_item_phase_index a == activity_item_phase_index b

pub data StimulusKind : Type 0 where
  situation source_text image_description image_sequence_description article_reference
        media_transcript complication :
      StimulusKind

unfoldable pub stimulus_kind_str : StimulusKind → String
stimulus_kind_str StimulusKind.situation = "situation"
stimulus_kind_str StimulusKind.source_text = "source_text"
stimulus_kind_str StimulusKind.image_description = "image_description"
stimulus_kind_str StimulusKind.image_sequence_description = "image_sequence_description"
stimulus_kind_str StimulusKind.article_reference = "article_reference"
stimulus_kind_str StimulusKind.media_transcript = "media_transcript"
stimulus_kind_str StimulusKind.complication = "complication"

-- The discriminant, which the derived `==` compares.
unfoldable pub stimulus_kind_index : StimulusKind → ℕ
stimulus_kind_index StimulusKind.situation = 0
stimulus_kind_index StimulusKind.source_text = 1
stimulus_kind_index StimulusKind.image_description = 2
stimulus_kind_index StimulusKind.image_sequence_description = 3
stimulus_kind_index StimulusKind.article_reference = 4
stimulus_kind_index StimulusKind.media_transcript = 5
stimulus_kind_index StimulusKind.complication = 6

unfoldable pub stimulus_kind_eq : StimulusKind → StimulusKind → Bool
unfolding stimulus_kind_index
stimulus_kind_eq a b = stimulus_kind_index a == stimulus_kind_index b

pub data StimulusDeliveryMode : Type 0 where
  read viewed heard_reported conversation : StimulusDeliveryMode

unfoldable pub stimulus_delivery_mode_str : StimulusDeliveryMode → String
stimulus_delivery_mode_str StimulusDeliveryMode.read = "read"
stimulus_delivery_mode_str StimulusDeliveryMode.viewed = "viewed"
stimulus_delivery_mode_str StimulusDeliveryMode.heard_reported = "heard_reported"
stimulus_delivery_mode_str StimulusDeliveryMode.conversation = "conversation"

-- The discriminant, which the derived `==` compares.
unfoldable pub stimulus_delivery_mode_index : StimulusDeliveryMode → ℕ
stimulus_delivery_mode_index StimulusDeliveryMode.read = 0
stimulus_delivery_mode_index StimulusDeliveryMode.viewed = 1
stimulus_delivery_mode_index StimulusDeliveryMode.heard_reported = 2
stimulus_delivery_mode_index StimulusDeliveryMode.conversation = 3

unfoldable pub stimulus_delivery_mode_eq : StimulusDeliveryMode → StimulusDeliveryMode → Bool
unfolding stimulus_delivery_mode_index
stimulus_delivery_mode_eq a b = stimulus_delivery_mode_index a == stimulus_delivery_mode_index b

pub data DrillMix : Type 0 where
  auto production_focused translation_only recognition_to_production fluency custom : DrillMix

pub data ExamTask : Type 0 where
  reading listening full_writing writing_task_1 writing_task_2 full_oral : ExamTask
  oral_task_1 oral_task_2 oral_task_3 : ExamTask

pub data PracticeObjective : Type 0 where
  review_due targeted explore : PracticeObjective
