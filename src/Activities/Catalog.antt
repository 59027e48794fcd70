-- ===== src/Activities/Catalog.antt =====
-- src/activities.rs: what each activity is, and the phases of the items of a run.
use aprendiendo.Base.{
  ℕ, ◌+◌, ◌-◌, ◌%◌, String, Bool, true, false, ◌&&◌, Option, none, some, List, [], ◌∷◌, map, leb,
  ltb, ◌==◌, if◌then◌else◌,
}
use aprendiendo.Model.Formats.{
  DrillType, ActivityType, ActivityInteractionMode, ActivityItemPhase, StimulusKind,
  StimulusDeliveryMode,
}
use aprendiendo.Model.Requests.{ActivityConfigInput}

pub record StimulusAlternativeSpec : Type 0 where
  pub kind : StimulusKind
  pub allowed_delivery_modes : List StimulusDeliveryMode
  pub content_text_required : Bool
  pub source_uri_allowed : Bool

pub record StimulusRequirementSpec : Type 0 where
  pub alternatives : List StimulusAlternativeSpec

pub record ActivitySpec : Type 0 where
  pub activity_type : ActivityType
  pub label : String
  pub interaction_mode : ActivityInteractionMode
  pub default_count : ℕ
  pub compatible_drills : List DrillType
  pub default_config : ActivityConfigInput
  pub default_planned_duration_seconds : Option ℕ
  pub intended_evidence_strength : String
  pub stimulus_requirements : List StimulusRequirementSpec

abbrev situational : List DrillType
situational = DrillType.situational_response ∷ []

abbrev picture : List DrillType
picture = DrillType.micro_story ∷ DrillType.retell ∷ []

abbrev qa : List DrillType
qa = DrillType.question_answer ∷ []

abbrev retell : List DrillType
retell = DrillType.retell ∷ []

abbrev conversation : List DrillType
conversation =
    DrillType.question_answer ∷ DrillType.situational_response ∷ DrillType.dialogue_completion ∷ []

abbrev transformation : List DrillType
transformation = DrillType.sentence_transformation ∷ []

abbrev role_play : List DrillType
role_play =
    DrillType.situational_response ∷ DrillType.dialogue_completion ∷ DrillType.question_answer ∷ []

abbrev read : List StimulusDeliveryMode
read = StimulusDeliveryMode.read ∷ []

abbrev viewed : List StimulusDeliveryMode
viewed = StimulusDeliveryMode.viewed ∷ []

abbrev heard_or_viewed : List StimulusDeliveryMode
heard_or_viewed = StimulusDeliveryMode.heard_reported ∷ StimulusDeliveryMode.viewed ∷ []

abbrev read_or_conversation : List StimulusDeliveryMode
read_or_conversation = StimulusDeliveryMode.read ∷ StimulusDeliveryMode.conversation ∷ []

-- An alternative that requires a text and allows no address.
abbrev text_alternative : StimulusKind → List StimulusDeliveryMode → StimulusAlternativeSpec
text_alternative kind modes = record {
  kind = kind;
  allowed_delivery_modes = modes;
  content_text_required = true;
  source_uri_allowed = false;
}

abbrev picture_requirements : List StimulusRequirementSpec
picture_requirements =
    record {
      alternatives =
          text_alternative StimulusKind.image_description viewed
          ∷ text_alternative StimulusKind.image_sequence_description viewed
          ∷ [];
    }
    ∷ []

abbrev retell_requirements : List StimulusRequirementSpec
retell_requirements =
    record {
      alternatives =
          text_alternative StimulusKind.source_text read
          ∷ text_alternative StimulusKind.media_transcript heard_or_viewed
          ∷ [];
    }
    ∷ []

abbrev read_close_requirements : List StimulusRequirementSpec
read_close_requirements =
    record {
      alternatives =
          text_alternative StimulusKind.source_text read
          ∷ record {
            kind = StimulusKind.article_reference;
            allowed_delivery_modes = read;
            content_text_required = false;
            source_uri_allowed = true;
          }
          ∷ [];
    }
    ∷ []

abbrev role_play_requirements : List StimulusRequirementSpec
role_play_requirements =
    record { alternatives = text_alternative StimulusKind.situation read_or_conversation ∷ [] } ∷ []

abbrev config :
    Option ℕ
    → Option ℕ
    → Option ℕ
    → Option ℕ
    → Option Bool
    → Option Bool
    → Option ℕ
    → ActivityConfigInput
config preparation response questions exposures hidden followups complications = record {
  preparation_seconds = preparation;
  response_seconds = response;
  question_count = questions;
  exposure_count = exposures;
  source_hidden_before_response = hidden;
  unpredictable_followups = followups;
  complication_count = complications;
}

unfoldable pub activity_spec : ActivityType → ActivitySpec
activity_spec ActivityType.situational_response = record {
  activity_type = ActivityType.situational_response;
  label = "Situational response";
  interaction_mode = ActivityInteractionMode.sprint;
  default_count = 4;
  compatible_drills = situational;
  default_config = config (some 3) (some 45) none none none none none;
  default_planned_duration_seconds = none;
  intended_evidence_strength = "spontaneous_production";
  stimulus_requirements = [];
}
activity_spec ActivityType.picture_narration = record {
  activity_type = ActivityType.picture_narration;
  label = "Picture/comic narration";
  interaction_mode = ActivityInteractionMode.single_response;
  default_count = 1;
  compatible_drills = picture;
  default_config = config (some 30) (some 120) none none none none none;
  default_planned_duration_seconds = none;
  intended_evidence_strength = "spontaneous_production";
  stimulus_requirements = picture_requirements;
}
activity_spec ActivityType.question_answer_sprint = record {
  activity_type = ActivityType.question_answer_sprint;
  label = "Question-answer sprint";
  interaction_mode = ActivityInteractionMode.sprint;
  default_count = 6;
  compatible_drills = qa;
  default_config = config (some 3) (some 30) (some 6) none none none none;
  default_planned_duration_seconds = none;
  intended_evidence_strength = "spontaneous_production";
  stimulus_requirements = [];
}
activity_spec ActivityType.retell_reconstruction = record {
  activity_type = ActivityType.retell_reconstruction;
  label = "Retell/reconstruction";
  interaction_mode = ActivityInteractionMode.single_response;
  default_count = 1;
  compatible_drills = retell;
  default_config = config none (some 120) none (some 1) (some true) none none;
  default_planned_duration_seconds = none;
  intended_evidence_strength = "spontaneous_production";
  stimulus_requirements = retell_requirements;
}
activity_spec ActivityType.corrective_conversation = record {
  activity_type = ActivityType.corrective_conversation;
  label = "Conversation with corrective feedback";
  interaction_mode = ActivityInteractionMode.multi_turn;
  default_count = 6;
  compatible_drills = conversation;
  default_config = config none none none none none (some true) none;
  default_planned_duration_seconds = some 1200;
  intended_evidence_strength = "spontaneous_production";
  stimulus_requirements = [];
}
activity_spec ActivityType.sentence_transformation_sprint = record {
  activity_type = ActivityType.sentence_transformation_sprint;
  label = "Sentence-transformation sprint";
  interaction_mode = ActivityInteractionMode.sprint;
  default_count = 6;
  compatible_drills = transformation;
  default_config = config none none none none none none none;
  default_planned_duration_seconds = none;
  intended_evidence_strength = "controlled_production";
  stimulus_requirements = [];
}
activity_spec ActivityType.dictogloss = record {
  activity_type = ActivityType.dictogloss;
  label = "Dictogloss";
  interaction_mode = ActivityInteractionMode.single_response;
  default_count = 1;
  compatible_drills = retell;
  default_config = config none (some 180) none (some 2) (some true) none none;
  default_planned_duration_seconds = none;
  intended_evidence_strength = "controlled_production";
  stimulus_requirements = retell_requirements;
}
activity_spec ActivityType.voice_diary = record {
  activity_type = ActivityType.voice_diary;
  label = "Voice diary";
  interaction_mode = ActivityInteractionMode.single_response;
  default_count = 1;
  compatible_drills = DrillType.situational_response ∷ DrillType.micro_story ∷ [];
  default_config = config none (some 180) none none none none none;
  default_planned_duration_seconds = none;
  intended_evidence_strength = "spontaneous_production";
  stimulus_requirements = [];
}
activity_spec ActivityType.read_close_explain = record {
  activity_type = ActivityType.read_close_explain;
  label = "Read, close, explain";
  interaction_mode = ActivityInteractionMode.single_response;
  default_count = 1;
  compatible_drills = retell;
  default_config = config none (some 120) none none (some true) none none;
  default_planned_duration_seconds = none;
  intended_evidence_strength = "spontaneous_production";
  stimulus_requirements = read_close_requirements;
}
activity_spec ActivityType.role_play_complications = record {
  activity_type = ActivityType.role_play_complications;
  label = "Role-play with complications";
  interaction_mode = ActivityInteractionMode.multi_turn;
  default_count = 4;
  compatible_drills = role_play;
  default_config = config none none none none none (some true) (some 1);
  default_planned_duration_seconds = none;
  intended_evidence_strength = "spontaneous_production";
  stimulus_requirements = role_play_requirements;
}

-- `ActivityType::ALL`
abbrev pub all_activity_types : List ActivityType
all_activity_types =
    ActivityType.situational_response ∷ ActivityType.picture_narration
    ∷ ActivityType.question_answer_sprint ∷ ActivityType.retell_reconstruction
    ∷ ActivityType.corrective_conversation ∷ ActivityType.sentence_transformation_sprint
    ∷ ActivityType.dictogloss ∷ ActivityType.voice_diary ∷ ActivityType.read_close_explain
    ∷ ActivityType.role_play_complications ∷ []

unfoldable pub activity_catalog : List ActivitySpec
activity_catalog = map activity_spec all_activity_types

unfoldable pub is_single_response : ActivityType → Bool
is_single_response ActivityType.picture_narration = true
is_single_response ActivityType.retell_reconstruction = true
is_single_response ActivityType.dictogloss = true
is_single_response ActivityType.voice_diary = true
is_single_response ActivityType.read_close_explain = true
is_single_response _ = false

-- `a - b` on a 64-bit `usize` in a release build: it wraps.
abbrev pub wrapping_sub : ℕ → ℕ → ℕ
wrapping_sub a b = (a + 18446744073709551616 - b) % 18446744073709551616

unfoldable pub phase_for_item : ActivityType → ℕ → ℕ → ℕ → ActivityItemPhase
phase_for_item ActivityType.corrective_conversation item_index item_count complication_count =
    if item_index == 0 then ActivityItemPhase.initial else ActivityItemPhase.follow_up
phase_for_item ActivityType.role_play_complications item_index item_count complication_count =
    if item_index == 0
    then ActivityItemPhase.initial
    else (if ltb 0 complication_count && leb (wrapping_sub item_count complication_count) item_index
        then ActivityItemPhase.complication
        else ActivityItemPhase.follow_up)
phase_for_item _ item_index item_count complication_count = ActivityItemPhase.initial
