-- ===== src/Activities/Config.antt =====
-- src/activities.rs: the configuration of an activity. Each `bail!` of the file is a constructor
-- of `ActivityError`.
use aprendiendo.Base.{
  Bool, true, false, not, ◌&&◌, Option, none, some, List, [], ◌∷◌, Outcome, ok, ◌>>◌, bail_if,
  for_each, is_some, is_none, is_some_and, or_else, in_range, ltb,
}
use aprendiendo.Model.Formats.{ActivityType}
use aprendiendo.Model.Requests.{ActivityConfigInput}
use aprendiendo.Activities.Catalog.{ActivitySpec, activity_spec}

pub data ConfigField : Type 0 where
  preparation_seconds response_seconds question_count exposure_count source_hidden_before_response
        unpredictable_followups complication_count :
      ConfigField

pub data ActivityError : Type 0 where
  field_does_not_apply : ConfigField → ActivityType → ActivityError
  requires_hidden_source : ActivityType → ActivityError
  out_of_range : ConfigField → ActivityError
  empty_config : ActivityError
  delivery_mode_not_allowed no_content unexpected_uri text_required : ActivityError
  too_many_runs bad_run_no bad_planned_duration bad_run_duration : ActivityError
  run_duration_without_source run_source_without_duration : ActivityError
  long_run_notes empty_run_notes too_many_stimuli bad_stimulus_no : ActivityError
  long_content_text long_source_uri empty_content_text empty_source_uri : ActivityError
  item_without_run unknown_run not_one_target incompatible_drill : ActivityError
  misplaced_complication undeclared_runs attempt_without_item unknown_item : ActivityError
  not_one_item no_item requirements_not_met no_dictogloss_config no_exposure_count : ActivityError
  source_not_hidden wrong_question_count wrong_complication_count only_complications : ActivityError
  bad_latency latency_without_source duration_without_source bad_duration : ActivityError
  source_without_timing too_many_reflections bad_reflection_no empty_note long_note : ActivityError
  assistant_not_general reported_not_learner : ActivityError

-- The closure `accepts` of `validate_config_fields`.
unfoldable pub accepts : ActivityType → ConfigField → Bool
accepts ActivityType.situational_response ConfigField.preparation_seconds = true
accepts ActivityType.picture_narration ConfigField.preparation_seconds = true
accepts ActivityType.question_answer_sprint ConfigField.preparation_seconds = true
accepts ActivityType.situational_response ConfigField.response_seconds = true
accepts ActivityType.picture_narration ConfigField.response_seconds = true
accepts ActivityType.question_answer_sprint ConfigField.response_seconds = true
accepts ActivityType.retell_reconstruction ConfigField.response_seconds = true
accepts ActivityType.dictogloss ConfigField.response_seconds = true
accepts ActivityType.voice_diary ConfigField.response_seconds = true
accepts ActivityType.read_close_explain ConfigField.response_seconds = true
accepts ActivityType.question_answer_sprint ConfigField.question_count = true
accepts ActivityType.retell_reconstruction ConfigField.exposure_count = true
accepts ActivityType.dictogloss ConfigField.exposure_count = true
accepts ActivityType.retell_reconstruction ConfigField.source_hidden_before_response = true
accepts ActivityType.dictogloss ConfigField.source_hidden_before_response = true
accepts ActivityType.read_close_explain ConfigField.source_hidden_before_response = true
accepts ActivityType.corrective_conversation ConfigField.unpredictable_followups = true
accepts ActivityType.role_play_complications ConfigField.unpredictable_followups = true
accepts ActivityType.role_play_complications ConfigField.complication_count = true
accepts _ _ = false

abbrev fields : ActivityConfigInput → List (ConfigField × Bool)
fields c =
    (ConfigField.preparation_seconds, is_some c.preparation_seconds)
    ∷ (ConfigField.response_seconds, is_some c.response_seconds)
    ∷ (ConfigField.question_count, is_some c.question_count)
    ∷ (ConfigField.exposure_count, is_some c.exposure_count)
    ∷ (ConfigField.source_hidden_before_response, is_some c.source_hidden_before_response)
    ∷ (ConfigField.unpredictable_followups, is_some c.unpredictable_followups)
    ∷ (ConfigField.complication_count, is_some c.complication_count)
    ∷ []

-- `matches!(activity_type, Dictogloss | ReadCloseExplain)`
unfoldable pub hides_source : ActivityType → Bool
hides_source ActivityType.dictogloss = true
hides_source ActivityType.read_close_explain = true
hides_source _ = false

unfoldable pub validate_config_fields :
    ActivityType → ActivityConfigInput → Outcome ActivityError (Unit {0})
validate_config_fields activity_type c = do
  for_each
      (λ (f : ConfigField × Bool).
        bail_if (f.1 && not (accepts activity_type f.0))
          (ActivityError.field_does_not_apply f.0 activity_type))
      (fields c)
  bail_if (is_some_and c.source_hidden_before_response not && hides_source activity_type)
      (ActivityError.requires_hidden_source activity_type)

unfoldable pub validate_config_bounds : ActivityConfigInput → Outcome ActivityError (Unit {0})
validate_config_bounds c = do
  bail_if (is_some_and c.preparation_seconds (λ v. not (in_range 1 3600 v)))
      (ActivityError.out_of_range ConfigField.preparation_seconds)
  bail_if (is_some_and c.response_seconds (λ v. not (in_range 1 3600 v)))
      (ActivityError.out_of_range ConfigField.response_seconds)
  bail_if (is_some_and c.question_count (λ v. not (in_range 1 20 v)))
      (ActivityError.out_of_range ConfigField.question_count)
  bail_if (is_some_and c.exposure_count (λ v. not (in_range 1 10 v)))
      (ActivityError.out_of_range ConfigField.exposure_count)
  bail_if (is_some_and c.complication_count (λ v. ltb 10 v))
      (ActivityError.out_of_range ConfigField.complication_count)

-- `ActivityConfigInput::is_empty`
unfoldable pub config_is_empty : ActivityConfigInput → Bool
config_is_empty c =
    is_none c.preparation_seconds
    && is_none c.response_seconds
    && is_none c.question_count
    && is_none c.exposure_count
    && is_none c.source_hidden_before_response
    && is_none c.unpredictable_followups
    && is_none c.complication_count

-- Each field from the overrides, or else from the defaults.
abbrev pub overlay : ActivityConfigInput → ActivityConfigInput → ActivityConfigInput
overlay c d = record {
  preparation_seconds = or_else c.preparation_seconds d.preparation_seconds;
  response_seconds = or_else c.response_seconds d.response_seconds;
  question_count = or_else c.question_count d.question_count;
  exposure_count = or_else c.exposure_count d.exposure_count;
  source_hidden_before_response =
      or_else c.source_hidden_before_response d.source_hidden_before_response;
  unpredictable_followups = or_else c.unpredictable_followups d.unpredictable_followups;
  complication_count = or_else c.complication_count d.complication_count;
}

unfoldable pub merged_config :
    ActivityType → Option ActivityConfigInput → Outcome ActivityError ActivityConfigInput
merged_config activity_type none = ok (ActivitySpec.default_config (activity_spec activity_type))
merged_config activity_type (some overrides) = do
  validate_config_fields activity_type overrides
  bail_if (config_is_empty overrides) ActivityError.empty_config
  ok (overlay overrides (ActivitySpec.default_config (activity_spec activity_type)))
