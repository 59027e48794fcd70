-- ===== src/Activities/Examples.antt =====
-- A session with one role play, on which the theorems about activities are applied.
use aprendiendo.Base.{
  ℕ, ◌≤◌, true, not, ◌&&◌, ◌||◌, none, some, [], ◌∷◌, ◌≡◌, ◌≢◌, ◌↔◌, refl, All, any, ok, is_ok,
  is_blank, is_whitespace, is_some_and, IsDistinct, length, ◌==◌, arith,
}
use aprendiendo.Model.Formats.{
  DrillType, ActivityType, ActivityItemPhase, ExerciseTypeKey, StimulusKind, StimulusDeliveryMode,
  stimulus_delivery_mode_eq, stimulus_delivery_mode_index, stimulus_kind_eq, stimulus_kind_index,
  drill_type_eq, drill_type_index, activity_item_phase_eq, activity_item_phase_index,
}
use aprendiendo.Model.Requests.{
  ActivityConfigInput, ActivityStimulusInput, ActivityRunInput, PracticeItemInput,
}
use aprendiendo.Model.Session.{RecordPracticeSessionRequest}
use aprendiendo.Activities.Catalog.{activity_spec, is_single_response}
use aprendiendo.Activities.Config.{
  validate_config_fields, validate_config_bounds, config_is_empty, accepts, hides_source,
  merged_config,
}
use aprendiendo.Activities.Stimuli.{
  satisfies, validate_stimulus, allowed_modes, needs_text, activity_stimuli_satisfy_requirements,
}
use aprendiendo.Activities.Recording.{
  validate_activity_recording, check_run, check_stimulus, check_item, check_runs_linked,
  check_links, check_hidden, check_counts,
}
use aprendiendo.Activities.Defaults.{
  Fits, AllChosen, defaults, validate_config_fields_iff, merged_config-Fits,
}
use aprendiendo.Activities.Phases.{phases, phase_for_item-role_play}
use aprendiendo.Activities.Kinds.{each_alternative, satisfies-validate_stimulus}
use aprendiendo.Activities.Runs.{run_numbers}
use aprendiendo.Activities.Items.{drill_fits}
use aprendiendo.Activities.Accepted.{
  validate_activity_recording-runs, validate_activity_recording-items,
}
use aprendiendo.Activities.Linked.{
  counts_fit, items_of, complications_of, validate_activity_recording-counts,
}

abbrev plan : ActivityConfigInput
plan = record {
  preparation_seconds = none;
  response_seconds = none;
  question_count = none;
  exposure_count = none;
  source_hidden_before_response = none;
  unpredictable_followups = some true;
  complication_count = some 1;
}

abbrev situation : ActivityStimulusInput
situation = record {
  stimulus_no = 1;
  kind = StimulusKind.situation;
  delivery_mode = StimulusDeliveryMode.read;
  content_text = some "En la estación";
  source_uri = none;
}

abbrev run : ActivityRunInput
run = record {
  run_no = 1;
  activity_type = ActivityType.role_play_complications;
  planned_duration_seconds = some 600;
  actual_duration_milliseconds = none;
  timing_source = none;
  config = some plan;
  notes = none;
  stimuli = situation ∷ [];
}

abbrev item : ℕ → ActivityItemPhase → PracticeItemInput
item n phase = record {
  item_no = n;
  drill_type = DrillType.situational_response;
  prompt = "Pide ayuda";
  response = none;
  corrected_response = none;
  reference_answer = none;
  feedback = none;
  outcome = none;
  activity_run_no = some 1;
  item_phase = some phase;
  target_weakness_keys = "ser-estar" ∷ [];
  observations = [];
}

abbrev session : RecordPracticeSessionRequest
session = record {
  production_evidence = none;
  idempotency_key = "s-1";
  session_date = none;
  reviewed_at = none;
  task_ref = none;
  exercise_type_key = ExerciseTypeKey.guided_conversation;
  topic = none;
  notes = none;
  new_weaknesses = [];
  items = item 1 ActivityItemPhase.initial ∷ item 2 ActivityItemPhase.complication ∷ [];
  attempts = [];
  observations = [];
  findings = [];
  reviews = [];
  activity_runs = run ∷ [];
  task_requirements = [];
  requested_point_assessments = [];
}

accepted : validate_activity_recording session ≡ ok tt
unfolding validate_activity_recording check_run validate_config_fields accepts hides_source
    validate_config_bounds config_is_empty check_stimulus is_blank is_whitespace validate_stimulus
    allowed_modes needs_text stimulus_delivery_mode_eq stimulus_delivery_mode_index stimulus_kind_eq
    stimulus_kind_index check_item activity_spec drill_type_eq drill_type_index
    activity_item_phase_eq activity_item_phase_index check_runs_linked check_links
    is_single_response activity_stimuli_satisfy_requirements satisfies check_hidden check_counts
accepted = refl

validate_activity_recording-runs_example :
    (1 ≤ 10)
    × IsDistinct (run_numbers session.activity_runs)
    × All (λ (r : ActivityRunInput). r.run_no ≢ 0) session.activity_runs
validate_activity_recording-runs_example = validate_activity_recording-runs session accepted

validate_activity_recording-items_example :
    All
      (λ (i : PracticeItemInput).
        any
          (λ (r : ActivityRunInput).
            is_some_and i.activity_run_no (λ n. r.run_no == n)
            && drill_fits i.drill_type r.activity_type)
          session.activity_runs
        ≡ true)
      session.items
validate_activity_recording-items_example = validate_activity_recording-items session accepted refl

validate_activity_recording-counts_example :
    All
      (λ (r : ActivityRunInput).
        counts_fit r
          (length (items_of r.run_no session.items))
          (length (complications_of r.run_no session.items))
        ≡ true)
      session.activity_runs
validate_activity_recording-counts_example =
    validate_activity_recording-counts session accepted refl (refl, (refl, tt))

phase_for_item-role_play_example :
    phases 4 1 0 4
    ≡ ActivityItemPhase.initial ∷ ActivityItemPhase.follow_up ∷ ActivityItemPhase.follow_up
      ∷ ActivityItemPhase.complication ∷ []
phase_for_item-role_play_example = phase_for_item-role_play 2 1 (omega arith)

validate_config_fields-iff_example :
    (is_ok (validate_config_fields ActivityType.role_play_complications plan) ≡ true)
    ↔ Fits ActivityType.role_play_complications plan
validate_config_fields-iff_example =
    validate_config_fields_iff ActivityType.role_play_complications plan

-- The caller asks for three complications and leaves the rest to the defaults.
abbrev three : ActivityConfigInput
three = record plan { unpredictable_followups = none; complication_count = some 3 }

merged_config-Fits_example :
    Fits ActivityType.role_play_complications (record plan { complication_count = some 3 })
    × AllChosen
        (record plan { complication_count = some 3 })
        (some three)
        (defaults ActivityType.role_play_complications)
unfolding merged_config validate_config_fields accepts hides_source config_is_empty activity_spec
merged_config-Fits_example =
    merged_config-Fits ActivityType.role_play_complications (some three)
      (record plan { complication_count = some 3 }) refl

satisfies-validate_stimulus_example :
    each_alternative ActivityType.role_play_complications
      (λ a. not (satisfies a situation) || is_ok (validate_stimulus situation))
    ≡ true
unfolding is_blank
satisfies-validate_stimulus_example =
    satisfies-validate_stimulus ActivityType.role_play_complications situation refl
