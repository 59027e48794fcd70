-- ===== src/Activities/Recording.antt =====
-- src/activities.rs: `validate_activity_recording`, with one function per loop. A `HashMap` is
-- an association list, the latest entry first.
use aprendiendo.Base.{
  ℕ, Bool, true, false, not, ◌&&◌, ◌||◌, Option, none, some, List, [], ◌∷◌, Outcome, ok, ◌>>=◌,
  ◌>>◌, bail_if, ok_or, for_each, try_fold, is_none, is_some, is_some_and, unwrap_or, any, keep,
  map, has, length, is_empty, in_range, ltb, leb, len, is_blank, ◌==◌, if◌then◌else◌,
}
use aprendiendo.Model.Formats.{
  ActivityType, ActivityItemPhase, activity_item_phase_eq, drill_type_eq,
}
use aprendiendo.Model.Evidence.{
  ReflectionSource, ReflectionKind, reflection_source_eq, reflection_kind_eq,
}
use aprendiendo.Model.Requests.{
  ActivityConfigInput, ActivityStimulusInput, ActivityRunInput, AttemptReflectionInput,
  AttemptInput, PracticeItemInput,
}
use aprendiendo.Model.Session.{RecordPracticeSessionRequest}
use aprendiendo.Activities.Catalog.{ActivitySpec, activity_spec, is_single_response}
use aprendiendo.Activities.Config.{
  ActivityError, validate_config_fields, validate_config_bounds, config_is_empty,
}
use aprendiendo.Activities.Stimuli.{validate_stimulus, activity_stimuli_satisfy_requirements}

-- `map.get(&key)`
abbrev pub get {ℓ} : {A : Type ℓ} → ℕ → List (ℕ × A) → Option A
get key [] = none
get key (entry ∷ entries) = if entry.0 == key then some entry.1 else get key entries

-- `map.insert(key, value)`: an earlier entry is replaced.
abbrev pub put {ℓ} : {A : Type ℓ} → ℕ → A → List (ℕ × A) → List (ℕ × A)
put key value entries = (key, value) ∷ keep (λ entry. not (entry.0 == key)) entries

abbrev Check : Type 0
Check = Outcome ActivityError (Unit {0})

-- The body of the loop over the stimuli of a run.
unfoldable pub check_stimulus : List ℕ → ActivityStimulusInput → Outcome ActivityError (List ℕ)
check_stimulus seen s = do
  bail_if (s.stimulus_no == 0 || has s.stimulus_no seen) ActivityError.bad_stimulus_no
  bail_if (is_some_and s.content_text (λ v. ltb 8000 (len v))) ActivityError.long_content_text
  bail_if (is_some_and s.source_uri (λ v. ltb 2000 (len v))) ActivityError.long_source_uri
  bail_if (is_some_and s.content_text is_blank) ActivityError.empty_content_text
  bail_if (is_some_and s.source_uri is_blank) ActivityError.empty_source_uri
  validate_stimulus s
  ok (s.stimulus_no ∷ seen)

-- `if let Some(config) = &run.config { … }`
check_config : ActivityType → Option ActivityConfigInput → Check
check_config activity_type none = ok tt
check_config activity_type (some config) = do
  validate_config_fields activity_type config
  validate_config_bounds config
  bail_if (config_is_empty config) ActivityError.empty_config

-- The body of the first loop over the runs; the state is the map `runs`.
unfoldable pub check_run :
    List (ℕ × ActivityType) → ActivityRunInput → Outcome ActivityError (List (ℕ × ActivityType))
unfolding check_config
check_run runs run = do
  bail_if (run.run_no == 0 || is_some (get run.run_no runs)) ActivityError.bad_run_no
  bail_if (is_some_and run.planned_duration_seconds (λ v. not (in_range 1 7200 v)))
      ActivityError.bad_planned_duration
  bail_if (is_some_and run.actual_duration_milliseconds (λ v. not (in_range 1 86400000 v)))
      ActivityError.bad_run_duration
  bail_if (is_some run.actual_duration_milliseconds && is_none run.timing_source)
      ActivityError.run_duration_without_source
  bail_if (is_none run.actual_duration_milliseconds && is_some run.timing_source)
      ActivityError.run_source_without_duration
  check_config run.activity_type run.config
  bail_if (is_some_and run.notes (λ v. ltb 4000 (len v))) ActivityError.long_run_notes
  bail_if (is_some_and run.notes is_blank) ActivityError.empty_run_notes
  bail_if (ltb 20 (length run.stimuli)) ActivityError.too_many_stimuli
  _ ← try_fold check_stimulus [] run.stimuli
  ok (put run.run_no run.activity_type runs)

-- `matches!(activity_type, RolePlayComplications | CorrectiveConversation)`
takes_complication : ActivityType → Bool
takes_complication ActivityType.role_play_complications = true
takes_complication ActivityType.corrective_conversation = true
takes_complication _ = false

-- The values of the map `item_runs`: the run and the phase of an item.
abbrev pub ItemRuns : Type 0
ItemRuns = List (ℕ × (ℕ × ActivityItemPhase))

-- The body of the loop over the items.
unfoldable pub check_item :
    Bool → List (ℕ × ActivityType) → ItemRuns → PracticeItemInput → Outcome ActivityError ItemRuns
unfolding takes_complication
check_item false runs item_runs item = do
  bail_if (is_some item.activity_run_no || is_some item.item_phase) ActivityError.undeclared_runs
  ok item_runs
check_item true runs item_runs item =
    let phase = unwrap_or item.item_phase ActivityItemPhase.initial in
    do
      run_no ← ok_or item.activity_run_no ActivityError.item_without_run
      activity_type ← ok_or (get run_no runs) ActivityError.unknown_run
      bail_if (not (length item.target_weakness_keys == 1)) ActivityError.not_one_target
      bail_if
          (not (
            any (λ d. drill_type_eq d item.drill_type)
              (ActivitySpec.compatible_drills (activity_spec activity_type))))
          ActivityError.incompatible_drill
      bail_if
          (activity_item_phase_eq phase ActivityItemPhase.complication
            && not (takes_complication activity_type))
          ActivityError.misplaced_complication
      ok (put item.item_no (run_no, phase) item_runs)

abbrev pub linked_items : ℕ → ItemRuns → List (ℕ × (ℕ × ActivityItemPhase))
linked_items run_no item_runs = keep (λ entry. entry.1.0 == run_no) item_runs

abbrev pub complications : List (ℕ × (ℕ × ActivityItemPhase)) → ℕ
complications linked =
    length (keep (λ entry. activity_item_phase_eq entry.1.1 ActivityItemPhase.complication) linked)

-- The `match run.activity_type` in the second loop over the runs.
unfoldable pub check_hidden : ActivityType → Option ActivityConfigInput → Check
check_hidden ActivityType.dictogloss config = do
  c ← ok_or config ActivityError.no_dictogloss_config
  bail_if (is_none (ActivityConfigInput.exposure_count c)) ActivityError.no_exposure_count
  bail_if (not (is_some_and (ActivityConfigInput.source_hidden_before_response c) (λ h. h)))
      ActivityError.source_not_hidden
check_hidden ActivityType.read_close_explain config =
    bail_if
      (not (
        is_some_and config
          (λ (c : ActivityConfigInput). is_some_and c.source_hidden_before_response (λ h. h))))
      ActivityError.source_not_hidden
check_hidden _ config = ok tt

-- The last tests of that loop.
unfoldable pub check_counts :
    Option ActivityConfigInput → List (ℕ × (ℕ × ActivityItemPhase)) → Check
check_counts none linked = ok tt
check_counts (some config) linked = do
  bail_if (is_some_and config.question_count (λ n. not (n == length linked)))
      ActivityError.wrong_question_count
  bail_if (is_some_and config.complication_count (λ n. not (n == complications linked)))
      ActivityError.wrong_complication_count
  bail_if (is_some_and config.complication_count (λ n. leb (length linked) n))
      ActivityError.only_complications

-- The body of the second loop over the runs.
unfoldable pub check_links : ItemRuns → ActivityRunInput → Check
unfolding check_hidden
check_links item_runs run =
    let linked = linked_items run.run_no item_runs in
    let single = is_single_response run.activity_type in
    do
      bail_if (single && not (length linked == 1)) ActivityError.not_one_item
      bail_if (not single && is_empty linked) ActivityError.no_item
      bail_if (not (activity_stimuli_satisfy_requirements run.activity_type run.stimuli))
          ActivityError.requirements_not_met
      check_hidden run.activity_type run.config
      check_counts run.config linked

unfoldable pub check_attempt_item : List ℕ → AttemptInput → Check
check_attempt_item item_numbers attempt = do
  item_no ← ok_or attempt.practice_item_no ActivityError.attempt_without_item
  bail_if (not (has item_no item_numbers)) ActivityError.unknown_item

-- The body of the loop over the reflections of an attempt.
unfoldable pub check_reflection : List ℕ → AttemptReflectionInput → Outcome ActivityError (List ℕ)
check_reflection seen r =
    let general = reflection_kind_eq r.kind ReflectionKind.general in
    do
      bail_if (r.reflection_no == 0 || has r.reflection_no seen) ActivityError.bad_reflection_no
      bail_if (is_blank r.note) ActivityError.empty_note
      bail_if (ltb 2000 (len r.note)) ActivityError.long_note
      bail_if (reflection_source_eq r.source ReflectionSource.assistant && not general)
          ActivityError.assistant_not_general
      bail_if (not general && not (reflection_source_eq r.source ReflectionSource.learner))
          ActivityError.reported_not_learner
      ok (r.reflection_no ∷ seen)

-- The body of the last loop over the attempts.
unfoldable pub check_attempt : Bool → AttemptInput → Check
check_attempt activity_aware a = do
  bail_if (is_some_and a.response_latency_milliseconds (λ v. not (in_range 1 3600000 v)))
      ActivityError.bad_latency
  bail_if (is_some a.response_latency_milliseconds && is_none a.timing_source)
      ActivityError.latency_without_source
  bail_if (is_some a.actual_duration_milliseconds && is_none a.timing_source && activity_aware)
      ActivityError.duration_without_source
  bail_if (is_some_and a.actual_duration_milliseconds (λ v. not (in_range 1 86400000 v)))
      ActivityError.bad_duration
  bail_if
      (is_some a.timing_source
        && is_none a.actual_duration_milliseconds
        && is_none a.response_latency_milliseconds)
      ActivityError.source_without_timing
  bail_if (ltb 20 (length a.reflections)) ActivityError.too_many_reflections
  _ ← try_fold check_reflection [] a.reflections
  ok tt

-- `if activity_aware { … }` between the loops.
unfoldable pub check_runs_linked : Bool → RecordPracticeSessionRequest → ItemRuns → Check
unfolding check_attempt_item
check_runs_linked false request item_runs = ok tt
check_runs_linked true request item_runs = do
  for_each (check_attempt_item (map (λ (i : PracticeItemInput). i.item_no) request.items))
      request.attempts
  for_each (check_links item_runs) request.activity_runs

unfoldable pub validate_activity_recording : RecordPracticeSessionRequest → Check
validate_activity_recording request =
    let activity_aware = not (is_empty request.activity_runs) in
    do
      bail_if (ltb 10 (length request.activity_runs)) ActivityError.too_many_runs
      runs ← try_fold check_run [] request.activity_runs
      item_runs ← try_fold (check_item activity_aware runs) [] request.items
      check_runs_linked activity_aware request item_runs
      for_each (check_attempt activity_aware) request.attempts
