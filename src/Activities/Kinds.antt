-- ===== src/Activities/Kinds.antt =====
-- The two tables on stimuli in src/activities.rs, `validate_stimulus` and the requirements of the
-- catalogue, agree.
use aprendiendo.Base.{Bool, true, not, ◌||◌, ◌≡◌, is_ok, all, arith}
use aprendiendo.Model.Formats.{
  ActivityType, stimulus_kind_eq, stimulus_kind_index, stimulus_delivery_mode_eq,
  stimulus_delivery_mode_index,
}
use aprendiendo.Model.Requests.{ActivityStimulusInput}
use aprendiendo.Activities.Catalog.{
  ActivitySpec, StimulusRequirementSpec, StimulusAlternativeSpec, activity_spec,
}
use aprendiendo.Activities.Stimuli.{
  satisfies, validate_stimulus, has_content, allowed_modes, needs_text,
}

-- Each alternative of each requirement of the activity.
abbrev pub each_alternative : ActivityType → (StimulusAlternativeSpec → Bool) → Bool
each_alternative t p =
    all (λ (r : StimulusRequirementSpec). all p r.alternatives)
      (ActivitySpec.stimulus_requirements (activity_spec t))

-- A stimulus that satisfies an alternative of an activity's requirements, and has a text or an
-- address, is valid.
pub satisfies-validate_stimulus :
    (t : ActivityType) (s : ActivityStimulusInput)
    → (has_content s.content_text || has_content s.source_uri) ≡ true
    → each_alternative t (λ a. not (satisfies a s) || is_ok (validate_stimulus s)) ≡ true
unfolding activity_spec satisfies validate_stimulus allowed_modes needs_text stimulus_kind_eq
    stimulus_kind_index stimulus_delivery_mode_eq stimulus_delivery_mode_index
satisfies-validate_stimulus ActivityType.situational_response s h = ground arith
satisfies-validate_stimulus ActivityType.picture_narration s h = ground arith
satisfies-validate_stimulus ActivityType.question_answer_sprint s h = ground arith
satisfies-validate_stimulus ActivityType.retell_reconstruction s h = ground arith
satisfies-validate_stimulus ActivityType.corrective_conversation s h = ground arith
satisfies-validate_stimulus ActivityType.sentence_transformation_sprint s h = ground arith
satisfies-validate_stimulus ActivityType.dictogloss s h = ground arith
satisfies-validate_stimulus ActivityType.voice_diary s h = ground arith
satisfies-validate_stimulus ActivityType.read_close_explain s h = ground arith
satisfies-validate_stimulus ActivityType.role_play_complications s h = ground arith
