-- ===== src/Activities/Stimuli.antt =====
-- src/activities.rs: the stimuli of an activity run.
use aprendiendo.Base.{
  String, Bool, true, false, not, ◌&&◌, ◌||◌, Option, List, [], ◌∷◌, Outcome, ◌>>◌, bail_if,
  is_none, is_some_and, any, all, is_blank,
}
use aprendiendo.Model.Formats.{
  ActivityType, StimulusKind, StimulusDeliveryMode, stimulus_kind_eq, stimulus_delivery_mode_eq,
}
use aprendiendo.Model.Requests.{ActivityStimulusInput}
use aprendiendo.Activities.Catalog.{
  ActivitySpec, StimulusRequirementSpec, StimulusAlternativeSpec, activity_spec,
}
use aprendiendo.Activities.Config.{ActivityError}

-- `option.is_some_and(|value| !value.trim().is_empty())`
abbrev pub has_content : Option String → Bool
has_content o = is_some_and o (λ v. not (is_blank v))

-- `modes.contains(&mode)`
abbrev pub has_mode : StimulusDeliveryMode → List StimulusDeliveryMode → Bool
has_mode mode modes = any (λ m. stimulus_delivery_mode_eq m mode) modes

-- The first `match` of `validate_stimulus`.
unfoldable pub allowed_modes : StimulusKind → List StimulusDeliveryMode
allowed_modes StimulusKind.situation =
    StimulusDeliveryMode.read ∷ StimulusDeliveryMode.conversation ∷ []
allowed_modes StimulusKind.source_text = StimulusDeliveryMode.read ∷ []
allowed_modes StimulusKind.article_reference = StimulusDeliveryMode.read ∷ []
allowed_modes StimulusKind.image_description = StimulusDeliveryMode.viewed ∷ []
allowed_modes StimulusKind.image_sequence_description = StimulusDeliveryMode.viewed ∷ []
allowed_modes StimulusKind.media_transcript =
    StimulusDeliveryMode.heard_reported ∷ StimulusDeliveryMode.viewed ∷ []
allowed_modes StimulusKind.complication = StimulusDeliveryMode.conversation ∷ []

-- The kinds of its last test.
unfoldable pub needs_text : StimulusKind → Bool
needs_text StimulusKind.situation = true
needs_text StimulusKind.source_text = true
needs_text StimulusKind.image_description = true
needs_text StimulusKind.image_sequence_description = true
needs_text StimulusKind.media_transcript = true
needs_text StimulusKind.complication = true
needs_text StimulusKind.article_reference = false

unfoldable pub validate_stimulus : ActivityStimulusInput → Outcome ActivityError (Unit {0})
validate_stimulus s =
    let has_text = has_content s.content_text in
    let has_uri = has_content s.source_uri in
    do
      bail_if (not (has_mode s.delivery_mode (allowed_modes s.kind)))
          ActivityError.delivery_mode_not_allowed
      bail_if (not has_text && not has_uri) ActivityError.no_content
      bail_if (not (stimulus_kind_eq s.kind StimulusKind.article_reference) && has_uri)
          ActivityError.unexpected_uri
      bail_if (needs_text s.kind && not has_text) ActivityError.text_required

-- One stimulus against one alternative.
unfoldable pub satisfies : StimulusAlternativeSpec → ActivityStimulusInput → Bool
satisfies a s =
    stimulus_kind_eq s.kind a.kind
    && has_mode s.delivery_mode a.allowed_delivery_modes
    && (not a.content_text_required || has_content s.content_text)
    && (a.source_uri_allowed || is_none s.source_uri)

unfoldable pub activity_stimuli_satisfy_requirements :
    ActivityType → List ActivityStimulusInput → Bool
unfolding satisfies
activity_stimuli_satisfy_requirements activity_type stimuli =
    all
      (λ (r : StimulusRequirementSpec).
        any (λ (a : StimulusAlternativeSpec). any (λ s. satisfies a s) stimuli) r.alternatives)
      (ActivitySpec.stimulus_requirements (activity_spec activity_type))
