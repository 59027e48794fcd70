-- ===== src/Production/Classes.antt =====
-- `attempt_class` of src/production.rs: how much help an attempt had.
use aprendiendo.Base.{
  ℕ, String, Bool, true, false, not, ◌&&◌, ◌||◌, Option, none, some, List, [], ◌∷◌, ◌++◌, any, find,
  map, is_empty, is_some_and, str_eq, ltb, ◌==◌, if◌then◌else◌,
}
use aprendiendo.Model.Formats.{DrillType}
use aprendiendo.Model.Evidence.{HintLevel, hint_level_eq}
use aprendiendo.Model.Requests.{ObservationInput, AttemptInput, PracticeItemInput}
use aprendiendo.Model.Session.{RecordPracticeSessionRequest}
use aprendiendo.Model.Production.{
  AttemptKind, PromptCueing, Exposure, AttemptEvidence, Intervention, ProductionEvidence,
}
use aprendiendo.Production.Prompts.{PromptFinding, prompt_findings}

pub data AttemptClass : Type 0 where
  unknown assisted cued_controlled independent : AttemptClass

-- The findings of the class: those of the prompt, or a reference that does not resolve.
pub data ClassFinding : Type 0 where
  in_prompt : PromptFinding → ClassFinding
  invalid_attempt_reference invalid_practice_item_reference : ℕ → ClassFinding

abbrev pub find_attempt : ℕ → List AttemptInput → Option AttemptInput
find_attempt n attempts = find (λ (a : AttemptInput). a.attempt_no == n) attempts

abbrev pub find_item : Option ℕ → List PracticeItemInput → Option PracticeItemInput
find_item number items =
    find (λ (i : PracticeItemInput). is_some_and number (λ n. i.item_no == n)) items

abbrev pub has_key : String → List String → Bool
has_key key keys = any (λ k. str_eq k key) keys

-- `matches!(a.prior_target_exposure, Model | RelevantWording)`
unfoldable pub was_exposed : Exposure → Bool
was_exposed Exposure.model = true
was_exposed Exposure.relevant_wording = true
was_exposed _ = false

-- `matches!(a.prompt_cueing, Indirect | TargetFormSupplied | ModelSupplied)`
unfoldable pub is_cued : PromptCueing → Bool
is_cued PromptCueing.indirect = true
is_cued PromptCueing.target_form_supplied = true
is_cued PromptCueing.model_supplied = true
is_cued _ = false

-- The drills that the class calls controlled.
unfoldable pub is_controlled_drill : DrillType → Bool
is_controlled_drill DrillType.translation = true
is_controlled_drill DrillType.sentence_transformation = true
is_controlled_drill DrillType.sentence_completion = true
is_controlled_drill DrillType.sentence_combining = true
is_controlled_drill DrillType.error_correction = true
is_controlled_drill DrillType.minimal_pair_choice = true
is_controlled_drill DrillType.dialogue_completion = true
is_controlled_drill _ = false

abbrev pub is_initial : AttemptKind → Bool
is_initial AttemptKind.initial = true
is_initial _ = false

abbrev pub is_self_correction : AttemptKind → Bool
is_self_correction AttemptKind.self_correction = true
is_self_correction _ = false

-- `a.prompt_cueing == Unknown || a.prior_target_exposure == Unknown`
unfoldable pub is_unknown : PromptCueing → Exposure → Bool
is_unknown PromptCueing.unknown exposure = true
is_unknown cueing Exposure.unknown = true
is_unknown cueing exposure = false

-- An intervention before the attempt, on one of its targets or on all.
abbrev pub was_helped : List Intervention → ℕ → List String → Bool
was_helped interventions attempt_no targets =
    any
      (λ (i : Intervention).
        ltb i.after_attempt_no attempt_no
        && (is_empty i.target_weakness_keys || any (λ k. has_key k targets) i.target_weakness_keys))
      interventions

abbrev pub was_hinted : AttemptInput → Bool
was_hinted attempt =
    any
      (λ (o : ObservationInput).
        is_some_and o.hint_level (λ h. not (hint_level_eq h HintLevel.none)))
      attempt.observations

-- The `if` chain, once the attempt and its item are found.
unfoldable pub class_of :
    ProductionEvidence
    → AttemptEvidence
    → AttemptInput
    → PracticeItemInput
    → List String
    → List PromptFinding
    → AttemptClass
unfolding was_exposed is_cued is_controlled_drill is_unknown
class_of e a attempt item targets findings =
    if was_hinted attempt
      || is_self_correction a.attempt_kind
      || was_helped e.interventions a.attempt_no targets
      || was_exposed a.prior_target_exposure
    then AttemptClass.assisted
    else if not (is_empty findings)
        || is_cued a.prompt_cueing
        || is_controlled_drill item.drill_type
    then AttemptClass.cued_controlled
    else if is_unknown a.prompt_cueing a.prior_target_exposure
    then AttemptClass.unknown
    else AttemptClass.independent

-- The keys that the item targets and those that the attempt's observations are about.
abbrev pub targets_of : AttemptInput → PracticeItemInput → List String
targets_of attempt item =
    item.target_weakness_keys ++ map (λ (o : ObservationInput). o.weakness_key) attempt.observations

unfoldable pub attempt_class :
    (List ℕ → List ℕ)
    → RecordPracticeSessionRequest
    → ProductionEvidence
    → AttemptEvidence
    → AttemptClass × List ClassFinding
attempt_class to_lowercase r e a = elim (find_attempt a.attempt_no r.attempts) [
  | none ↦ (AttemptClass.unknown, ClassFinding.invalid_attempt_reference a.attempt_no ∷ [])
  | some attempt ↦ elim (find_item attempt.practice_item_no r.items) [
    | none ↦ (AttemptClass.unknown, ClassFinding.invalid_practice_item_reference a.attempt_no ∷ [])
    | some item ↦
        let targets = targets_of attempt item in
        let findings = prompt_findings to_lowercase item.prompt targets in
        (class_of e a attempt item targets findings, map in_prompt findings)
  ]
]
