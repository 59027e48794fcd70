-- ===== src/Tutoring/Checks.antt =====
-- The small functions of src/tutoring.rs: the tests of texts and of references, and the parts of a
-- canonical request. Each error message is a constructor.
use Prim.Native.String.{◌++◌ as string_append}
use aprendiendo.Base.{
  ℕ, ◌+◌, ◌-◌, String, ◌||◌, Option, none, some, List, [], ◌∷◌, Outcome, ok, ◌>>◌, bail_if,
  for_each, unwrap_or, flat_map, map, is_blank, len, length, ltb, ◌==◌,
}
use aprendiendo.Model.Evidence.{ObservationRole}
use aprendiendo.Model.Requests.{ObservationInput, FindingInput}
use aprendiendo.Tutoring.Requests.{
  TutoringObservationInput, TutoringFindingInput, TutoringInterventionInput, TutoringAttemptInput,
  TutoringTurnInput,
}

pub data TutoringError : Type 0 where
  blank too_long too_many out_of_range number_overflow timing_source_required : TutoringError
  policy_version_required assessment_required evidence_required missing_key : TutoringError
  initial_with_original self_correction_without_original original_not_earlier : TutoringError
  empty_variation : TutoringError

unfoldable pub text : String → ℕ → Outcome TutoringError (Unit {0})
text value max = do
  bail_if (is_blank value) TutoringError.blank
  bail_if (ltb max (len value)) TutoringError.too_long

unfoldable pub optional_text : Option String → ℕ → Outcome TutoringError (Unit {0})
unfolding text
optional_text none max = ok tt
optional_text (some value) max = text value max

unfoldable pub checked_index : ℕ → ℕ → Outcome TutoringError ℕ
checked_index value length = do
  bail_if (value == 0 || ltb length value) TutoringError.out_of_range
  ok (value - 1)

-- `u16::try_from(n)` and `n.checked_add(1)`
abbrev pub to_u16 : ℕ → Outcome TutoringError ℕ
to_u16 n = bail_if (ltb 65535 n) TutoringError.number_overflow >> ok n

-- `values.iter().enumerate()`, from an index on.
abbrev pub enumerate_from {ℓ} : {A : Type ℓ} → ℕ → List A → List (ℕ × A)
enumerate_from i [] = []
enumerate_from i (x ∷ xs) = (i, x) ∷ enumerate_from (i + 1) xs

unfoldable pub compact_observation : TutoringObservationInput → ℕ → ObservationInput
compact_observation value observation_no = record {
  observation_no = observation_no;
  weakness_key = value.weakness_key;
  outcome = value.outcome;
  role = unwrap_or value.role ObservationRole.incidental;
  assessment_phase = value.assessment_phase;
  hint_level = value.hint_level;
  learner_effort = value.learner_effort;
  evidence_source = value.evidence_source;
  evidence_strength = value.evidence_strength;
  severity = value.severity;
  produced = value.produced;
  correction = value.correction;
  error_span = value.error_span;
  notes = value.notes;
}

unfoldable pub finding : TutoringFindingInput → ℕ → ℕ → FindingInput
finding value item_no attempt_no = record {
  practice_item_no = some item_no;
  attempt_no = some attempt_no;
  assessment_kind = value.assessment_kind;
  original = value.original;
  suggestion = value.suggestion;
  note = value.note;
}

-- `parts.join("\n")`
abbrev pub join_lines : List String → String
join_lines [] = ""
join_lines (p ∷ []) = p
join_lines (p ∷ q ∷ ps) = string_append p (string_append "\n" (join_lines (q ∷ ps)))

-- The texts of the interventions of a turn.
abbrev pub intervention_texts : TutoringTurnInput → List String
intervention_texts turn =
    flat_map
      (λ (a : TutoringAttemptInput).
        map (λ (i : TutoringInterventionInput). i.text) a.interventions_after)
      turn.attempts

-- What follows the loops of `feedback_for_turn`.
feedback_of : List String → Outcome TutoringError (Option String)
unfolding text
feedback_of [] = ok none
feedback_of (p ∷ ps) = do text (join_lines (p ∷ ps)) 4000; ok (some (join_lines (p ∷ ps)))

unfoldable pub feedback_for_turn : TutoringTurnInput → Outcome TutoringError (Option String)
unfolding text feedback_of
feedback_for_turn turn = do
  for_each (λ t. text t 4000) (intervention_texts turn)
  feedback_of (intervention_texts turn)
