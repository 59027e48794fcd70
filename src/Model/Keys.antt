-- ===== src/Model/Keys.antt =====
-- The names of the exercise types in src/model.rs, read and written.
use aprendiendo.Base.{
  String, Option, none, some, ◌≡◌, ◌↔◌, refl, str_eq, eq_iff, if◌then◌else◌, arith,
}
use aprendiendo.Model.Formats.{ExerciseTypeKey, exercise_type_key_str}

unfoldable pub exercise_type_key_label : ExerciseTypeKey → String
exercise_type_key_label ExerciseTypeKey.fluency_4_3_2 = "4-3-2"
exercise_type_key_label ExerciseTypeKey.production_drill = "production drill"
exercise_type_key_label ExerciseTypeKey.translation_drill = "translation drill"
exercise_type_key_label ExerciseTypeKey.dele_a2_oral_microdrill = "DELE A2 oral microdrill"
exercise_type_key_label ExerciseTypeKey.agreement_disagreement_drill =
    "agreement/disagreement drill"
exercise_type_key_label ExerciseTypeKey.guided_conversation = "guided conversation"

-- `ExerciseTypeKey::from_str`
unfoldable pub exercise_type_key_from_str : String → Option ExerciseTypeKey
exercise_type_key_from_str value =
    if str_eq value "fluency_4_3_2"
    then some ExerciseTypeKey.fluency_4_3_2
    else if str_eq value "production_drill"
    then some ExerciseTypeKey.production_drill
    else if str_eq value "translation_drill"
    then some ExerciseTypeKey.translation_drill
    else if str_eq value "dele_a2_oral_microdrill"
    then some ExerciseTypeKey.dele_a2_oral_microdrill
    else if str_eq value "agreement_disagreement_drill"
    then some ExerciseTypeKey.agreement_disagreement_drill
    else if str_eq value "guided_conversation"
    then some ExerciseTypeKey.guided_conversation
    else none

exercise_type_key_from_str-str :
    (key : ExerciseTypeKey) → exercise_type_key_from_str (exercise_type_key_str key) ≡ some key
unfolding exercise_type_key_from_str exercise_type_key_str
exercise_type_key_from_str-str ExerciseTypeKey.fluency_4_3_2 = refl
exercise_type_key_from_str-str ExerciseTypeKey.production_drill = refl
exercise_type_key_from_str-str ExerciseTypeKey.translation_drill = refl
exercise_type_key_from_str-str ExerciseTypeKey.dele_a2_oral_microdrill = refl
exercise_type_key_from_str-str ExerciseTypeKey.agreement_disagreement_drill = refl
exercise_type_key_from_str-str ExerciseTypeKey.guided_conversation = refl

exercise_type_key_str-from_str :
    (value : String) (key : ExerciseTypeKey)
    → exercise_type_key_from_str value ≡ some key
    → exercise_type_key_str key ≡ value
unfolding exercise_type_key_from_str exercise_type_key_str
exercise_type_key_str-from_str value key h = ground (
  arith,
  eq_iff value "fluency_4_3_2",
  eq_iff value "production_drill",
  eq_iff value "translation_drill",
  eq_iff value "dele_a2_oral_microdrill",
  eq_iff value "agreement_disagreement_drill",
  eq_iff value "guided_conversation",
)

-- A text is read as an exercise type exactly when it is the name that the type is written with.
pub exercise_type_key_from_str_iff :
    (value : String) (key : ExerciseTypeKey)
    → (exercise_type_key_from_str value ≡ some key) ↔ (exercise_type_key_str key ≡ value)
exercise_type_key_from_str_iff value key = (
  exercise_type_key_str-from_str value key,
  λ same. rw (← same) (exercise_type_key_from_str-str key),
)
