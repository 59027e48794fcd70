-- ===== src/Model/Examples.antt =====
-- One name of an exercise type, read and written.
use aprendiendo.Base.{some, ◌≡◌, ◌↔◌}
use aprendiendo.Model.Formats.{ExerciseTypeKey, exercise_type_key_str}
use aprendiendo.Model.Keys.{exercise_type_key_from_str, exercise_type_key_from_str_iff}

exercise_type_key_from_str-iff_example :
    (exercise_type_key_from_str "guided_conversation" ≡ some ExerciseTypeKey.guided_conversation)
    ↔ (exercise_type_key_str ExerciseTypeKey.guided_conversation ≡ "guided_conversation")
exercise_type_key_from_str-iff_example =
    exercise_type_key_from_str_iff "guided_conversation" ExerciseTypeKey.guided_conversation
