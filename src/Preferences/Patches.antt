-- ===== src/Preferences/Patches.antt =====
-- The defaults of the preferences and their patches. Serde writes the two structs as JSON objects,
-- whose fields are merged one by one; a learning focus is replaced as a whole, since none of its
-- fields is left out.
use aprendiendo.Base.{
  ℕ, suc, String, Bool, true, false, not, ◌||◌, Option, none, some, List, [], ◌∷◌, Outcome, ok,
  ◌>>◌, bail_if, any, is_empty, is_some_and, unwrap_or, length, str_eq, ltb, ◌==◌, if◌then◌else◌,
}
use aprendiendo.Model.Formats.{DrillType}
use aprendiendo.Model.Production.{
  PracticeMode, PromptPolicy, WrittenRoundBudget, CorrectionPolicy, LearningFocus, Preferences,
  PromptPolicyPatch, WrittenRoundBudgetPatch, CorrectionPolicyPatch, PreferencePatch,
}

abbrev pub default_focus : LearningFocus
default_focus = record {
  skills = "writing" ∷ "speaking" ∷ [];
  daily_minutes = none;
  exam_practice_percent = 80;
}

abbrev pub defaults : Preferences
defaults = record {
  learning_focus = default_focus;
  default_practice_mode = PracticeMode.mixed;
  excluded_drill_types = [];
  prompt_policy = record {
    allow_required_constructions = true;
    allow_sentence_starters = true;
    allow_model_answer_before_attempt = true;
    prefer_actual_recent_experiences = false;
    one_turn_at_a_time = true;
    adaptive_followups = true;
  };
  written_round_budget = record { minimum = 3; maximum = 5 };
  correction_policy = record {
    after_round = true;
    allow_communication_breakdown_exception = true;
    self_correction_attempts_before_model = 1;
    quote_original_on_hint = true;
    show_original_with_model_correction = true;
  };
}

abbrev pub approved : Preferences
approved = record defaults {
  default_practice_mode = PracticeMode.spontaneous;
  excluded_drill_types =
      DrillType.translation ∷ DrillType.sentence_transformation ∷ DrillType.sentence_completion
      ∷ DrillType.sentence_combining ∷ DrillType.minimal_pair_choice ∷ DrillType.error_correction
      ∷ DrillType.dialogue_completion ∷ [];
  prompt_policy = record {
    allow_required_constructions = false;
    allow_sentence_starters = false;
    allow_model_answer_before_attempt = false;
    prefer_actual_recent_experiences = true;
    one_turn_at_a_time = true;
    adaptive_followups = true;
  };
}

abbrev pub merge_prompt : PromptPolicy → PromptPolicyPatch → PromptPolicy
merge_prompt p q = record {
  allow_required_constructions =
      unwrap_or q.allow_required_constructions p.allow_required_constructions;
  allow_sentence_starters = unwrap_or q.allow_sentence_starters p.allow_sentence_starters;
  allow_model_answer_before_attempt =
      unwrap_or q.allow_model_answer_before_attempt p.allow_model_answer_before_attempt;
  prefer_actual_recent_experiences =
      unwrap_or q.prefer_actual_recent_experiences p.prefer_actual_recent_experiences;
  one_turn_at_a_time = unwrap_or q.one_turn_at_a_time p.one_turn_at_a_time;
  adaptive_followups = unwrap_or q.adaptive_followups p.adaptive_followups;
}

abbrev pub merge_budget : WrittenRoundBudget → WrittenRoundBudgetPatch → WrittenRoundBudget
merge_budget p q = record {
  minimum = unwrap_or q.minimum p.minimum;
  maximum = unwrap_or q.maximum p.maximum;
}

abbrev pub merge_correction : CorrectionPolicy → CorrectionPolicyPatch → CorrectionPolicy
merge_correction p q = record {
  after_round = unwrap_or q.after_round p.after_round;
  allow_communication_breakdown_exception =
      unwrap_or q.allow_communication_breakdown_exception p.allow_communication_breakdown_exception;
  self_correction_attempts_before_model =
      unwrap_or q.self_correction_attempts_before_model p.self_correction_attempts_before_model;
  quote_original_on_hint = unwrap_or q.quote_original_on_hint p.quote_original_on_hint;
  show_original_with_model_correction =
      unwrap_or q.show_original_with_model_correction p.show_original_with_model_correction;
}

-- An object of the patch is merged into the field, where the patch has one.
abbrev pub merge_field : {A B : Type 0} → (A → B → A) → A → Option B → A
merge_field f a none = a
merge_field f a (some b) = f a b

unfoldable pub merge : Preferences → PreferencePatch → Preferences
merge p patch = record {
  learning_focus = unwrap_or patch.learning_focus p.learning_focus;
  default_practice_mode = unwrap_or patch.default_practice_mode p.default_practice_mode;
  excluded_drill_types = unwrap_or patch.excluded_drill_types p.excluded_drill_types;
  prompt_policy = merge_field merge_prompt p.prompt_policy patch.prompt_policy;
  written_round_budget = merge_field merge_budget p.written_round_budget patch.written_round_budget;
  correction_policy = merge_field merge_correction p.correction_policy patch.correction_policy;
}

-- `["writing", "speaking", "reading", "listening"].contains(&s.as_str())`
abbrev pub is_skill : String → Bool
is_skill s =
    str_eq s "writing" || (str_eq s "speaking" || (str_eq s "reading" || str_eq s "listening"))

-- The number of elements of the `HashSet` that a list is collected into.
abbrev pub distinct_count : List String → ℕ
distinct_count [] = 0
distinct_count (s ∷ rest) =
    let others = distinct_count rest in if any (λ r. str_eq r s) rest then others else suc others

pub data PreferenceError : Type 0 where
  invalid_learning_focus invalid_budget too_many_corrections : PreferenceError
  invalid_source version_conflict : PreferenceError

abbrev pub is_bad_focus : LearningFocus → Bool
is_bad_focus f =
    is_empty f.skills
    || (ltb 4 (length f.skills)
        || (any (λ s. not (is_skill s)) f.skills
            || (not (distinct_count f.skills == length f.skills)
                || (is_some_and f.daily_minutes (λ m. m == 0 || ltb 240 m)
                    || ltb 100 f.exam_practice_percent))))

-- The tests of the patched preferences.
unfoldable pub check_preferences : Preferences → Outcome PreferenceError (Unit {0})
check_preferences p = do
  bail_if (is_bad_focus p.learning_focus) PreferenceError.invalid_learning_focus
  bail_if
      (p.written_round_budget.minimum == 0
        || (ltb p.written_round_budget.maximum p.written_round_budget.minimum
            || ltb 50 p.written_round_budget.maximum))
      PreferenceError.invalid_budget
  bail_if (ltb 5 p.correction_policy.self_correction_attempts_before_model)
      PreferenceError.too_many_corrections

unfoldable pub patched : Preferences → PreferencePatch → Outcome PreferenceError Preferences
unfolding merge check_preferences
patched p patch = check_preferences (merge p patch) >> ok (merge p patch)
