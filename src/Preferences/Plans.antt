-- ===== src/Preferences/Plans.antt =====
-- `validate` of src/production.rs: a plan of turns against the preferences in force. Whether a
-- weakness exists, which the code asks the database, is a parameter. Of the answer, the model has
-- the checks; its other members are constant texts and those of the exam task.
use aprendiendo.Base.{
  ℕ, String, Bool, not, ◌&&◌, ◌||◌, Option, none, List, [], ◌∷◌, ◌++◌, Outcome, ok, err, ◌>>=◌,
  ◌>>◌, bail_if, for_each, try_fold, any, map, has, is_blank, is_empty, is_none, is_some,
  is_some_and, length, str_eq, ltb, ◌==◌, if◌then◌else◌,
}
use aprendiendo.Model.Formats.{DrillType, ExamTask, drill_type_eq}
use aprendiendo.Model.Production.{PracticeMode, Preferences, SessionOverride, TargetOpportunity}
use aprendiendo.Preferences.Patches.{PreferenceError}
use aprendiendo.Preferences.Stored.{PreferenceRow, Resolved, practice_mode_eq, resolve}
use aprendiendo.Production.Prompts.{PromptFinding, prompt_findings}

pub record ProposedTurn : Type 0 where
  pub turn_no : ℕ
  pub prompt : String
  pub drill_type : DrillType
  pub target_weakness_keys : List String
  pub sentence_starter : Option String
  pub model_answer : Option String
  pub topic_tag : Option String

pub record ValidatePlanRequest : Type 0 where
  pub policy_version : ℕ
  pub session_overrides : Option SessionOverride
  pub turns : List ProposedTurn
  pub target_opportunities : List TargetOpportunity
  pub preceding_context : List String
  pub planned_initial_sentences : Option ℕ
  pub exam_task : Option ExamTask

-- The `code` of a check, with the finding of a prompt, and its `turn_no`.
pub data PlanCheck : Type 0 where
  in_prompt : PromptFinding → ℕ → PlanCheck
  excluded_format sentence_starter model_answer_before_attempt repeated_prompt : ℕ → PlanCheck
  impossible_budget : PlanCheck

pub data PlanError : Type 0 where
  in_preferences : PreferenceError → PlanError
  version_conflict too_many_turns invalid_opportunity invalid_turn : PlanError

abbrev pub is_opportunity : List TargetOpportunity → String → Bool
is_opportunity opportunities key =
    any (λ (x : TargetOpportunity). str_eq x.weakness_key key) opportunities

abbrev pub is_spontaneous : Preferences → Bool
is_spontaneous p = practice_mode_eq p.default_practice_mode PracticeMode.spontaneous

-- `if bad { checks.push(…) }`
abbrev pub check_if : Bool → PlanCheck → List PlanCheck
check_if bad check = if bad then check ∷ [] else []

-- `if p.default_practice_mode == PracticeMode::Spontaneous { … }`
unfoldable pub prompt_checks : (List ℕ → List ℕ) → Preferences → ProposedTurn → List PlanCheck
unfolding practice_mode_eq
prompt_checks to_lowercase p t =
    if is_spontaneous p
    then map (λ f. PlanCheck.in_prompt f t.turn_no)
        (prompt_findings to_lowercase t.prompt t.target_weakness_keys)
    else []

-- The checks of one turn.
unfoldable pub turn_checks :
    (List ℕ → List ℕ) → Preferences → List String → ProposedTurn → List PlanCheck
unfolding prompt_checks drill_type_eq
turn_checks to_lowercase p context t =
    prompt_checks to_lowercase p t
    ++ (check_if (any (λ d. drill_type_eq d t.drill_type) p.excluded_drill_types)
          (PlanCheck.excluded_format t.turn_no)
        ++ (check_if (is_some t.sentence_starter && not p.prompt_policy.allow_sentence_starters)
              (PlanCheck.sentence_starter t.turn_no)
            ++ (check_if
                  (is_some t.model_answer && not p.prompt_policy.allow_model_answer_before_attempt)
                  (PlanCheck.model_answer_before_attempt t.turn_no)
                ++ check_if (any (λ s. str_eq s t.prompt) context)
                    (PlanCheck.repeated_prompt t.turn_no))))

-- The body of the loop over the turns: the checks and the numbers so far.
unfoldable pub validate_turn :
    (List ℕ → List ℕ)
    → Preferences
    → ValidatePlanRequest
    → List PlanCheck × List ℕ
    → ProposedTurn
    → Outcome PlanError (List PlanCheck × List ℕ)
unfolding turn_checks
validate_turn to_lowercase p r (checks, numbers) t = do
  bail_if (t.turn_no == 0 || (has t.turn_no numbers || is_blank t.prompt)) PlanError.invalid_turn
  bail_if (any (λ key. not (is_opportunity r.target_opportunities key)) t.target_weakness_keys)
      PlanError.invalid_opportunity
  ok (checks ++ turn_checks to_lowercase p r.preceding_context t, t.turn_no ∷ numbers)

-- The check of the whole plan.
unfoldable pub budget_checks : Preferences → ValidatePlanRequest → List PlanCheck
budget_checks p r =
    check_if
      (is_none r.exam_task
        && is_some_and r.planned_initial_sentences
            (λ n. ltb n p.written_round_budget.minimum || ltb p.written_round_budget.maximum n))
      PlanCheck.impossible_budget

-- An error of `resolve` is passed on.
unfoldable pub policy_of :
    Option PreferenceRow → Option SessionOverride → Outcome PlanError Resolved
policy_of table overrides = elim (resolve table none overrides) [
  | ok resolved ↦ ok resolved
  | err e ↦ err (PlanError.in_preferences e)
]

-- The checks of the answer: the status is `structural_checks_passed` where there are none.
unfoldable pub validate :
    (List ℕ → List ℕ)
    → (String → Bool)
    → Option PreferenceRow
    → ValidatePlanRequest
    → Outcome PlanError (List PlanCheck)
unfolding policy_of validate_turn budget_checks
validate to_lowercase has_weakness table r = do
  policy ← policy_of table r.session_overrides
  bail_if (not (Resolved.preference_version policy == r.policy_version)) PlanError.version_conflict
  bail_if (is_empty r.turns || (ltb 20 (length r.turns) || ltb 20 (length r.preceding_context)))
      PlanError.too_many_turns
  for_each
      (λ (o : TargetOpportunity).
        bail_if (not (has_weakness o.weakness_key)) PlanError.invalid_opportunity)
      r.target_opportunities
  (checks, _) ←
      try_fold (validate_turn to_lowercase (Resolved.effective_preferences policy) r) ([], [])
        r.turns
  ok (checks ++ budget_checks (Resolved.effective_preferences policy) r)
