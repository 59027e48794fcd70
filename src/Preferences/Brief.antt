-- ===== src/Preferences/Brief.antt =====
-- `constrain` of src/production.rs: a request for practice, narrowed to what the preferences permit.
-- Every exam task has constraints in src/audit.rs; their text and the learner's goal, which are only
-- added to the answer, are left out.
use aprendiendo.Base.{
  ℕ, ◌≤◌, ◌≡◌, String, Bool, true, false, not, ◌&&◌, ◌||◌, Option, none, some, List, [], ◌∷◌, ◌++◌,
  Outcome, ok, ◌>>=◌, >>=-eq-ok, any, keep, All, is_empty, is_some_and, unwrap_or, leb,
  if◌then◌else◌, arith, Bool-cases, inl, inr,
}
use aprendiendo.Model.Formats.{
  ActivityType, DrillMix, DrillType, ExamTask, PracticeObjective, drill_type_eq,
}
use aprendiendo.Model.Evidence.{TargetType}
use aprendiendo.Model.Requests.{ActivityConfigInput}
use aprendiendo.Model.Production.{PracticeMode, Preferences, SessionOverride}
use aprendiendo.Preferences.Patches.{PreferenceError}
use aprendiendo.Preferences.Stored.{PreferenceRow, Resolved, resolve}
use aprendiendo.Preferences.Plans.{is_spontaneous}

pub record PracticeBriefRequest : Type 0 where
  pub task_first : Option Bool
  pub practice_mode : Option PracticeMode
  pub session_overrides : Option SessionOverride
  pub count : Option ℕ
  pub objective : Option PracticeObjective
  pub level : Option String
  pub drill_mix : Option DrillMix
  pub allowed_drill_types : Option (List DrillType)
  pub weakness_keys : Option (List String)
  pub categories : Option (List String)
  pub concept_keys : Option (List String)
  pub scheme_keys : Option (List String)
  pub collection_keys : Option (List String)
  pub target_types : Option (List TargetType)
  pub include_upcoming : Option Bool
  pub recent_prompts_per_weakness : Option ℕ
  pub as_of : Option String
  pub activity_type : Option ActivityType
  pub planned_duration_seconds : Option ℕ
  pub activity_config : Option ActivityConfigInput
  pub exam_task : Option ExamTask

abbrev with_task : ℕ → DrillType → PracticeBriefRequest → PracticeBriefRequest
with_task n d r = record r { count = some n; allowed_drill_types = some (d ∷ []) }

-- The assignments under `match task`.
unfoldable pub scope_task : Option ExamTask → PracticeBriefRequest → PracticeBriefRequest
scope_task none r = r
scope_task (some ExamTask.writing_task_1) r = with_task 1 DrillType.micro_story r
scope_task (some ExamTask.writing_task_2) r = with_task 1 DrillType.micro_story r
scope_task (some ExamTask.full_writing) r = with_task 2 DrillType.micro_story r
scope_task (some ExamTask.oral_task_1) r = with_task 1 DrillType.situational_response r
scope_task (some ExamTask.oral_task_2) r = with_task 1 DrillType.situational_response r
scope_task (some ExamTask.oral_task_3) r = with_task 1 DrillType.situational_response r
scope_task (some ExamTask.full_oral) r = with_task 3 DrillType.situational_response r
scope_task (some ExamTask.reading) r = r
scope_task (some ExamTask.listening) r = r

abbrev pub is_spontaneous_drill : DrillType → Bool
is_spontaneous_drill DrillType.situational_response = true
is_spontaneous_drill DrillType.question_answer = true
is_spontaneous_drill DrillType.micro_story = true
is_spontaneous_drill DrillType.retell = true
is_spontaneous_drill _ = false

-- The closure `permitted`.
unfoldable pub permitted : Preferences → DrillType → Bool
permitted p d =
    not (any (λ x. drill_type_eq x d) p.excluded_drill_types)
    && (not (is_spontaneous p) || is_spontaneous_drill d)

abbrev pub is_controlled_mix : DrillMix → Bool
is_controlled_mix DrillMix.translation_only = true
is_controlled_mix DrillMix.recognition_to_production = true
is_controlled_mix DrillMix.fluency = true
is_controlled_mix _ = false

abbrev pub is_spontaneous_activity : ActivityType → Bool
is_spontaneous_activity ActivityType.situational_response = true
is_spontaneous_activity ActivityType.picture_narration = true
is_spontaneous_activity ActivityType.role_play_complications = true
is_spontaneous_activity ActivityType.question_answer_sprint = true
is_spontaneous_activity ActivityType.voice_diary = true
is_spontaneous_activity ActivityType.corrective_conversation = true
is_spontaneous_activity _ = false

-- The entries of `conflicts`.
pub data PolicyConflict : Type 0 where
  practice_mode excluded_format drill_mix controlled_activity : PolicyConflict

abbrev conflict_if : Bool → PolicyConflict → List PolicyConflict
conflict_if test c = if test then c ∷ [] else []

unfoldable pub conflicts_of : Resolved → PracticeBriefRequest → List PolicyConflict
unfolding permitted
conflicts_of policy r =
    let p = policy.effective_preferences in
    conflict_if policy.has_mode_conflict PolicyConflict.practice_mode
    ++ (conflict_if (is_some_and r.allowed_drill_types (λ ds. any (λ d. not (permitted p d)) ds))
          PolicyConflict.excluded_format
        ++ (conflict_if (is_spontaneous p && is_some_and r.drill_mix is_controlled_mix)
              PolicyConflict.drill_mix
            ++ conflict_if
                (is_spontaneous p
                  && is_some_and r.activity_type (λ a. not (is_spontaneous_activity a)))
                PolicyConflict.controlled_activity))

-- `all`
abbrev pub all_drills : List DrillType
all_drills =
    DrillType.translation ∷ DrillType.situational_response ∷ DrillType.sentence_transformation
    ∷ DrillType.question_answer ∷ DrillType.sentence_completion ∷ DrillType.sentence_combining
    ∷ DrillType.error_correction ∷ DrillType.minimal_pair_choice ∷ DrillType.dialogue_completion
    ∷ DrillType.micro_story ∷ DrillType.retell ∷ DrillType.fluency_4_3_2 ∷ []

-- The last two assignments.
unfoldable pub restrict : Preferences → PracticeBriefRequest → PracticeBriefRequest
unfolding permitted
restrict p r = record r {
  allowed_drill_types =
      if is_spontaneous p || not (is_empty p.excluded_drill_types)
      then some (keep (permitted p) (unwrap_or r.allowed_drill_types all_drills))
      else r.allowed_drill_types;
  count =
      if is_spontaneous p
      then some (
          let wanted = unwrap_or r.count 3 in
          if leb wanted p.written_round_budget.maximum
          then wanted
          else p.written_round_budget.maximum)
      else r.count;
}

-- The request as it is left, the policy and its conflicts.
pub record Constrained : Type 0 where
  pub request : PracticeBriefRequest
  pub policy : Resolved
  pub conflicts : List PolicyConflict

unfoldable pub constrain :
    Option PreferenceRow → PracticeBriefRequest → Outcome PreferenceError Constrained
unfolding scope_task conflicts_of restrict
constrain table r = do
  policy ← resolve table r.practice_mode r.session_overrides
  ok (record {
    request = restrict (Resolved.effective_preferences policy) (scope_task r.exam_task r);
    policy = policy;
    conflicts = conflicts_of policy (scope_task r.exam_task r);
  })

keep-All : {A : Type 0} (p : A → Bool) (xs : List A) → All (λ x. p x ≡ true) (keep p xs)
keep-All p [] = tt
keep-All p (x ∷ xs) = elim (Bool-cases (p x)) [
  | inl kept ↦
      let same : keep p (x ∷ xs) ≡ x ∷ keep p xs = ground (arith, kept) in
      rw same (kept, keep-All p xs)
  | inr dropped ↦
      let same : keep p (x ∷ xs) ≡ keep p xs = ground (arith, dropped) in rw same (keep-All p xs)
]

-- Where the preferences in force are of spontaneous production, a constrained request names its
-- formats, each of which they permit, and a number of prompts within the budget of a round; this
-- holds with an exam task too.
pub constrain-permitted :
    (table : Option PreferenceRow) (r : PracticeBriefRequest) (c : Constrained)
    → constrain table r ≡ ok c
    → is_spontaneous c.policy.effective_preferences ≡ true
    → (drills : List DrillType) × (n : ℕ) × (c.request.allowed_drill_types ≡ some drills)
      × All (λ d. permitted c.policy.effective_preferences d ≡ true) drills
      × (c.request.count ≡ some n)
      × (n ≤ c.policy.effective_preferences.written_round_budget.maximum)
unfolding constrain restrict
constrain-permitted table r c h spontaneous =
    let (policy, _, last) = >>=-eq-ok (resolve table r.practice_mode r.session_overrides) _ h in
    let p = policy.effective_preferences in
    let scoped = scope_task r.exam_task r in
    let wanted = unwrap_or scoped.count 3 in
    let same : c ≡ record {
      request = restrict p scoped;
      policy = policy;
      conflicts = conflicts_of policy scoped;
    } =
      ground (arith, last) in
    let spontaneous' : is_spontaneous p ≡ true = ground (arith, same, spontaneous) in
    rw same (
      keep (permitted p) (unwrap_or scoped.allowed_drill_types all_drills),
      (if leb wanted p.written_round_budget.maximum
          then wanted
          else p.written_round_budget.maximum),
      ground (arith, spontaneous'),
      keep-All (permitted p) (unwrap_or scoped.allowed_drill_types all_drills),
      ground (arith, spontaneous'),
      ground arith,
    )
