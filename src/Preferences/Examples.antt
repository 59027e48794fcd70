-- ===== src/Preferences/Examples.antt =====
-- The seed, and an update by a process that read the table before it.
use aprendiendo.Base.{
  true, false, ℕ, ◌≤◌, length, All, str_eq, ◌+◌, ◌≡◌, refl, none, some, [], ◌∷◌, ok, err, is_blank,
  is_whitespace, List,
}
use aprendiendo.Model.Production.{PracticeMode}
use aprendiendo.Preferences.Patches.{PreferenceError, approved, merge, check_preferences, patched}
use aprendiendo.Preferences.Stored.{
  PreferenceRow, UpdatePreferencesRequest, seed_request, prepare, upsert, update, seed, Resolved,
  resolve, overridden, practice_mode_eq, practice_mode_index,
}
use aprendiendo.Preferences.Plans.{
  is_spontaneous, ValidatePlanRequest, prompt_checks, turn_checks, validate_turn, budget_checks,
  policy_of, validate,
}
use aprendiendo.Preferences.Brief.{
  PracticeBriefRequest, Constrained, PolicyConflict, scope_task, permitted, conflicts_of, restrict,
  constrain, constrain-permitted,
}
use aprendiendo.Preferences.Conforming.{Conforms, validate-Conforms}
use aprendiendo.Production.Prompts.{prompt_findings}
use aprendiendo.Model.Formats.{DrillType, drill_type_eq, drill_type_index}
use aprendiendo.Preferences.Concurrent.{Earlier, History, IsValid, update-serial, History-IsValid}

abbrev seeded : PreferenceRow
seeded = record {
  version = 1;
  preferences = approved;
  updated_at = "t";
  source = seed_request.source;
}

abbrev controlled : UpdatePreferencesRequest
controlled = record {
  patch = record {
    learning_focus = none;
    default_practice_mode = some PracticeMode.controlled;
    excluded_drill_types = none;
    prompt_policy = none;
    written_round_budget = none;
    correction_policy = none;
  };
  expected_version = 1;
  source = "asked for";
}

abbrev second : PreferenceRow
second = record {
  version = 2;
  preferences = record approved { default_practice_mode = PracticeMode.controlled };
  updated_at = "u";
  source = "asked for";
}

writes_seed : seed none "t" ≡ ok (some seeded)
unfolding seed update prepare upsert patched merge check_preferences is_blank is_whitespace
writes_seed = refl

writes_first : update none none seed_request "t" ≡ ok seeded
unfolding update prepare upsert patched merge check_preferences is_blank is_whitespace
writes_first = refl

writes_second : update (some seeded) (some seeded) controlled "u" ≡ ok second
unfolding update prepare upsert patched merge check_preferences is_blank is_whitespace
writes_second = refl

-- A process that read the table before the seed does not overwrite it.
refuses_stale : update none (some seeded) seed_request "v" ≡ err PreferenceError.version_conflict
unfolding update prepare upsert patched merge check_preferences is_blank is_whitespace
refuses_stale = refl

abbrev seed_history : History (seeded ∷ [])
seed_history = History.written [] seed_request "t" seeded History.nothing Earlier.now writes_first

update-serial_example :
    (patched approved controlled.patch ≡ ok second.preferences) × (second.version ≡ 1 + 1)
update-serial_example =
    update-serial (seeded ∷ []) (seeded ∷ []) controlled "u" second seed_history Earlier.now
      writes_second

History-IsValid_example : IsValid approved
History-IsValid_example = History-IsValid (seeded ∷ []) seed_history

abbrev same_letters : List ℕ → List ℕ
same_letters cs = cs

abbrev plan : ValidatePlanRequest
plan = record {
  policy_version = 1;
  session_overrides = none;
  turns =
      record {
        turn_no = 1;
        prompt = "Tell me about yesterday";
        drill_type = DrillType.micro_story;
        target_weakness_keys = "ser-estar" ∷ [];
        sentence_starter = none;
        model_answer = none;
        topic_tag = none;
      }
      ∷ [];
  target_opportunities =
      record { weakness_key = "ser-estar"; communicative_function = "telling" } ∷ [];
  preceding_context = [];
  planned_initial_sentences = some 4;
  exam_task = none;
}

passes_plan : validate same_letters (λ key. str_eq key "ser-estar") (some seeded) plan ≡ ok []
unfolding validate policy_of resolve overridden validate_turn turn_checks prompt_checks
    prompt_findings budget_checks practice_mode_eq practice_mode_index drill_type_eq
    drill_type_index is_blank is_whitespace
passes_plan = refl

validate-Conforms_example :
    (policy : Resolved) × (resolve (some seeded) none none ≡ ok policy)
    × (policy.preference_version ≡ 1)
    × (1 ≤ length plan.turns)
    × (length plan.turns ≤ 20)
    × All (Conforms same_letters policy.effective_preferences plan) plan.turns
validate-Conforms_example =
    validate-Conforms same_letters (λ key. str_eq key "ser-estar") (some seeded) plan passes_plan

abbrev brief : PracticeBriefRequest
brief = record {
  task_first = none;
  practice_mode = none;
  session_overrides = none;
  count = some 9;
  objective = none;
  level = none;
  drill_mix = none;
  allowed_drill_types = some (DrillType.translation ∷ DrillType.retell ∷ []);
  weakness_keys = none;
  categories = none;
  concept_keys = none;
  scheme_keys = none;
  collection_keys = none;
  target_types = none;
  include_upcoming = none;
  recent_prompts_per_weakness = none;
  as_of = none;
  activity_type = none;
  planned_duration_seconds = none;
  activity_config = none;
  exam_task = none;
}

abbrev constrained : Constrained
constrained = record {
  request = record brief { count = some 5; allowed_drill_types = some (DrillType.retell ∷ []) };
  policy = record {
    effective_preferences = approved;
    preference_version = 1;
    session_overrides = none;
    has_mode_conflict = false;
  };
  conflicts = PolicyConflict.excluded_format ∷ [];
}

narrows_brief : constrain (some seeded) brief ≡ ok constrained
unfolding constrain scope_task conflicts_of restrict permitted resolve overridden practice_mode_eq
    practice_mode_index drill_type_eq drill_type_index
narrows_brief = refl

spontaneous_approved : is_spontaneous approved ≡ true
unfolding practice_mode_eq practice_mode_index
spontaneous_approved = refl

constrain-permitted_example :
    (drills : List DrillType) × (n : ℕ) × (constrained.request.allowed_drill_types ≡ some drills)
    × All (λ d. permitted approved d ≡ true) drills
    × (constrained.request.count ≡ some n)
    × (n ≤ 5)
constrain-permitted_example =
    constrain-permitted (some seeded) brief constrained narrows_brief spontaneous_approved
