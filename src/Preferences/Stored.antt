-- ===== src/Preferences/Stored.antt =====
-- The row of the table `practice_preferences`, and `get`, `update`, `seed` and `resolve` on it.
use aprendiendo.Base.{
  ℕ, ◌+◌, String, Bool, not, ◌||◌, Option, none, some, Outcome, ok, err, ◌>>=◌, ◌>>◌, bail_if,
  is_some_and, is_blank, len, ltb, ◌==◌, if◌then◌else◌,
}
use aprendiendo.Model.Production.{PracticeMode, Preferences, PreferencePatch, SessionOverride}
use aprendiendo.Preferences.Patches.{PreferenceError, defaults, approved, patched}

pub record PreferenceRow : Type 0 where
  pub version : ℕ
  pub preferences : Preferences
  pub updated_at : String
  pub source : String

pub record UpdatePreferencesRequest : Type 0 where
  pub patch : PreferencePatch
  pub expected_version : ℕ
  pub source : String

-- The members `version` and `preferences` of what `get` returns.
abbrev pub version_of : Option PreferenceRow → ℕ
version_of none = 0
version_of (some row) = row.version

abbrev pub preferences_of : Option PreferenceRow → Preferences
preferences_of none = defaults
preferences_of (some row) = row.preferences

-- `source.trim().is_empty() || source.len() > 1000`
abbrev pub is_bad_source : String → Bool
is_bad_source source = is_blank source || ltb 1000 (len source)

-- What `update` computes from the row that it reads.
unfoldable pub prepare :
    Option PreferenceRow → UpdatePreferencesRequest → Outcome PreferenceError Preferences
prepare read x = do
  bail_if (is_bad_source x.source) PreferenceError.invalid_source
  bail_if (not (version_of read == x.expected_version)) PreferenceError.version_conflict
  patched (preferences_of read) x.patch

-- The statement: an insertion, which on a conflict is an update of a row with the expected
-- version. It gives the row that was written, none where no row was changed.
unfoldable pub upsert : Option PreferenceRow → ℕ → PreferenceRow → Option PreferenceRow
upsert none expected row = some row
upsert (some old) expected row = if old.version == expected then some row else none

-- `update`, which reads the table as `read` and writes to it as `found`: between the two statements
-- another process may write. It gives the row that it wrote at the time `now`.
unfoldable pub update :
    Option PreferenceRow
    → Option PreferenceRow
    → UpdatePreferencesRequest
    → String
    → Outcome PreferenceError PreferenceRow
unfolding prepare upsert
update read found x now = do
  p ← prepare read x
  elim (upsert found x.expected_version (record {
    version = x.expected_version + 1;
    preferences = p;
    updated_at = now;
    source = x.source;
  })) [ none ↦ err PreferenceError.version_conflict | some row ↦ ok row ]

-- `approved` as a patch.
abbrev pub approved_patch : PreferencePatch
approved_patch = record {
  learning_focus = some approved.learning_focus;
  default_practice_mode = some approved.default_practice_mode;
  excluded_drill_types = some approved.excluded_drill_types;
  prompt_policy = some (record {
    allow_required_constructions = some approved.prompt_policy.allow_required_constructions;
    allow_sentence_starters = some approved.prompt_policy.allow_sentence_starters;
    allow_model_answer_before_attempt =
        some approved.prompt_policy.allow_model_answer_before_attempt;
    prefer_actual_recent_experiences = some approved.prompt_policy.prefer_actual_recent_experiences;
    one_turn_at_a_time = some approved.prompt_policy.one_turn_at_a_time;
    adaptive_followups = some approved.prompt_policy.adaptive_followups;
  });
  written_round_budget = some (record {
    minimum = some approved.written_round_budget.minimum;
    maximum = some approved.written_round_budget.maximum;
  });
  correction_policy = some (record {
    after_round = some approved.correction_policy.after_round;
    allow_communication_breakdown_exception =
        some approved.correction_policy.allow_communication_breakdown_exception;
    self_correction_attempts_before_model =
        some approved.correction_policy.self_correction_attempts_before_model;
    quote_original_on_hint = some approved.correction_policy.quote_original_on_hint;
    show_original_with_model_correction =
        some approved.correction_policy.show_original_with_model_correction;
  });
}

abbrev pub seed_request : UpdatePreferencesRequest
seed_request = record {
  patch = approved_patch;
  expected_version = 0;
  source = "Learner-approved SPONTANEOUS_PRODUCTION.md, 2026-09-06; explicit deployment seed";
}

-- The row that `seed` leaves.
unfoldable pub seed : Option PreferenceRow → String → Outcome PreferenceError (Option PreferenceRow)
unfolding update
seed table now =
    if not (version_of table == 0)
    then ok table
    else update table table seed_request now >>= λ row. ok (some row)

unfoldable pub practice_mode_index : PracticeMode → ℕ
practice_mode_index PracticeMode.spontaneous = 0
practice_mode_index PracticeMode.controlled = 1
practice_mode_index PracticeMode.mixed = 2

unfoldable pub practice_mode_eq : PracticeMode → PracticeMode → Bool
unfolding practice_mode_index
practice_mode_eq a b = practice_mode_index a == practice_mode_index b

-- The object that `resolve` returns; `conflicts` has one entry or none.
pub record Resolved : Type 0 where
  pub effective_preferences : Preferences
  pub preference_version : ℕ
  pub session_overrides : Option SessionOverride
  pub has_mode_conflict : Bool

-- The preferences with the override of the session.
unfoldable pub overridden :
    Preferences → Option SessionOverride → Outcome PreferenceError Preferences
overridden p none = ok p
overridden p (some o) = do
  bail_if (is_bad_source (SessionOverride.source o)) PreferenceError.invalid_source
  patched p (SessionOverride.patch o)

unfoldable pub resolve :
    Option PreferenceRow
    → Option PracticeMode
    → Option SessionOverride
    → Outcome PreferenceError Resolved
unfolding overridden practice_mode_eq
resolve table mode over = do
  p ← overridden (preferences_of table) over
  ok (record {
    effective_preferences = p;
    preference_version = version_of table;
    session_overrides = over;
    has_mode_conflict =
        is_some_and mode (λ m. not (practice_mode_eq m (Preferences.default_practice_mode p)));
  })
