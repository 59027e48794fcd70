-- ===== src/Preferences/Concurrent.antt =====
-- Updates of the preferences by several processes: each is applied to what the last one wrote.
use aprendiendo.Base.{
  ◌+◌, ◌≤◌, ◌<◌, ◌≡◌, ◌⊎◌, inl, inr, refl, ap, String, false, not, Option, none, some, List, [],
  ◌∷◌, ok, bail_if, >>=-eq-ok, is_empty, length, ◌==◌, arith, Option-cases,
}
use aprendiendo.Model.Production.{Preferences, PreferencePatch}
use aprendiendo.Preferences.Patches.{
  PreferenceError, is_bad_focus, check_preferences, merge, patched,
}
use aprendiendo.Preferences.Stored.{
  PreferenceRow, UpdatePreferencesRequest, version_of, preferences_of, is_bad_source, prepare,
  upsert, update,
}

-- The table, given all rows that were ever written to it, the latest first.
abbrev pub table : List PreferenceRow → Option PreferenceRow
table [] = none
table (row ∷ _) = some row

-- The rows at some time before.
pub data Earlier (old : List PreferenceRow) : List PreferenceRow → Type 0 where
  now : Earlier old old
  extended :
      {row : PreferenceRow} {rows : List PreferenceRow}
      → Earlier old rows
      → Earlier old (row ∷ rows)

-- What processes write that update the table, each after it read the table at some earlier time.
pub data History : List PreferenceRow → Type 0 where
  nothing : History []
  written :
      {rows : List PreferenceRow} (old : List PreferenceRow) (x : UpdatePreferencesRequest)
      (time : String) (row : PreferenceRow)
      → History rows
      → Earlier old rows
      → update (table old) (table rows) x time ≡ ok row
      → History (row ∷ rows)

-- What an update that succeeds has found and written.
pub record Written (read found : Option PreferenceRow) (x : UpdatePreferencesRequest)
    (row : PreferenceRow) : Type 0 where
  pub version : row.version ≡ x.expected_version + 1
  pub same_read : version_of read ≡ x.expected_version
  pub same_found : (found ≡ none) ⊎ (version_of found ≡ x.expected_version)
  pub applied : patched (preferences_of read) x.patch ≡ ok row.preferences

update-Written :
    (read found : Option PreferenceRow) (x : UpdatePreferencesRequest) (time : String)
    (row : PreferenceRow)
    → update read found x time ≡ ok row
    → Written read found x row
unfolding update prepare upsert
update-Written read found x time row h =
    let (p, prepared, h1) = >>=-eq-ok (prepare read x) _ h in
    let (_, sourced, h2) =
      >>=-eq-ok (bail_if (is_bad_source x.source) PreferenceError.invalid_source) _ prepared in
    let (_, expected, applied) =
      >>=-eq-ok
        (bail_if (not (version_of read == x.expected_version)) PreferenceError.version_conflict) _
        h2 in
    let row_of : upsert found x.expected_version (record {
      version = x.expected_version + 1;
      preferences = p;
      updated_at = time;
      source = x.source;
    })
        ≡ some row =
      ground (arith, h1) in
    let fields : row ≡ record {
      version = x.expected_version + 1;
      preferences = p;
      updated_at = time;
      source = x.source;
    } =
      ground (arith, row_of) in
    record {
      version = ap (λ (r : PreferenceRow). r.version) fields;
      same_read = ground (arith, expected);
      same_found = elim (Option-cases found) [
        | inl none' ↦ inl none'
        | inr (old, some') ↦ inr (ground (arith, some', row_of))
      ];
      applied = rw fields applied;
    }

Earlier-nothing : (old : List PreferenceRow) → Earlier old [] → version_of (table old) ≡ 0
Earlier-nothing old Earlier.now = refl

-- A row that is written has the version after that of the row before it.
Written-next :
    (old rows : List PreferenceRow) (x : UpdatePreferencesRequest) (row : PreferenceRow)
    → Earlier old rows
    → Written (table old) (table rows) x row
    → row.version ≡ version_of (table rows) + 1
Written-next old [] x row earlier w =
    ground (arith, w.version, w.same_read, Earlier-nothing old earlier)
Written-next old (r ∷ rows) x row earlier w = elim w.same_found [
  | inl none' ↦ absurd (cc)
  | inr same ↦ omega (arith, w.version, same)
]

-- An earlier table has a smaller version, or is the same.
Earlier-version :
    (old rows : List PreferenceRow)
    → History rows
    → Earlier old rows
    → (old ≡ rows) ⊎ (version_of (table old) < version_of (table rows))
Earlier-version old rows history Earlier.now = inl refl
Earlier-version old (row ∷ rows) (History.written read x time _ history earlier updated)
      (Earlier.extended sooner) =
    let next =
      Written-next read rows x row earlier
        (update-Written (table read) (table rows) x time row updated) in
    elim (Earlier-version old rows history sooner) [
      | inl same ↦ inr (rw same (omega (arith, next)))
      | inr less ↦ inr (omega (arith, next, less))
    ]

-- Of updates by several processes, each of which may have read the table at any earlier time, one
-- that succeeds has applied its patch to the preferences that the table held when it wrote, and has
-- raised their version by one: no update is lost.
pub update-serial :
    (rows old : List PreferenceRow) (x : UpdatePreferencesRequest) (time : String)
    (row : PreferenceRow)
    → History rows
    → Earlier old rows
    → update (table old) (table rows) x time ≡ ok row
    → (patched (preferences_of (table rows)) x.patch ≡ ok row.preferences)
      × (row.version ≡ version_of (table rows) + 1)
update-serial rows old x time row history earlier h =
    let w = update-Written (table old) (table rows) x time row h in
    let next = Written-next old rows x row earlier w in
    elim (Earlier-version old rows history earlier) [
      | inl same ↦ (rw (← same) w.applied, next)
      | inr less ↦ absurd (omega (arith, less, next, w.version, w.same_read))
    ]

-- What the preferences in use obey.
pub record IsValid (p : Preferences) : Type 0 where
  pub minimum : 1 ≤ p.written_round_budget.minimum
  pub ordered : p.written_round_budget.minimum ≤ p.written_round_budget.maximum
  pub maximum : p.written_round_budget.maximum ≤ 50
  pub corrections : p.correction_policy.self_correction_attempts_before_model ≤ 5
  pub skills : (1 ≤ length p.learning_focus.skills) × (length p.learning_focus.skills ≤ 4)
  pub percent : p.learning_focus.exam_practice_percent ≤ 100

is_empty-length : (xs : List String) → is_empty xs ≡ false → 1 ≤ length xs
is_empty-length [] h = absurd (cc)
is_empty-length (x ∷ xs) h = omega arith

patched-IsValid : (p q : Preferences) (patch : PreferencePatch) → patched p patch ≡ ok q → IsValid q
unfolding patched check_preferences
patched-IsValid p q patch h =
    let (_, checked, last) = >>=-eq-ok (check_preferences (merge p patch)) _ h in
    let (_, focused, h1) =
      >>=-eq-ok
        (bail_if (is_bad_focus (merge p patch).learning_focus)
          PreferenceError.invalid_learning_focus)
        _ checked in
    let same : q ≡ merge p patch = ground (arith, last) in
    rw same (record {
      minimum = ground (arith, h1);
      ordered = ground (arith, h1);
      maximum = ground (arith, h1);
      corrections = ground (arith, h1);
      skills = (
        is_empty-length (merge p patch).learning_focus.skills (ground (arith, focused)),
        ground (arith, focused),
      );
      percent = ground (arith, focused);
    })

-- Whatever processes update the table, the preferences that it holds, or the defaults before the
-- first update, have a budget of 1 to 50 sentences in order, at most five self-corrections, one to
-- four skills and a share of at most 100 percent.
pub History-IsValid :
    (rows : List PreferenceRow) → History rows → IsValid (preferences_of (table rows))
History-IsValid [] History.nothing = record {
  minimum = omega arith;
  ordered = omega arith;
  maximum = omega arith;
  corrections = omega arith;
  skills = (omega arith, omega arith);
  percent = omega arith;
}
History-IsValid (row ∷ rows) (History.written old x time _ history earlier updated) =
    patched-IsValid (preferences_of (table old)) row.preferences x.patch
      (update-Written (table old) (table rows) x time row updated).applied
