-- ===== src/Activities/Defaults.antt =====
-- The tables of src/activities.rs agree with one another.
use aprendiendo.Base.{
  true, false, Option, none, some, ◌≡◌, ◌≢◌, ◌↔◌, refl, ok, is_ok, arith, ◌⊎◌, inl, inr, >>=-eq-ok,
  is_some, or_else,
}
use aprendiendo.Model.Formats.{ActivityType}
use aprendiendo.Model.Requests.{ActivityConfigInput}
use aprendiendo.Activities.Catalog.{ActivitySpec, activity_spec}
use aprendiendo.Activities.Config.{
  ConfigField, accepts, hides_source, validate_config_fields, merged_config, overlay,
}

-- What the defaults of the catalogue set for an activity.
abbrev pub defaults : ActivityType → ActivityConfigInput
defaults t = ActivitySpec.default_config (activity_spec t)

-- Where the field is set, the defaults set it too.
abbrev pub SetIn : {A : Type 0} → Option A → Option A → Type 0
SetIn field default = (field ≡ none) ⊎ (is_some default ≡ true)

-- A configuration fits an activity when it sets no field that the activity's defaults leave out,
-- and, for a dictogloss and for reading, closing and explaining, does not show the source.
abbrev pub Fits : ActivityType → ActivityConfigInput → Type 0
Fits t c =
    SetIn c.preparation_seconds (defaults t).preparation_seconds
    × SetIn c.response_seconds (defaults t).response_seconds
    × SetIn c.question_count (defaults t).question_count
    × SetIn c.exposure_count (defaults t).exposure_count
    × SetIn c.source_hidden_before_response (defaults t).source_hidden_before_response
    × SetIn c.unpredictable_followups (defaults t).unpredictable_followups
    × SetIn c.complication_count (defaults t).complication_count
    × (((t ≢ ActivityType.dictogloss) × (t ≢ ActivityType.read_close_explain))
        ⊎ (c.source_hidden_before_response ≢ some false))

-- The fields that apply to an activity, by the table of the test, are those that its defaults set.
accepts-defaults :
    (t : ActivityType)
    → (accepts t ConfigField.preparation_seconds ≡ is_some (defaults t).preparation_seconds)
      × (accepts t ConfigField.response_seconds ≡ is_some (defaults t).response_seconds)
      × (accepts t ConfigField.question_count ≡ is_some (defaults t).question_count)
      × (accepts t ConfigField.exposure_count ≡ is_some (defaults t).exposure_count)
      × (accepts t ConfigField.source_hidden_before_response
          ≡ is_some (defaults t).source_hidden_before_response)
      × (accepts t ConfigField.unpredictable_followups
          ≡ is_some (defaults t).unpredictable_followups)
      × (accepts t ConfigField.complication_count ≡ is_some (defaults t).complication_count)
unfolding accepts activity_spec
accepts-defaults ActivityType.situational_response = (refl, refl, refl, refl, refl, refl, refl)
accepts-defaults ActivityType.picture_narration = (refl, refl, refl, refl, refl, refl, refl)
accepts-defaults ActivityType.question_answer_sprint = (refl, refl, refl, refl, refl, refl, refl)
accepts-defaults ActivityType.retell_reconstruction = (refl, refl, refl, refl, refl, refl, refl)
accepts-defaults ActivityType.corrective_conversation = (refl, refl, refl, refl, refl, refl, refl)
accepts-defaults ActivityType.sentence_transformation_sprint =
    (refl, refl, refl, refl, refl, refl, refl)
accepts-defaults ActivityType.dictogloss = (refl, refl, refl, refl, refl, refl, refl)
accepts-defaults ActivityType.voice_diary = (refl, refl, refl, refl, refl, refl, refl)
accepts-defaults ActivityType.read_close_explain = (refl, refl, refl, refl, refl, refl, refl)
accepts-defaults ActivityType.role_play_complications = (refl, refl, refl, refl, refl, refl, refl)

hides_source_iff :
    (t : ActivityType)
    → (hides_source t ≡ false)
      ↔ ((t ≢ ActivityType.dictogloss) × (t ≢ ActivityType.read_close_explain))
unfolding hides_source
hides_source_iff ActivityType.situational_response = ground arith
hides_source_iff ActivityType.picture_narration = ground arith
hides_source_iff ActivityType.question_answer_sprint = ground arith
hides_source_iff ActivityType.retell_reconstruction = ground arith
hides_source_iff ActivityType.corrective_conversation = ground arith
hides_source_iff ActivityType.sentence_transformation_sprint = ground arith
hides_source_iff ActivityType.dictogloss = ground arith
hides_source_iff ActivityType.voice_diary = ground arith
hides_source_iff ActivityType.read_close_explain = ground arith
hides_source_iff ActivityType.role_play_complications = ground arith

either {ℓ κ μ} : {A : Type ℓ} {B : Type κ} {C : Type μ} → (A → B) → A ⊎ C → B ⊎ C
either f (inl a) = inl (f a)
either f (inr c) = inr c

-- The test of the fields by its own table.
abbrev Applies : ActivityType → ActivityConfigInput → Type 0
Applies t c =
    ((c.preparation_seconds ≡ none) ⊎ (accepts t ConfigField.preparation_seconds ≡ true))
    × ((c.response_seconds ≡ none) ⊎ (accepts t ConfigField.response_seconds ≡ true))
    × ((c.question_count ≡ none) ⊎ (accepts t ConfigField.question_count ≡ true))
    × ((c.exposure_count ≡ none) ⊎ (accepts t ConfigField.exposure_count ≡ true))
    × ((c.source_hidden_before_response ≡ none)
        ⊎ (accepts t ConfigField.source_hidden_before_response ≡ true))
    × ((c.unpredictable_followups ≡ none) ⊎ (accepts t ConfigField.unpredictable_followups ≡ true))
    × ((c.complication_count ≡ none) ⊎ (accepts t ConfigField.complication_count ≡ true))
    × ((hides_source t ≡ false) ⊎ (c.source_hidden_before_response ≢ some false))

validate_config_fields-Applies :
    (t : ActivityType) (c : ActivityConfigInput)
    → (is_ok (validate_config_fields t c) ≡ true) ↔ Applies t c
unfolding validate_config_fields
validate_config_fields-Applies t c = ground arith

Applies-Fits : (t : ActivityType) (c : ActivityConfigInput) → Applies t c ↔ Fits t c
Applies-Fits t c =
    let (prep, resp, quest, expo, hid, follow, compl) = accepts-defaults t in
    let (shown, hidden) = hides_source_iff t in
    (
      (λ (a : Applies t c).
          rw (← prep, ← resp, ← quest, ← expo, ← hid, ← follow, ← compl)
            (a.0, a.1, a.2, a.3, a.4, a.5, a.6, either shown a.7)),
      (λ (f : Fits t c).
          rw (prep, resp, quest, expo, hid, follow, compl)
            (f.0, f.1, f.2, f.3, f.4, f.5, f.6, either hidden f.7)),
    )

-- A configuration passes the test of its fields exactly when it sets no field that the activity's
-- defaults in the catalogue leave out, and, for a dictogloss and for reading, closing and
-- explaining, does not show the source.
pub validate_config_fields_iff :
    (t : ActivityType) (c : ActivityConfigInput)
    → (is_ok (validate_config_fields t c) ≡ true) ↔ Fits t c
validate_config_fields_iff t c =
    let (applies, passes) = validate_config_fields-Applies t c in
    let (fits, fitted) = Applies-Fits t c in ((λ h. fits (applies h)), (λ f. passes (fitted f)))

-- The defaults of an activity fit it: none of them shows a source.
default_config-Fits : (t : ActivityType) → Fits t (defaults t)
unfolding activity_spec
default_config-Fits ActivityType.situational_response = ground arith
default_config-Fits ActivityType.picture_narration = ground arith
default_config-Fits ActivityType.question_answer_sprint = ground arith
default_config-Fits ActivityType.retell_reconstruction = ground arith
default_config-Fits ActivityType.corrective_conversation = ground arith
default_config-Fits ActivityType.sentence_transformation_sprint = ground arith
default_config-Fits ActivityType.dictogloss = ground arith
default_config-Fits ActivityType.voice_diary = ground arith
default_config-Fits ActivityType.read_close_explain = ground arith
default_config-Fits ActivityType.role_play_complications = ground arith

overlay-Fits :
    (t : ActivityType) (c d : ActivityConfigInput) → Fits t c → Fits t d → Fits t (overlay c d)
overlay-Fits t c d f g = ground arith

-- A field is the caller's where the caller sets it, and the default where not.
abbrev pub Chosen : {A : Type 0} → Option A → Option A → Option A → Type 0
Chosen field asked default =
    ((is_some asked ≡ true) × (field ≡ asked)) ⊎ ((asked ≡ none) × (field ≡ default))

abbrev pub AllChosen :
    ActivityConfigInput → Option ActivityConfigInput → ActivityConfigInput → Type 0
AllChosen c none d = c ≡ d
AllChosen c (some o) d =
    Chosen c.preparation_seconds o.preparation_seconds d.preparation_seconds
    × Chosen c.response_seconds o.response_seconds d.response_seconds
    × Chosen c.question_count o.question_count d.question_count
    × Chosen c.exposure_count o.exposure_count d.exposure_count
    × Chosen c.source_hidden_before_response o.source_hidden_before_response
        d.source_hidden_before_response
    × Chosen c.unpredictable_followups o.unpredictable_followups d.unpredictable_followups
    × Chosen c.complication_count o.complication_count d.complication_count

or_else-Chosen :
    {A : Type 0} (asked default : Option A) → Chosen (or_else asked default) asked default
or_else-Chosen none default = inr (refl, refl)
or_else-Chosen (some a) default = inl (refl, refl)

overlay-AllChosen : (o d : ActivityConfigInput) → AllChosen (overlay o d) (some o) d
overlay-AllChosen o d = (
  or_else-Chosen o.preparation_seconds d.preparation_seconds,
  or_else-Chosen o.response_seconds d.response_seconds,
  or_else-Chosen o.question_count d.question_count,
  or_else-Chosen o.exposure_count d.exposure_count,
  or_else-Chosen o.source_hidden_before_response d.source_hidden_before_response,
  or_else-Chosen o.unpredictable_followups d.unpredictable_followups,
  or_else-Chosen o.complication_count d.complication_count,
)

-- What an activity's configuration becomes, where it is accepted, fits the activity; each field
-- that the caller sets is kept, and each other field is the activity's default.
pub merged_config-Fits :
    (t : ActivityType) (o : Option ActivityConfigInput) (c : ActivityConfigInput)
    → merged_config t o ≡ ok c
    → Fits t c × AllChosen c o (defaults t)
unfolding merged_config
merged_config-Fits t none c h =
    let same : c ≡ defaults t = ground arith in rw same (default_config-Fits t, refl)
merged_config-Fits t (some overrides) c h =
    let (_, valid, rest) = >>=-eq-ok (validate_config_fields t overrides) _ h in
    let same : c ≡ overlay overrides (defaults t) = ground (arith, valid, rest) in
    let fits : Fits t overrides = (validate_config_fields_iff t overrides).0 (rw valid refl) in
    rw same (
      overlay-Fits t overrides (defaults t) fits (default_config-Fits t),
      overlay-AllChosen overrides (defaults t),
    )
