-- ===== src/Production/Reviews.antt =====
-- `review_decision` of src/production.rs: whether the observations of a session support a review
-- of one weakness. `Vec::push` adds at the end; the set of scenarios is a list without repetition.
use aprendiendo.Base.{
  ℕ, String, Bool, true, false, not, ◌&&◌, ◌||◌, Option, none, some, List, [], ◌∷◌, ◌++◌, any, all,
  find, keep, flat_map, is_empty, is_none, is_some_and, str_eq, ltb, leb, ◌==◌, has, length,
  is_blank, if◌then◌else◌,
}
use aprendiendo.Model.Evidence.{
  HintLevel, LearnerEffort, AssessmentPhase, FsrsRating, hint_level_eq, fsrs_rating_eq,
}
use aprendiendo.Model.Requests.{ObservationInput, AttemptInput, PracticeItemInput, ReviewInput}
use aprendiendo.Model.Session.{RecordPracticeSessionRequest}
use aprendiendo.Model.Production.{
  TargetRealization, TargetAccuracy, AttemptEvidence, ObservationEvidence, VariationAssessment,
  ProductionEvidence,
}
use aprendiendo.Production.Reasons.{ReasonCode, sort_reasons, dedup_reasons, push_if, is_blocking}
use aprendiendo.Production.Classes.{
  AttemptClass, ClassFinding, attempt_class, is_self_correction, has_key,
}

pub record ReviewDecision : Type 0 where
  pub weakness_key : String
  pub eligible : Bool
  pub reason_codes : List ReasonCode
  pub supporting_observation_nos : List ℕ
  pub excluded_observation_nos : List ℕ
  pub policy_version : ℕ
  pub applied_rating : Option String

-- `observations`: those of the session, of its items and of its attempts.
unfoldable pub observations : RecordPracticeSessionRequest → List ObservationInput
observations r =
    r.observations
    ++ (flat_map (λ (i : PracticeItemInput). i.observations) r.items
        ++ flat_map (λ (a : AttemptInput). a.observations) r.attempts)

-- What the loop over the observations changes.
pub record Tally : Type 0 where
  pub reason_codes : List ReasonCode
  pub supporting : List ℕ
  pub excluded : List ℕ
  pub failure : Bool
  pub scenarios : List String

-- `matches!(o.target_realization, NotObserved | Ambiguous)`
abbrev pub is_unobserved : TargetRealization → Bool
is_unobserved TargetRealization.not_observed = true
is_unobserved TargetRealization.ambiguous = true
is_unobserved _ = false

-- `matches!(o.target_accuracy, Incorrect | PartiallyCorrect)`
abbrev pub is_failure : TargetAccuracy → Bool
is_failure TargetAccuracy.incorrect = true
is_failure TargetAccuracy.partially_correct = true
is_failure _ = false

abbrev pub is_not_assessable : TargetAccuracy → Bool
is_not_assessable TargetAccuracy.not_assessable = true
is_not_assessable _ = false

-- `matches!(actual.assessment_phase, Some(ColdRetrieval | Transfer))`
abbrev pub is_independent_phase : Option AssessmentPhase → Bool
is_independent_phase (some AssessmentPhase.cold_retrieval) = true
is_independent_phase (some AssessmentPhase.transfer) = true
is_independent_phase _ = false

abbrev pub is_unknown_class : AttemptClass → Bool
is_unknown_class AttemptClass.unknown = true
is_unknown_class _ = false

abbrev pub is_independent_class : AttemptClass → Bool
is_independent_class AttemptClass.independent = true
is_independent_class _ = false

-- The `if` chain that finds why an observation is not independent evidence.
unfoldable pub exclusion :
    ObservationEvidence
    → AttemptEvidence
    → ObservationInput
    → AttemptClass × List ClassFinding
    → Option ReasonCode
exclusion o a actual judged =
    if is_unobserved o.target_realization
    then some ReasonCode.target_not_observed
    else if not (is_empty judged.1)
    then some ReasonCode.prompt_supplied_target
    else if is_self_correction a.attempt_kind
    then some ReasonCode.assisted_retry
    else if is_unknown_class judged.0 || is_none actual.hint_level
    then some ReasonCode.unknown_assistance
    else if not (is_independent_class judged.0)
        || not (is_some_and actual.hint_level (λ h. hint_level_eq h HintLevel.none))
    then some ReasonCode.assisted_or_cued
    else if not (is_independent_phase actual.assessment_phase)
    then some ReasonCode.not_independent_assessment_phase
    else if is_not_assessable o.target_accuracy
    then some ReasonCode.insufficient_rating_evidence
    else none

-- `scenarios.insert(tag)`
abbrev pub insert_tag : String → List String → List String
insert_tag tag tags = if has_key tag tags then tags else tag ∷ tags

-- An observation that counts, cited or not.
unfoldable pub count_observation : Bool → String → ObservationEvidence → Tally → Tally
count_observation cited tag o t = record {
  reason_codes =
      push_if (is_failure o.target_accuracy && not cited) ReasonCode.independent_failure_not_cited
        t.reason_codes;
  supporting = if cited then t.supporting ++ o.observation_no ∷ [] else t.supporting;
  excluded = t.excluded;
  failure = t.failure || is_failure o.target_accuracy;
  scenarios = if cited then insert_tag tag t.scenarios else t.scenarios;
}

-- An observation that is excluded; it is reported if the review cites it.
unfoldable pub exclude_observation : Bool → ReasonCode → ObservationEvidence → Tally → Tally
exclude_observation cited reason o t = record t {
  reason_codes = push_if cited reason t.reason_codes;
  excluded = if cited then t.excluded ++ o.observation_no ∷ [] else t.excluded;
}

abbrev pub find_evidence : ℕ → List AttemptEvidence → Option AttemptEvidence
find_evidence n attempts = find (λ (a : AttemptEvidence). a.attempt_no == n) attempts

abbrev pub find_observation : ℕ → List ObservationInput → Option ObservationInput
find_observation n obs = find (λ (v : ObservationInput). v.observation_no == n) obs

-- The test of the loop's `filter`.
abbrev pub is_about : String → List ObservationInput → ObservationEvidence → Bool
is_about key obs o =
    any
      (λ (v : ObservationInput). v.observation_no == o.observation_no && str_eq v.weakness_key key)
      obs

-- The body of the loop.
unfoldable pub tally_one :
    (List ℕ → List ℕ)
    → RecordPracticeSessionRequest
    → ProductionEvidence
    → ReviewInput
    → Tally
    → ObservationEvidence
    → Tally
unfolding count_observation exclude_observation
tally_one to_lowercase r e review t o = elim (find_evidence o.attempt_no e.attempts) [
  | none ↦ record t {
    reason_codes = push_if true ReasonCode.invalid_attempt_reference t.reason_codes;
  }
  | some a ↦ elim (find_observation o.observation_no (observations r)) [
    | none ↦ record t {
      reason_codes = push_if true ReasonCode.invalid_observation_reference t.reason_codes;
    }
    | some actual ↦
        let cited = has o.observation_no review.evidence_observation_nos in
        elim (exclusion o a actual (attempt_class to_lowercase r e a)) [
          | none ↦ count_observation cited a.scenario_tag o t
          | some reason ↦ exclude_observation cited reason o t
        ]
  ]
]

abbrev pub tally :
    (List ℕ → List ℕ)
    → RecordPracticeSessionRequest
    → ProductionEvidence
    → ReviewInput
    → Tally
    → List ObservationEvidence
    → Tally
tally to_lowercase r e review t [] = t
tally to_lowercase r e review t (o ∷ os) =
    tally to_lowercase r e review (tally_one to_lowercase r e review t o) os

abbrev pub empty_tally : Tally
empty_tally = record {
  reason_codes = [];
  supporting = [];
  excluded = [];
  failure = false;
  scenarios = [];
}

-- `o.learner_effort.is_none() || o.learner_effort == Some(Unknown)`
abbrev pub lacks_effort : Option LearnerEffort → Bool
lacks_effort none = true
lacks_effort (some LearnerEffort.unknown) = true
lacks_effort _ = false

-- `rationale.is_none_or(|s| s.trim().is_empty())`
abbrev pub lacks_rationale : Option String → Bool
lacks_rationale none = true
lacks_rationale (some text) = is_blank text

-- The codes that the statements after the loop push, in their order.
unfoldable pub final_reasons :
    RecordPracticeSessionRequest → ProductionEvidence → ReviewInput → Tally → List ReasonCode
final_reasons r e review t =
    let again = fsrs_rating_eq review.rating FsrsRating.again in
    push_if (not again && lacks_rationale review.rating_rationale)
      ReasonCode.insufficient_rating_evidence
      (push_if (not t.failure && again) ReasonCode.rating_conflicts_with_success (
        push_if (t.failure && not again) ReasonCode.independent_failure_requires_again (
          push_if
            (ltb (length t.supporting) 2
              || ltb (length t.scenarios) 2
              || not (
                  any
                    (λ (v : VariationAssessment).
                      str_eq v.weakness_key review.weakness_key
                      && all (λ n. has n v.observation_nos) t.supporting)
                    e.variation_assessments))
            ReasonCode.insufficient_varied_evidence
            (push_if
              (not again
                && any (λ (o : ObservationInput). lacks_effort o.learner_effort)
                    (keep (λ (o : ObservationInput). has o.observation_no t.supporting)
                      (observations r)))
              ReasonCode.insufficient_rating_evidence t.reason_codes))))

-- What the loop leaves.
abbrev pub final_tally :
    (List ℕ → List ℕ) → RecordPracticeSessionRequest → ProductionEvidence → ReviewInput → Tally
final_tally to_lowercase r e review =
    tally to_lowercase r e review empty_tally
      (keep (is_about review.weakness_key (observations r)) e.observations)

unfoldable pub review_decision :
    (List ℕ → List ℕ) → RecordPracticeSessionRequest → ReviewInput → ℕ → ReviewDecision
review_decision to_lowercase r review version = elim r.production_evidence [
  | none ↦ record {
    weakness_key = review.weakness_key;
    eligible = false;
    reason_codes = ReasonCode.unknown_assistance ∷ [];
    supporting_observation_nos = [];
    excluded_observation_nos = review.evidence_observation_nos;
    policy_version = version;
    applied_rating = none;
  }
  | some e ↦
      let t = final_tally to_lowercase r e review in
      let reasons = dedup_reasons (sort_reasons (final_reasons r e review t)) in
      record {
        weakness_key = review.weakness_key;
        eligible = leb 2 (length t.supporting) && not (any is_blocking reasons);
        reason_codes = reasons;
        supporting_observation_nos = t.supporting;
        excluded_observation_nos = t.excluded;
        policy_version = version;
        applied_rating = none;
      }
]
