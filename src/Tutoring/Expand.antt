-- ===== src/Tutoring/Expand.antt =====
-- `expand` of src/tutoring.rs: the items, the reviews, the assessments of points, and the whole.
use aprendiendo.Base.{
  ℕ, ◌+◌, String, Bool, true, false, ◌&&◌, ◌||◌, Option, none, some, List, [], ◌∷◌, ◌++◌, map,
  Outcome, ok, ◌>>=◌, ◌>>◌, bail_if, try_fold, ok_or, unwrap_or, is_none, is_some, is_empty, any,
  flat_map, length, ltb,
}
use aprendiendo.Model.Evidence.{RatingSource}
use aprendiendo.Model.Requests.{PracticeItemInput, ReviewInput, RequestedPointAssessmentInput}
use aprendiendo.Model.Production.{TargetOpportunity, VariationAssessment, ProductionEvidence}
use aprendiendo.Model.Session.{RecordPracticeSessionRequest}
use aprendiendo.Tutoring.Requests.{
  TutoringObservationInput, TutoringAttemptInput, TutoringTurnInput, TutoringVariationInput,
  TutoringReviewInput, TutoringTaskAssessment, RecordTutoringSessionRequest,
}
use aprendiendo.Tutoring.Checks.{
  TutoringError, text, optional_text, to_u16, enumerate_from, feedback_for_turn,
}
use aprendiendo.Tutoring.Scan.{
  AttemptMeta, Totals, ObservationSlot, Slots, scan_turn, number_turn, resolve_attempt,
  resolve_observation, find_meta,
}
use aprendiendo.Tutoring.Emit.{Written, emit_turn}

-- `iter().map(f).collect::<Result<Vec<_>, _>>()`
abbrev pub collect :
    {A B : Type 0} → (A → Outcome TutoringError B) → List A → Outcome TutoringError (List B)
collect f [] = ok []
collect f (x ∷ xs) = f x >>= λ y. collect f xs >>= λ ys. ok (y ∷ ys)

-- `production_present`
unfoldable pub production_present : List TutoringTurnInput → List TutoringReviewInput → Bool
production_present turns reviews =
    let attempts = flat_map (λ (t : TutoringTurnInput). t.attempts) turns in
    any (λ (a : TutoringAttemptInput). is_some a.evidence) attempts
    || any (λ (o : TutoringObservationInput). is_some o.assessment)
        (flat_map (λ (a : TutoringAttemptInput). a.observations) attempts)
    || any (λ (r : TutoringReviewInput). is_some r.variation) reviews

-- `if production_present { None } else { feedback_for_turn(turn)? }`
abbrev pub item_feedback : Bool → TutoringTurnInput → Outcome TutoringError (Option String)
item_feedback true turn = ok none
item_feedback false turn = feedback_for_turn turn

-- The value that the loop pushes.
abbrev pub item_of : TutoringTurnInput → ℕ → Option String → PracticeItemInput
item_of turn item_no feedback = record {
  item_no = item_no;
  drill_type = turn.drill_type;
  prompt = turn.prompt;
  response = none;
  corrected_response = none;
  reference_answer = none;
  feedback = feedback;
  outcome = none;
  activity_run_no = none;
  item_phase = none;
  target_weakness_keys = turn.target_weakness_keys;
  observations = [];
}

-- The body of the loop that writes the items.
unfoldable pub emit_item :
    Bool
    → List PracticeItemInput
    → ℕ × TutoringTurnInput
    → Outcome TutoringError (List PracticeItemInput)
emit_item production items (turn_index, turn) = do
  item_no ← to_u16 (turn_index + 1)
  feedback ← item_feedback production turn
  ok (items ++ item_of turn item_no feedback ∷ [])

-- `if production_present { if let Some(variation) = … }`
unfoldable pub emit_variation :
    Bool
    → List TutoringTurnInput
    → List ObservationSlot
    → String
    → Option TutoringVariationInput
    → Outcome TutoringError (List VariationAssessment)
emit_variation true turns slots target (some variation) = do
  bail_if (is_empty variation.observation_refs) TutoringError.empty_variation
  numbers ← collect (λ r. resolve_observation r turns slots) variation.observation_refs
  text variation.rationale 2000
  ok (
      record { weakness_key = target; observation_nos = numbers; rationale = variation.rationale }
      ∷ [])
emit_variation _ turns slots target _ = ok []

-- The value that the loop over the reviews pushes.
abbrev pub review_of : TutoringReviewInput → List ℕ → ReviewInput
review_of r numbers = record {
  weakness_key = r.target;
  rating = r.rating;
  retrieval_mode = r.retrieval_mode;
  evidence_strength = r.evidence_strength;
  evidence_observation_nos = numbers;
  rating_rationale = r.rating_rationale;
  rating_source = unwrap_or r.rating_source RatingSource.assistant_suggested;
  evidence = r.evidence;
}

-- The body of the loop over the reviews.
unfoldable pub emit_review :
    Bool
    → List TutoringTurnInput
    → List ObservationSlot
    → List ReviewInput × List VariationAssessment
    → TutoringReviewInput
    → Outcome TutoringError (List ReviewInput × List VariationAssessment)
unfolding emit_variation
emit_review production turns slots (written, variations) r = do
  text r.target 160
  numbers ← collect (λ o. resolve_observation o turns slots) r.observation_refs
  variation ← emit_variation production turns slots r.target r.variation
  ok (written ++ review_of r numbers ∷ [], variations ++ variation)

abbrev pub opportunities_of : TutoringTurnInput → List TargetOpportunity
opportunities_of turn = elim turn.communicative_function [
  | none ↦ []
  | some function ↦
      map (λ key. record { weakness_key = key; communicative_function = function })
        turn.target_weakness_keys
]

-- The value of `production_evidence`.
unfoldable pub evidence_envelope :
    Bool
    → RecordTutoringSessionRequest
    → Written
    → List VariationAssessment
    → Outcome TutoringError (Option ProductionEvidence)
evidence_envelope false request w variations = ok none
evidence_envelope true request w variations = do
  version ← ok_or request.policy_version TutoringError.policy_version_required
  ok (
      some (record {
        policy_version = version;
        session_overrides = request.session_overrides;
        target_opportunities = flat_map opportunities_of request.turns;
        attempts = w.evidence;
        observations = w.observations;
        interventions = w.interventions;
        variation_assessments = variations;
      }))

-- The body of the loop over `task_assessments`.
unfoldable pub emit_assessment :
    List TutoringTurnInput
    → List AttemptMeta
    → TutoringTaskAssessment
    → Outcome TutoringError RequestedPointAssessmentInput
emit_assessment turns metas a = do
  key ← resolve_attempt a.attempt turns
  meta ← ok_or (find_meta key metas) TutoringError.missing_key
  ok (record {
    attempt_no = AttemptMeta.attempt_no meta;
    point_key = a.point_key;
    status = a.status;
    supporting_excerpt = a.supporting_excerpt;
    reason = a.reason;
    evaluator = a.evaluator;
    rubric_version = a.rubric_version;
    assessed_at = none;
    retrospective = false;
  })

-- The tests before the first loop.
unfoldable pub check_request : RecordTutoringSessionRequest → Outcome TutoringError (Unit {0})
check_request request = do
  text request.idempotency_key 128
  optional_text request.session_date 10
  optional_text request.reviewed_at 128
  optional_text request.task_ref 160
  optional_text request.topic 500
  optional_text request.notes 4000
  bail_if (ltb 100 (length request.turns)) TutoringError.too_many
  bail_if (ltb 100 (length request.new_weaknesses)) TutoringError.too_many
  bail_if (ltb 100 (length request.reviews)) TutoringError.too_many

abbrev pub no_totals : Totals
no_totals = record {
  metas = [];
  attempt_no = 0;
  observations_total = 0;
  findings_total = 0;
  interventions_total = 0;
}

abbrev pub no_slots : Slots
no_slots = record { entries = []; next = 0 }

abbrev pub nothing_written : Written
nothing_written = record {
  attempts = [];
  findings = [];
  evidence = [];
  observations = [];
  interventions = [];
  intervention_no = 0;
}

unfoldable pub expand :
    RecordTutoringSessionRequest → Outcome TutoringError RecordPracticeSessionRequest
unfolding check_request
expand request =
    let turns = enumerate_from 0 request.turns in
    let production = production_present request.turns request.reviews in
    do
      check_request request
      totals ← try_fold (scan_turn request.turns) no_totals turns
      slots ← try_fold number_turn no_slots turns
      bail_if (production && is_none request.policy_version) TutoringError.policy_version_required
      items ← try_fold (emit_item production) [] turns
      written ← try_fold (emit_turn production totals.metas slots.entries) nothing_written turns
      (reviews, variations) ←
          try_fold (emit_review production request.turns slots.entries) ([], []) request.reviews
      evidence ← evidence_envelope production request written variations
      points ← collect (emit_assessment request.turns totals.metas) request.task_assessments
      ok (record {
        production_evidence = evidence;
        idempotency_key = request.idempotency_key;
        session_date = request.session_date;
        reviewed_at = request.reviewed_at;
        task_ref = request.task_ref;
        exercise_type_key = request.exercise_type_key;
        topic = request.topic;
        notes = request.notes;
        new_weaknesses = request.new_weaknesses;
        items = items;
        attempts = written.attempts;
        observations = [];
        findings = written.findings;
        reviews = reviews;
        activity_runs = [];
        task_requirements = request.task_requirements;
        requested_point_assessments = points;
      })
