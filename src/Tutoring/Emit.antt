-- ===== src/Tutoring/Emit.antt =====
-- The loop of `expand` in src/tutoring.rs that writes the canonical attempts with their findings
-- and, where the session has production evidence, the evidence about them.
use Prim.Native.String.{◌++◌ as string_append}
use aprendiendo.Base.{
  ℕ, ◌+◌, Bool, true, false, ◌&&◌, Option, none, some, List, [], ◌∷◌, ◌++◌, map, Outcome, ok, err,
  ◌>>=◌, ◌>>◌, bail_if, try_fold, ok_or, or_else, is_none, is_some, is_some_and, keep, length, ltb,
  leb, if◌then◌else◌,
}
use aprendiendo.Model.Evidence.{ReflectionSource, ReflectionKind, learner_effort_str}
use aprendiendo.Model.Requests.{
  ObservationInput, FindingInput, AttemptReflectionInput, AttemptInput,
}
use aprendiendo.Model.Production.{AttemptEvidence, ObservationEvidence, Intervention}
use aprendiendo.Production.Classes.{is_initial, is_self_correction}
use aprendiendo.Tutoring.Requests.{
  TutoringAttemptEvidence, TutoringObservationInput, TutoringObservationAssessment,
  TutoringFindingInput, TutoringInterventionInput, TutoringAttemptInput, TutoringTurnInput,
}
use aprendiendo.Tutoring.Checks.{
  TutoringError, text, optional_text, to_u16, enumerate_from, compact_observation, finding,
}
use aprendiendo.Tutoring.Scan.{AttemptMeta, ObservationSlot, find_meta, find_slot, same_key}

-- What the loop writes.
pub record Written : Type 0 where
  pub attempts : List AttemptInput
  pub findings : List FindingInput
  pub evidence : List AttemptEvidence
  pub observations : List ObservationEvidence
  pub interventions : List Intervention
  pub intervention_no : ℕ

abbrev pub reflections_of : Option TutoringAttemptEvidence → List AttemptReflectionInput
reflections_of none = []
reflections_of (some e) = elim e.effort [
  | none ↦ []
  | some effort ↦
      record {
        reflection_no = 1;
        source = ReflectionSource.learner;
        kind = ReflectionKind.general;
        note = string_append "Reported effort: " (learner_effort_str effort);
      }
      ∷ []
]

-- The evidence about one observation, which a session with production evidence requires.
abbrev pub assess :
    Bool
    → ℕ
    → ℕ
    → Option TutoringObservationAssessment
    → Outcome TutoringError (List ObservationEvidence)
assess false observation_no attempt_no assessment = ok []
assess true observation_no attempt_no none = err TutoringError.assessment_required
assess true observation_no attempt_no (some a) = ok (
    record {
      observation_no = observation_no;
      attempt_no = attempt_no;
      target_realization = a.target_realization;
      target_accuracy = a.target_accuracy;
      assessment_provenance = a.provenance;
    }
    ∷ [])

-- The body of the loop over the observations of an attempt. A missing key is a panic.
unfoldable pub emit_observation :
    Bool
    → List ObservationSlot
    → AttemptMeta
    → List ObservationInput × List ObservationEvidence
    → ℕ × TutoringObservationInput
    → Outcome TutoringError (List ObservationInput × List ObservationEvidence)
emit_observation production slots meta (written, evidence) (index, o) = do
  number ← ok_or (find_slot meta.key index slots) TutoringError.missing_key
  assessed ← assess production number meta.attempt_no (TutoringObservationInput.assessment o)
  ok (written ++ compact_observation o number ∷ [], evidence ++ assessed)

-- `min` over the numbers of the attempts that name this one as their original.
abbrev pub least : List ℕ → Option ℕ
least [] = none
least (n ∷ ns) = elim (least ns) [ none ↦ some n | some m ↦ some (if leb n m then n else m) ]

abbrev pub retries_of : ℕ × ℕ → List AttemptMeta → List AttemptMeta
retries_of key metas =
    keep (λ (m : AttemptMeta). is_some_and m.original (λ o. same_key o key)) metas

-- `metas[&key].attempt_no`; a missing key, which is a panic, gives no number.
abbrev pub number_at : ℕ × ℕ → List AttemptMeta → Option ℕ
number_at key metas = elim (find_meta key metas) [
  | none ↦ none
  | some m ↦ some (AttemptMeta.attempt_no m)
]

-- The number of the next attempt of the turn, which has `count` of them, or else that of the first
-- retry of this attempt.
unfoldable pub before_attempt : List AttemptMeta → ℕ → AttemptMeta → Option ℕ
before_attempt metas count meta =
    or_else
      (if ltb (meta.key.1 + 1) count then number_at (meta.key.0, meta.key.1 + 1) metas else none)
      (least (map (λ (m : AttemptMeta). m.attempt_no) (retries_of meta.key metas)))

-- The body of the loop over the interventions after an attempt.
unfoldable pub emit_intervention :
    Bool
    → List AttemptMeta
    → ℕ
    → AttemptMeta
    → List Intervention × ℕ
    → TutoringInterventionInput
    → Outcome TutoringError (List Intervention × ℕ)
unfolding before_attempt
emit_intervention production metas count meta (written, number) i = do
  text i.text 4000
  number' ← to_u16 (number + 1)
  ok (
    (if production
        then written
          ++ record {
            intervention_no = number';
            kind = i.kind;
            text = i.text;
            target_weakness_keys = i.target_weakness_keys;
            after_attempt_no = meta.attempt_no;
            before_attempt_no = before_attempt metas count meta;
          }
            ∷ []
        else written),
    number',
  )

-- `original_attempt_no`
unfoldable pub original_no : Option (ℕ × ℕ) → List AttemptMeta → Outcome TutoringError (Option ℕ)
original_no none metas = ok none
original_no (some key) metas = do
  m ← ok_or (find_meta key metas) TutoringError.missing_key
  ok (some (AttemptMeta.attempt_no m))

-- The evidence about an attempt.
unfoldable pub evidence_of :
    List AttemptMeta → AttemptMeta → TutoringAttemptEvidence → Outcome TutoringError AttemptEvidence
unfolding original_no
evidence_of metas meta e = do
  original ← original_no meta.original metas
  bail_if (is_initial e.kind && is_some original) TutoringError.initial_with_original
  bail_if (is_self_correction e.kind && is_none original)
      TutoringError.self_correction_without_original
  bail_if (is_some_and original (λ n. leb meta.attempt_no n)) TutoringError.original_not_earlier
  text e.scenario 160
  text e.topic 160
  optional_text e.exposure_source 500
  ok (record {
    attempt_no = meta.attempt_no;
    attempt_kind = e.kind;
    original_attempt_no = original;
    prompt_cueing = e.cueing;
    prior_target_exposure = e.exposure;
    exposure_source = e.exposure_source;
    communicative_outcome = e.outcome;
    assessment_provenance = e.provenance;
    scenario_tag = e.scenario;
    topic_tag = e.topic;
    initial_sentence_count = e.sentence_count;
  })

-- `if production_present { … }` at the end of the loop's body.
unfoldable pub emit_evidence :
    Bool
    → List AttemptMeta
    → AttemptMeta
    → Option TutoringAttemptEvidence
    → Outcome TutoringError (List AttemptEvidence)
emit_evidence false metas meta evidence = ok []
emit_evidence true metas meta evidence = do
  e ← ok_or evidence TutoringError.evidence_required
  written ← evidence_of metas meta e
  ok (written ∷ [])

abbrev pub attempt_input : AttemptMeta → TutoringAttemptInput → List ObservationInput → AttemptInput
attempt_input meta attempt observations = record {
  attempt_no = meta.attempt_no;
  practice_item_no = some meta.item_no;
  transcript = attempt.transcript;
  target_duration_seconds = attempt.target_duration_seconds;
  actual_duration_milliseconds = attempt.actual_duration_milliseconds;
  response_mode = attempt.response_mode;
  response_latency_milliseconds = attempt.response_latency_milliseconds;
  timing_source = attempt.timing_source;
  observations = observations;
  reflections = reflections_of attempt.evidence;
}

-- The body of the loop over the attempts of a turn, which has `count` of them.
unfoldable pub emit_attempt :
    Bool
    → List AttemptMeta
    → List ObservationSlot
    → ℕ
    → ℕ
    → Written
    → ℕ × TutoringAttemptInput
    → Outcome TutoringError Written
unfolding emit_evidence
emit_attempt production metas slots turn_index count w (attempt_index, attempt) = do
  meta ← ok_or (find_meta (turn_index, attempt_index) metas) TutoringError.missing_key
  (observations, assessed) ←
      try_fold (emit_observation production slots meta) ([], [])
        (enumerate_from 0 attempt.observations)
  (interventions, intervention_no) ←
      try_fold (emit_intervention production metas count meta) (w.interventions, w.intervention_no)
        attempt.interventions_after
  evidence ← emit_evidence production metas meta attempt.evidence
  ok (record {
    attempts = w.attempts ++ attempt_input meta attempt observations ∷ [];
    findings =
        w.findings
        ++ map (λ (f : TutoringFindingInput). finding f meta.item_no meta.attempt_no)
            attempt.findings;
    evidence = w.evidence ++ evidence;
    observations = w.observations ++ assessed;
    interventions = interventions;
    intervention_no = intervention_no;
  })

unfoldable pub emit_turn :
    Bool
    → List AttemptMeta
    → List ObservationSlot
    → Written
    → ℕ × TutoringTurnInput
    → Outcome TutoringError Written
emit_turn production metas slots w (turn_index, turn) =
    try_fold
      (emit_attempt production metas slots turn_index (length (TutoringTurnInput.attempts turn))) w
      (enumerate_from 0 (TutoringTurnInput.attempts turn))
