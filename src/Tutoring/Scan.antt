-- ===== src/Tutoring/Scan.antt =====
-- The first loops of `expand` in src/tutoring.rs: the tests of turns and attempts, the numbers of
-- the attempts (`metas`) and those of the observations (`observation_numbers`). The keys of the
-- two maps are fresh whenever one is inserted: a map is the list of its entries, the latest last.
use aprendiendo.Base.{
  ℕ, zero, suc, ◌+◌, Bool, ◌&&◌, Option, none, some, List, [], ◌∷◌, ◌++◌, Outcome, ok, ◌>>=◌, ◌>>◌,
  bail_if, for_each, try_fold, ok_or, is_none, is_some, find, length, ltb, ◌==◌, if◌then◌else◌,
}
use aprendiendo.Tutoring.Requests.{
  TutoringAttemptReference, TutoringObservationReference, TutoringAttemptEvidence,
  TutoringObservationInput, TutoringFindingInput, TutoringAttemptInput, TutoringTurnInput,
}
use aprendiendo.Tutoring.Checks.{
  TutoringError, text, optional_text, checked_index, to_u16, enumerate_from,
}

pub record AttemptMeta : Type 0 where
  pub key : ℕ × ℕ
  pub item_no : ℕ
  pub attempt_no : ℕ
  pub original : Option (ℕ × ℕ)

abbrev pub same_key : ℕ × ℕ → ℕ × ℕ → Bool
same_key j k = j.0 == k.0 && j.1 == k.1

-- `metas.get(&key)`
abbrev pub find_meta : ℕ × ℕ → List AttemptMeta → Option AttemptMeta
find_meta key metas = find (λ (m : AttemptMeta). same_key m.key key) metas

-- `turns[turn].attempts` and `turns[turn].attempts[attempt].observations`, at checked indices.
abbrev pub attempts_at : ℕ → List TutoringTurnInput → List TutoringAttemptInput
attempts_at i [] = []
attempts_at i (turn ∷ turns) = elim i [
  | zero ↦ TutoringTurnInput.attempts turn
  | suc j ↦ attempts_at j turns
]

abbrev pub observations_at : ℕ → List TutoringAttemptInput → List TutoringObservationInput
observations_at i [] = []
observations_at i (a ∷ rest) = elim i [
  | zero ↦ TutoringAttemptInput.observations a
  | suc j ↦ observations_at j rest
]

unfoldable pub resolve_attempt :
    TutoringAttemptReference → List TutoringTurnInput → Outcome TutoringError (ℕ × ℕ)
resolve_attempt reference turns = do
  turn ← checked_index reference.turn (length turns)
  attempt ← checked_index reference.attempt (length (attempts_at turn turns))
  ok (turn, attempt)

-- The value of `original`.
unfoldable pub original_of :
    Option TutoringAttemptEvidence → List TutoringTurnInput → Outcome TutoringError (Option (ℕ × ℕ))
original_of none turns = ok none
original_of (some e) turns = elim e.original_attempt [
  | none ↦ ok none
  | some reference ↦ resolve_attempt reference turns >>= λ key. ok (some key)
]

check_observation_input : TutoringObservationInput → Outcome TutoringError (Unit {0})
check_observation_input o = do
  text o.weakness_key 160
  optional_text o.produced 2000
  optional_text o.correction 2000
  optional_text o.error_span 1000
  optional_text o.notes 2000

-- The body of the loop over findings; the state is `findings_total`.
check_finding : ℕ → TutoringFindingInput → Outcome TutoringError ℕ
check_finding total f = do
  bail_if (ltb 300 (total + 1)) TutoringError.too_many
  text f.original 4000
  optional_text f.suggestion 4000
  optional_text f.note 2000
  ok (total + 1)

-- The variables of the first loop.
pub record Totals : Type 0 where
  pub metas : List AttemptMeta
  pub attempt_no : ℕ
  pub observations_total : ℕ
  pub findings_total : ℕ
  pub interventions_total : ℕ

-- The tests of an attempt, from its transcript to its interventions; the new `findings_total`.
unfoldable pub check_attempt_input : Totals → TutoringAttemptInput → Outcome TutoringError ℕ
unfolding check_observation_input check_finding
check_attempt_input s attempt = do
  text attempt.transcript 8000
  bail_if (is_some attempt.actual_duration_milliseconds && is_none attempt.timing_source)
      TutoringError.timing_source_required
  bail_if (is_some attempt.response_latency_milliseconds && is_none attempt.timing_source)
      TutoringError.timing_source_required
  bail_if (ltb 300 (s.observations_total + length attempt.observations)) TutoringError.too_many
  for_each check_observation_input attempt.observations
  findings_total ← try_fold check_finding s.findings_total attempt.findings
  bail_if (ltb 20 (length attempt.interventions_after)) TutoringError.too_many
  bail_if (ltb 300 (s.interventions_total + length attempt.interventions_after))
      TutoringError.too_many
  ok findings_total

-- The body of the loop over the attempts of a turn.
unfoldable pub scan_attempt :
    List TutoringTurnInput
    → ℕ
    → ℕ
    → Totals
    → ℕ × TutoringAttemptInput
    → Outcome TutoringError Totals
unfolding original_of
scan_attempt turns turn_index item_no s (attempt_index, attempt) = do
  attempt_no ← to_u16 (s.attempt_no + 1)
  bail_if (ltb 100 attempt_no) TutoringError.too_many
  findings_total ← check_attempt_input s attempt
  original ← original_of (TutoringAttemptInput.evidence attempt) turns
  ok (record {
    metas =
        s.metas
        ++ record {
          key = (turn_index, attempt_index);
          item_no = item_no;
          attempt_no = attempt_no;
          original = original;
        }
          ∷ [];
    attempt_no = attempt_no;
    observations_total = s.observations_total + length (TutoringAttemptInput.observations attempt);
    findings_total = findings_total;
    interventions_total =
        s.interventions_total + length (TutoringAttemptInput.interventions_after attempt);
  })

-- The body of the loop over the turns.
unfoldable pub scan_turn :
    List TutoringTurnInput → Totals → ℕ × TutoringTurnInput → Outcome TutoringError Totals
scan_turn turns s (turn_index, turn) = do
  item_no ← to_u16 (turn_index + 1)
  text turn.prompt 4000
  bail_if (ltb 20 (length turn.target_weakness_keys)) TutoringError.too_many
  for_each (λ key. text key 160) turn.target_weakness_keys
  optional_text turn.communicative_function 1000
  bail_if (ltb 20 (length turn.attempts)) TutoringError.too_many
  try_fold (scan_attempt turns turn_index item_no) s (enumerate_from 0 turn.attempts)

-- An entry of `observation_numbers`: the indices of turn, attempt and observation, and the number.
pub record ObservationSlot : Type 0 where
  pub key : ℕ × ℕ
  pub index : ℕ
  pub number : ℕ

pub record Slots : Type 0 where
  pub entries : List ObservationSlot
  pub next : ℕ

abbrev pub find_slot : ℕ × ℕ → ℕ → List ObservationSlot → Option ℕ
find_slot key index [] = none
find_slot key index (e ∷ es) =
    let rest = find_slot key index es in
    if same_key e.key key && e.index == index then some e.number else rest

-- The bodies of the three loops that number the observations.
unfoldable pub number_one :
    ℕ × ℕ → Slots → ℕ × TutoringObservationInput → Outcome TutoringError Slots
number_one key s (index, _) = do
  number ← to_u16 (s.next + 1)
  ok (record {
    entries = s.entries ++ record { key = key; index = index; number = number } ∷ [];
    next = number;
  })

unfoldable pub number_attempt : ℕ → Slots → ℕ × TutoringAttemptInput → Outcome TutoringError Slots
number_attempt turn_index s (attempt_index, attempt) =
    try_fold (number_one (turn_index, attempt_index)) s
      (enumerate_from 0 (TutoringAttemptInput.observations attempt))

unfoldable pub number_turn : Slots → ℕ × TutoringTurnInput → Outcome TutoringError Slots
number_turn s (turn_index, turn) =
    try_fold (number_attempt turn_index) s (enumerate_from 0 (TutoringTurnInput.attempts turn))

unfoldable pub resolve_observation :
    TutoringObservationReference
    → List TutoringTurnInput
    → List ObservationSlot
    → Outcome TutoringError ℕ
resolve_observation reference turns slots = do
  turn ← checked_index reference.turn (length turns)
  attempt ← checked_index reference.attempt (length (attempts_at turn turns))
  observation ←
      checked_index reference.observation
        (length (observations_at attempt (attempts_at turn turns)))
  ok_or (find_slot (turn, attempt) observation slots) TutoringError.missing_key
