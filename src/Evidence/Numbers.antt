-- ===== src/Evidence/Numbers.antt =====
-- The loop over all observations of a session: numbers are positive and used once.
use aprendiendo.Base.{
  ℕ, ◌≡◌, refl, ◌↔◌, ◌≢◌, ok, List, [], ◌∷◌, ◌++◌, arith, false, try_fold, try_fold-append,
  try_fold-flat_map, is_ok-bind, is_ok-eq_ok, has, All, IsDistinct, flat_map, is_ok, true,
}
use aprendiendo.Model.Requests.{ObservationInput, AttemptInput, PracticeItemInput}
use aprendiendo.Model.Session.{RecordPracticeSessionRequest}
use aprendiendo.Evidence.{normalized_phase, validate_one, validate_session_observation_numbers}

-- All observations in the order in which the validation meets them.
abbrev pub all_observations : RecordPracticeSessionRequest → List ObservationInput
all_observations r =
    r.observations
    ++ (flat_map (λ (a : AttemptInput). a.observations) r.attempts
        ++ flat_map (λ (i : PracticeItemInput). i.observations) r.items)

abbrev pub numbers_of : List ObservationInput → List ℕ
numbers_of [] = []
numbers_of (o ∷ os) = o.observation_no ∷ numbers_of os

-- A positive number that was not used before, on an observation with an admissible phase.
pub record IsNumbered (seen : List ℕ) (o : ObservationInput) : Type 0 where
  pub positive : o.observation_no ≢ 0
  pub unused : has o.observation_no seen ≡ false
  pub accepted : is_ok (normalized_phase o) ≡ true

validate_one_iff :
    (seen : List ℕ) (o : ObservationInput)
    → (is_ok (validate_one seen o) ≡ true) ↔ IsNumbered seen o
unfolding validate_one
validate_one_iff seen o = (
  (λ h. record { positive = ground arith; unused = ground arith; accepted = ground arith }),
  (λ n. ground (arith, n.positive)),
)

validate_one-adds :
    (seen : List ℕ) (o : ObservationInput)
    → IsNumbered seen o
    → validate_one seen o ≡ ok (o.observation_no ∷ seen)
unfolding validate_one
validate_one-adds seen o n = ground (arith, n.positive)

-- A number that is added to `seen` is one that no later observation may use.
IsNumbered-cons :
    (n : ℕ) (seen : List ℕ) (os : List ObservationInput)
    → All (IsNumbered (n ∷ seen)) os ↔ (All (IsNumbered seen) os × (has n (numbers_of os) ≡ false))
IsNumbered-cons n seen [] = ((λ _. (tt, refl)), (λ _. tt))
IsNumbered-cons n seen (o ∷ os) =
    let ih = IsNumbered-cons n seen os in
    (
      (λ h. (
        (
          record { positive = h.0.positive; unused = ground arith; accepted = h.0.accepted },
          (ih.0 h.1).0,
        ),
        ground (arith, h.0.unused, (ih.0 h.1).1),
      )),
      (λ h. (
        record {
          positive = h.0.0.positive;
          unused = ground (arith, h.0.0.unused);
          accepted = h.0.0.accepted;
        },
        ih.1 (h.0.1, ground arith),
      )),
    )

loop_iff :
    (seen : List ℕ) (os : List ObservationInput)
    → (is_ok (try_fold validate_one seen os) ≡ true)
      ↔ (All (IsNumbered seen) os × IsDistinct (numbers_of os))
loop_iff seen [] = ((λ _. (tt, tt)), (λ _. refl))
loop_iff seen (o ∷ os) =
    let ih = loop_iff (o.observation_no ∷ seen) os in
    let split = IsNumbered-cons o.observation_no seen os in
    (
      (λ h.
          let n = (validate_one_iff seen o).0 (is_ok-bind (validate_one seen o) _ h) in
          let later = ih.0 (rw (validate_one-adds seen o n) at h) in
          let fresh = split.0 later.0 in ((n, fresh.0), (fresh.1, later.1))),
      (λ h. rw (validate_one-adds seen o h.0.0) (ih.1 (split.1 (h.0.1, h.1.0), h.1.1))),
    )

-- The three loops of the validation are one loop over all observations.
one_loop :
    (r : RecordPracticeSessionRequest)
    → is_ok (validate_session_observation_numbers r)
      ≡ is_ok (try_fold validate_one [] (all_observations r))
unfolding validate_session_observation_numbers
one_loop r = simp (try_fold-append, try_fold-flat_map) (ground arith)

-- A session passes exactly when every observation of it, wherever it is nested, has a positive
-- number and an admissible phase, and no two observations share a number.
pub session_numbers_iff :
    (r : RecordPracticeSessionRequest)
    → (validate_session_observation_numbers r ≡ ok tt)
      ↔ (All (IsNumbered []) (all_observations r) × IsDistinct (numbers_of (all_observations r)))
session_numbers_iff r = (
  (λ h. (loop_iff [] (all_observations r)).0 (rw (← one_loop r, h))),
  (λ h. is_ok-eq_ok _ (rw (one_loop r) ((loop_iff [] (all_observations r)).1 h))),
)
