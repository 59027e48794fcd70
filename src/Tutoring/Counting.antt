-- ===== src/Tutoring/Counting.antt =====
-- Where counting finds an attempt or an observation of the request.
use aprendiendo.Base.{ℕ, ◌+◌, ◌≤◌, some, List, [], ◌∷◌, ◌≡◌, length, arith, Option-cases, inl, inr}
use aprendiendo.Tutoring.Requests.{
  TutoringObservationInput, TutoringAttemptInput, TutoringTurnInput,
}
use aprendiendo.Tutoring.Numbers.{count_attempts, count_turns}
use aprendiendo.Tutoring.Slots.{
  count_observations, count_in_attempts, count_in_turns, observations_in,
}

-- Where counting finds something, the indices are at or after those from which it counts.
pub count_attempts-ge :
    (k : ℕ × ℕ) (ti ai n : ℕ) (as' : List TutoringAttemptInput) (v : ℕ × ℕ)
    → count_attempts k ti ai n as' ≡ some v
    → (k.0 ≡ ti) × (ai ≤ k.1)
count_attempts-ge k ti ai n [] v h = absurd (cc)
count_attempts-ge k ti ai n (a ∷ rest) v h =
    ground (arith, count_attempts-ge k ti (ai + 1) (n + 1) rest v)

pub count_turns-ge :
    (k : ℕ × ℕ) (ti n : ℕ) (turns : List TutoringTurnInput) (v : ℕ × ℕ)
    → count_turns k ti n turns ≡ some v
    → ti ≤ k.0
count_turns-ge k ti n [] v h = absurd (cc)
count_turns-ge k ti n (turn ∷ turns) v h = ground (
  arith,
  count_attempts-ge k ti 0 n turn.attempts v,
  count_turns-ge k (ti + 1) (n + length turn.attempts) turns v,
)

pub count_observations-ge :
    (k : ℕ × ℕ) (index : ℕ) (key : ℕ × ℕ) (oi n : ℕ) (os : List TutoringObservationInput) (v : ℕ)
    → count_observations k index key oi n os ≡ some v
    → (k.0 ≡ key.0) × (k.1 ≡ key.1) × (oi ≤ index)
count_observations-ge k index key oi n [] v h = absurd (cc)
count_observations-ge k index key oi n (o ∷ rest) v h =
    ground (arith, count_observations-ge k index key (oi + 1) (n + 1) rest v)

pub count_in_attempts-ge :
    (k : ℕ × ℕ) (index ti ai n : ℕ) (as' : List TutoringAttemptInput) (v : ℕ)
    → count_in_attempts k index ti ai n as' ≡ some v
    → (k.0 ≡ ti) × (ai ≤ k.1)
count_in_attempts-ge k index ti ai n [] v h = absurd (cc)
count_in_attempts-ge k index ti ai n (a ∷ rest) v h = ground (
  arith,
  count_observations-ge k index (ti, ai) 0 n a.observations v,
  count_in_attempts-ge k index ti (ai + 1) (n + length a.observations) rest v,
)

pub count_in_turns-ge :
    (k : ℕ × ℕ) (index ti n : ℕ) (turns : List TutoringTurnInput) (v : ℕ)
    → count_in_turns k index ti n turns ≡ some v
    → ti ≤ k.0
count_in_turns-ge k index ti n [] v h = absurd (cc)
count_in_turns-ge k index ti n (turn ∷ turns) v h = ground (
  arith,
  count_in_attempts-ge k index ti 0 n turn.attempts v,
  count_in_turns-ge k index (ti + 1) (n + observations_in turn.attempts) turns v,
)

-- What is counted later is not counted earlier.
pub count_in_attempts-later :
    (k : ℕ × ℕ) (index ti ai m : ℕ) (a : TutoringAttemptInput) (rest : List TutoringAttemptInput)
    (v : ℕ)
    → count_in_attempts k index ti (ai + 1) (m + length a.observations) rest ≡ some v
    → count_in_attempts k index ti ai m (a ∷ rest) ≡ some v
count_in_attempts-later k index ti ai m a rest v c =
    let (_, after) =
      count_in_attempts-ge k index ti (ai + 1) (m + length a.observations) rest v c in
    elim (Option-cases (count_observations k index (ti, ai) 0 m a.observations)) [
      | inl none' ↦ ground (arith, c, none')
      | inr (u, some') ↦
          ground (arith, after, some', count_observations-ge k index (ti, ai) 0 m a.observations u)
    ]

pub count_turns-later :
    (k : ℕ × ℕ) (ti n : ℕ) (turn : TutoringTurnInput) (turns : List TutoringTurnInput) (v : ℕ × ℕ)
    → count_turns k (ti + 1) (n + length turn.attempts) turns ≡ some v
    → count_turns k ti n (turn ∷ turns) ≡ some v
count_turns-later k ti n turn turns v c =
    let after = count_turns-ge k (ti + 1) (n + length turn.attempts) turns v c in
    elim (Option-cases (count_attempts k ti 0 n turn.attempts)) [
      | inl none' ↦ ground (arith, c, none')
      | inr (u, some') ↦ ground (arith, after, some', count_attempts-ge k ti 0 n turn.attempts u)
    ]

pub count_in_turns-later :
    (k : ℕ × ℕ) (index ti m : ℕ) (turn : TutoringTurnInput) (turns : List TutoringTurnInput) (v : ℕ)
    → count_in_turns k index (ti + 1) (m + observations_in turn.attempts) turns ≡ some v
    → count_in_turns k index ti m (turn ∷ turns) ≡ some v
count_in_turns-later k index ti m turn turns v c =
    let after = count_in_turns-ge k index (ti + 1) (m + observations_in turn.attempts) turns v c in
    elim (Option-cases (count_in_attempts k index ti 0 m turn.attempts)) [
      | inl none' ↦ ground (arith, c, none')
      | inr (u, some') ↦
          ground (arith, after, some', count_in_attempts-ge k index ti 0 m turn.attempts u)
    ]
