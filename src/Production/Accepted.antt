-- ===== src/Production/Accepted.antt =====
-- What `validate_evidence` promises of a session that it accepts.
use aprendiendo.Base.{
  ℕ, ◌≡◌, refl, Bool, true, false, not, ◌&&◌, ◌||◌, some, List, [], ◌∷◌, map, ok, bail_if, for_each,
  try_fold, for_each-All, >>=-eq-ok, ok_or, is_some_and, any, has, length, is_blank, leb, ltb, ◌==◌,
  arith, All, All-weaken, IsDistinct, Inserts, InsertsAll, try_fold-InsertsAll, pigeonhole,
}
use aprendiendo.Model.Requests.{ObservationInput, AttemptInput}
use aprendiendo.Model.Numbers.{attempt_nos, observation_nos, evidence_nos, assessed_nos}
use aprendiendo.Model.Session.{RecordPracticeSessionRequest}
use aprendiendo.Model.Production.{
  AttemptEvidence, ObservationEvidence, Intervention, ProductionEvidence,
}
use aprendiendo.Production.Classes.{find_attempt, is_self_correction}
use aprendiendo.Production.Reviews.{
  observations, find_observation, is_unobserved, is_not_assessable,
}
use aprendiendo.Production.Validation.{
  EvidenceRefusal, validate_attempt, validate_outcome, validate_observation, validate_intervention,
  is_timed, validate_timing, validate_some, validate_evidence,
}

find_attempt-has :
    (n : ℕ) (attempts : List AttemptInput) (a : AttemptInput)
    → find_attempt n attempts ≡ some a
    → has n (attempt_nos attempts) ≡ true
find_attempt-has n [] a h = absurd (cc)
find_attempt-has n (b ∷ attempts) a h = ground (arith, find_attempt-has n attempts a)

find_observation-has :
    (n : ℕ) (os : List ObservationInput) (o : ObservationInput)
    → find_observation n os ≡ some o
    → has n (observation_nos os) ≡ true
find_observation-has n [] o h = absurd (cc)
find_observation-has n (p ∷ os) o h = ground (arith, find_observation-has n os o)

validate_attempt-Inserts :
    (r : RecordPracticeSessionRequest) (seen out : List ℕ) (a : AttemptEvidence)
    → validate_attempt r seen a ≡ ok out
    → Inserts
        (λ (x : AttemptEvidence). x.attempt_no)
        (λ (x : AttemptEvidence). has x.attempt_no (attempt_nos r.attempts) ≡ true)
        seen
        a
        out
unfolding validate_attempt
validate_attempt-Inserts r seen out a h =
    let (_, fresh, h1) =
      >>=-eq-ok (bail_if (has a.attempt_no seen) EvidenceRefusal.duplicate_attempt) _ h in
    let (attempt, found, h2) =
      >>=-eq-ok (ok_or (find_attempt a.attempt_no r.attempts) EvidenceRefusal.invalid_attempt) _
        h1 in
    record {
      inserted = ground (arith, h2);
      unseen = ground (arith, fresh);
      tested = ground (arith, found, find_attempt-has a.attempt_no r.attempts attempt);
    }

validate_observation-Inserts :
    (r : RecordPracticeSessionRequest) (seen out : List ℕ) (o : ObservationEvidence)
    → validate_observation r seen o ≡ ok out
    → Inserts
        (λ (x : ObservationEvidence). x.observation_no)
        (λ (x : ObservationEvidence).
          has x.observation_no (observation_nos (observations r)) ≡ true)
        seen
        o
        out
unfolding validate_observation
validate_observation-Inserts r seen out o h =
    let (_, fresh, h1) =
      >>=-eq-ok (bail_if (has o.observation_no seen) EvidenceRefusal.duplicate_observation) _ h in
    let (actual, found, h2) =
      >>=-eq-ok
        (ok_or (find_observation o.observation_no (observations r))
          EvidenceRefusal.invalid_observation)
        _ h1 in
    let (a, _, h3) =
      >>=-eq-ok
        (ok_or (find_attempt o.attempt_no r.attempts) EvidenceRefusal.invalid_observation_attempt) _
        h2 in
    let (_, _, h4) =
      >>=-eq-ok
        (bail_if
          (not
            (any (λ (v : ObservationInput). v.observation_no == o.observation_no) a.observations))
          EvidenceRefusal.not_nested)
        _ h3 in
    let (_, _, h5) =
      >>=-eq-ok
        (bail_if (is_unobserved o.target_realization && not (is_not_assessable o.target_accuracy))
          EvidenceRefusal.assessed_unobserved)
        _ h4 in
    let (_, _, h6) =
      >>=-eq-ok
        (bail_if (is_blank o.assessment_provenance.evidence) EvidenceRefusal.missing_provenance) _
        h5 in
    let (_, _, last) = >>=-eq-ok (validate_outcome o actual.outcome) _ h6 in
    record {
      inserted = ground (arith, last);
      unseen = ground (arith, fresh);
      tested = ground (arith, found, find_observation-has o.observation_no (observations r) actual);
    }

-- An intervention that the loop accepts ends before it begins.
IsOrdered : Intervention → Type 0
IsOrdered i = is_some_and i.before_attempt_no (λ n. leb n i.after_attempt_no) ≡ false

validate_intervention-Inserts :
    (r : RecordPracticeSessionRequest) (seen out : List ℕ) (i : Intervention)
    → validate_intervention r seen i ≡ ok out
    → Inserts (λ (x : Intervention). x.intervention_no) IsOrdered seen i out
unfolding validate_intervention IsOrdered
validate_intervention-Inserts r seen out i h = record {
  inserted = ground arith;
  unseen = ground arith;
  tested = ground arith;
}

length-map : {A : Type 0} (f : A → ℕ) (xs : List A) → length (map f xs) ≡ length xs
length-map f [] = refl
length-map f (x ∷ xs) = ground (arith, length-map f xs)

All-map :
    {A : Type 0} (f : A → ℕ) (P : ℕ → Type 0) (xs : List A)
    → All (λ x. P (f x)) xs
    → All P (map f xs)
All-map f P [] all = tt
All-map f P (x ∷ xs) all = (all.0, All-map f P xs all.1)

-- A loop that inserted as many keys as `ns` has numbers, all of them in `ns`, met all of `ns`.
InsertsAll-covers :
    {A : Type 0} (key : A → ℕ) (xs : List A) (ns out : List ℕ)
    → InsertsAll key (λ x. has (key x) ns ≡ true) [] xs out
    → length out ≡ length ns
    → All (λ n. has n (map key xs) ≡ true) ns × IsDistinct ns
InsertsAll-covers key xs ns out loop size =
    pigeonhole (map key xs) ns loop.distinct (All-map key (λ n. has n ns ≡ true) xs loop.tested)
      (ground (arith, loop.size, size, length-map key xs))

record Validated (r : RecordPracticeSessionRequest) (e : ProductionEvidence) : Type 0 where
  met : List ℕ
  attempts :
      InsertsAll
        (λ (x : AttemptEvidence). x.attempt_no)
        (λ (x : AttemptEvidence). has x.attempt_no (attempt_nos r.attempts) ≡ true)
        []
        e.attempts
        met
  all_attempts : length met ≡ length r.attempts
  judged : List ℕ
  observed :
      InsertsAll
        (λ (x : ObservationEvidence). x.observation_no)
        (λ (x : ObservationEvidence).
          has x.observation_no (observation_nos (observations r)) ≡ true)
        []
        e.observations
        judged
  all_observations : length judged ≡ length (observations r)
  ordered : All IsOrdered e.interventions
  timed : All (λ a. validate_timing e a ≡ ok tt) e.attempts

validate_evidence-Validated :
    (r : RecordPracticeSessionRequest) (e : ProductionEvidence)
    → validate_evidence r ≡ ok tt
    → r.production_evidence ≡ some e
    → Validated r e
unfolding validate_evidence validate_some
validate_evidence-Validated r e h given =
    let some' : validate_some r e ≡ ok tt = ground (arith, given, h) in
    let (met, attempts, h1) = >>=-eq-ok (try_fold (validate_attempt r) [] e.attempts) _ some' in
    let (_, all_attempts, h2) =
      >>=-eq-ok (bail_if (not (length met == length r.attempts)) EvidenceRefusal.uncovered_attempts)
        _ h1 in
    let (judged, observed, h3) =
      >>=-eq-ok (try_fold (validate_observation r) [] e.observations) _ h2 in
    let (_, all_observations, h4) =
      >>=-eq-ok
        (bail_if (not (length judged == length (observations r)))
          EvidenceRefusal.uncovered_observations)
        _ h3 in
    let (numbers, ordered, h5) =
      >>=-eq-ok (try_fold (validate_intervention r) [] e.interventions) _ h4 in
    let (_, timed, _) = >>=-eq-ok (for_each (validate_timing e) e.attempts) _ h5 in
    record {
      met = met;
      attempts =
          try_fold-InsertsAll _ (validate_attempt r) _ (validate_attempt-Inserts r) [] e.attempts
            met attempts;
      all_attempts = ground (arith, all_attempts);
      judged = judged;
      observed =
          try_fold-InsertsAll _ (validate_observation r) _ (validate_observation-Inserts r) []
            e.observations judged observed;
      all_observations = ground (arith, all_observations);
      ordered = InsertsAll.tested (
          try_fold-InsertsAll (λ (x : Intervention). x.intervention_no) (validate_intervention r)
            IsOrdered (validate_intervention-Inserts r) [] e.interventions numbers ordered);
      timed = for_each-All (validate_timing e) e.attempts (ground (arith, timed));
    }

-- An accepted session with production evidence has evidence about each of its attempts and about
-- each of its observations, and no two attempts and no two observations share a number.
pub validate_evidence-covers :
    (r : RecordPracticeSessionRequest) (e : ProductionEvidence)
    → validate_evidence r ≡ ok tt
    → r.production_evidence ≡ some e
    → All (λ n. has n (evidence_nos e.attempts) ≡ true) (attempt_nos r.attempts)
      × IsDistinct (attempt_nos r.attempts)
      × All (λ n. has n (assessed_nos e.observations) ≡ true) (observation_nos (observations r))
      × IsDistinct (observation_nos (observations r))
validate_evidence-covers r e h given =
    let v = validate_evidence-Validated r e h given in
    let (attempts, once) =
      InsertsAll-covers _ e.attempts (attempt_nos r.attempts) v.met v.attempts (
        ground
          (arith, v.all_attempts, length-map (λ (a : AttemptInput). a.attempt_no) r.attempts)) in
    let (observed, once') =
      InsertsAll-covers _ e.observations (observation_nos (observations r)) v.judged v.observed (
        ground (
          arith,
          v.all_observations,
          length-map (λ (o : ObservationInput). o.observation_no) (observations r),
        )) in
    (attempts, once, observed, once')

-- An intervention that the original precedes and that ends at this attempt, after it began.
abbrev pub is_between : AttemptEvidence → Intervention → Bool
is_between a i = is_timed a i && ltb i.after_attempt_no a.attempt_no

timed-between :
    (a : AttemptEvidence) (is : List Intervention)
    → All IsOrdered is
    → any (is_timed a) is ≡ true
    → any (is_between a) is ≡ true
unfolding IsOrdered
timed-between a [] ordered h = h
timed-between a (i ∷ is) ordered h = ground (arith, ordered.0, timed-between a is ordered.1)

-- In an accepted session with production evidence, a self-correction follows an intervention that
-- is recorded to end at it, and that is neither before the original attempt nor as late as the
-- correction.
pub validate_evidence-corrections :
    (r : RecordPracticeSessionRequest) (e : ProductionEvidence)
    → validate_evidence r ≡ ok tt
    → r.production_evidence ≡ some e
    → All
        (λ a. not (is_self_correction a.attempt_kind) || any (is_between a) e.interventions ≡ true)
        e.attempts
unfolding validate_timing
validate_evidence-corrections r e h given =
    let v = validate_evidence-Validated r e h given in
    All-weaken
      (λ a (timed : validate_timing e a ≡ ok tt).
        ground (arith, timed, timed-between a e.interventions v.ordered))
      e.attempts v.timed
