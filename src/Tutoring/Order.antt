-- ===== src/Tutoring/Order.antt =====
-- The attempts and observations that `expand` writes are numbered in the order of the request.
use aprendiendo.Base.{
  ℕ, zero, suc, ◌+◌, Bool, some, List, [], ◌∷◌, ◌++◌, ◌≡◌, refl, sym, ap, flat_map-append, ok,
  try_fold, >>=-eq-ok, ok_or, length, arith,
}
use mathlib.Core.List.{append-nil, append_assoc, map-append}
use aprendiendo.Model.Requests.{ObservationInput, AttemptInput}
use aprendiendo.Model.Production.{ObservationEvidence}
use aprendiendo.Model.Numbers.{attempt_nos, observation_nos, written_observations}
use aprendiendo.Tutoring.Requests.{
  TutoringObservationInput, TutoringAttemptInput, TutoringTurnInput,
}
use aprendiendo.Tutoring.Checks.{TutoringError, enumerate_from, compact_observation}
use aprendiendo.Tutoring.Scan.{AttemptMeta, ObservationSlot, find_meta, find_slot}
use aprendiendo.Tutoring.Emit.{
  Written, emit_observation, emit_intervention, emit_evidence, emit_attempt, emit_turn,
  attempt_input, assess,
}
use aprendiendo.Tutoring.Numbers.{numbers_of, count_attempts, count_turns}
use aprendiendo.Tutoring.Counting.{
  count_attempts-ge, count_observations-ge, count_in_attempts-later, count_turns-later,
  count_in_turns-later,
}
use aprendiendo.Tutoring.Slots.{
  count_observations, count_in_attempts, count_in_turns, observations_in, observations_in_turns,
}

-- The numbers after `n`, as many as `k`.
abbrev pub numbers_from : ℕ → ℕ → List ℕ
numbers_from n zero = []
numbers_from n (suc k) = (n + 1) ∷ numbers_from (n + 1) k

numbers_from-append :
    (n j k : ℕ) → numbers_from n (j + k) ≡ numbers_from n j ++ numbers_from (n + j) k
numbers_from-append n zero k =
    let a : 0 + k ≡ k = omega arith in let b : n + 0 ≡ n = omega arith in rw (a, b) refl
numbers_from-append n (suc j) k =
    let a : suc j + k ≡ suc (j + k) = omega arith in
    let b : n + suc j ≡ (n + 1) + j = omega arith in
    rw (a, b) (ap (λ l. (n + 1) ∷ l) (numbers_from-append (n + 1) j k))

find_meta-key :
    (k : ℕ × ℕ) (ms : List AttemptMeta) (m : AttemptMeta) → find_meta k ms ≡ some m → m.key ≡ k
find_meta-key k [] m h = absurd (cc)
find_meta-key k (l ∷ ms) m h = ground (arith, find_meta-key k ms m)

abbrev pub attempts_in_turns : List TutoringTurnInput → ℕ
attempts_in_turns [] = 0
attempts_in_turns (turn ∷ turns) = length turn.attempts + attempts_in_turns turns

-- What a loop appends: attempts numbered after `n` and observations numbered after `m`.
pub record Appended (n k m j : ℕ) (w out : Written) : Type 0 where
  pub attempts : attempt_nos out.attempts ≡ attempt_nos w.attempts ++ numbers_from n k
  pub observations :
      observation_nos (written_observations out.attempts)
      ≡ observation_nos (written_observations w.attempts) ++ numbers_from m j

Appended-nothing : (n m : ℕ) {w out : Written} → out ≡ w → Appended n 0 m 0 w out
Appended-nothing n m {w} same = record {
  attempts = rw same (sym (append-nil (attempt_nos w.attempts)));
  observations = rw same (sym (append-nil (observation_nos (written_observations w.attempts))));
}

Appended-then :
    {n k m j k' j' : ℕ} {w u out : Written}
    → Appended n k m j w u
    → Appended (n + k) k' (m + j) j' u out
    → Appended n (k + k') m (j + j') w out
Appended-then {n} {k} {m} {j} {k'} {j'} {w} first later = record {
  attempts =
      rw (later.attempts, first.attempts, numbers_from-append n k k')
        (append_assoc (attempt_nos w.attempts) (numbers_from n k) (numbers_from (n + k) k'));
  observations =
      rw (later.observations, first.observations, numbers_from-append m j j')
        (append_assoc (observation_nos (written_observations w.attempts)) (numbers_from m j)
          (numbers_from (m + j) j'));
}

module _ (production : Bool) (metas : List AttemptMeta) (slots : List ObservationSlot) where
  emit_observations-numbers :
      (meta : AttemptMeta) (oi n : ℕ) (os : List TutoringObservationInput)
      (acc : List ObservationInput × List ObservationEvidence)
      {out : List ObservationInput × List ObservationEvidence}
      → ((index v : ℕ)
          → count_observations meta.key index meta.key oi n os ≡ some v
          → find_slot meta.key index slots ≡ some v)
      → try_fold (emit_observation production slots meta) acc (enumerate_from oi os) ≡ ok out
      → observation_nos out.0 ≡ observation_nos acc.0 ++ numbers_from n (length os)
  unfolding emit_observation compact_observation
  emit_observations-numbers meta oi n [] acc {out} found h =
      let same : out.0 ≡ acc.0 = ground arith in rw same (sym (append-nil (observation_nos acc.0)))
  emit_observations-numbers meta oi n (o ∷ rest) acc {out} found h =
      let (acc', first, later) =
        >>=-eq-ok (emit_observation production slots meta acc (oi, o)) _ h in
      let (number, looked, h1) =
        >>=-eq-ok (ok_or (find_slot meta.key oi slots) TutoringError.missing_key) _ first in
      let (assessed, _, last) =
        >>=-eq-ok (assess production number meta.attempt_no o.assessment) _ h1 in
      let same : find_slot meta.key oi slots ≡ some (n + 1) = found oi (n + 1) (ground arith) in
      let written : acc'.0 ≡ acc.0 ++ compact_observation o (n + 1) ∷ [] =
        ground (arith, same, looked, last) in
      let tail =
        emit_observations-numbers meta (oi + 1) (n + 1) rest acc'
          (λ index v c.
            found index v (
              ground
                (arith, count_observations-ge meta.key index meta.key (oi + 1) (n + 1) rest v)))
          later in
      rw
        (
          tail,
          written,
          map-append (λ (x : ObservationInput). x.observation_no) acc.0
              (compact_observation o (n + 1) ∷ []),
        )
        (append_assoc (observation_nos acc.0) ((n + 1) ∷ []) (numbers_from (n + 1) (length rest)))

  emit_attempt-numbers :
      (ti ai count n m : ℕ) (w : Written) (a : TutoringAttemptInput) {out : Written}
      → numbers_of (find_meta (ti, ai) metas) ≡ some (ti + 1, n + 1)
      → ((index v : ℕ)
          → count_observations (ti, ai) index (ti, ai) 0 m a.observations ≡ some v
          → find_slot (ti, ai) index slots ≡ some v)
      → emit_attempt production metas slots ti count w (ai, a) ≡ ok out
      → Appended n 1 m (length a.observations) w out
  unfolding emit_attempt
  emit_attempt-numbers ti ai count n m w a {out} placed found h =
      let (meta, looked, h1) =
        >>=-eq-ok (ok_or (find_meta (ti, ai) metas) TutoringError.missing_key) _ h in
      let ((os, assessed), written, h2) =
        >>=-eq-ok
          (try_fold (emit_observation production slots meta) ([], [])
            (enumerate_from 0 a.observations))
          _ h1 in
      let ((is, last_no), _, h3) =
        >>=-eq-ok
          (try_fold (emit_intervention production metas count meta)
            (w.interventions, w.intervention_no) a.interventions_after)
          _ h2 in
      let (e, _, last) = >>=-eq-ok (emit_evidence production metas meta a.evidence) _ h3 in
      let here : find_meta (ti, ai) metas ≡ some meta = ground (arith, looked) in
      let key : meta.key ≡ (ti, ai) = find_meta-key (ti, ai) metas meta here in
      let number : meta.attempt_no ≡ n + 1 = ground (arith, here, placed) in
      let attempts : out.attempts ≡ w.attempts ++ attempt_input meta a os ∷ [] =
        ground (arith, last) in
      let numbers : observation_nos os ≡ numbers_from m (length a.observations) =
        emit_observations-numbers meta 0 m a.observations ([], []) (rw key found) written in
      record {
        attempts =
            rw
              (
                attempts,
                map-append (λ (x : AttemptInput). x.attempt_no) w.attempts
                    (attempt_input meta a os ∷ []),
                number,
              )
              refl;
        observations =
            rw
              (
                attempts,
                flat_map-append (λ (x : AttemptInput). x.observations) w.attempts
                    (attempt_input meta a os),
                map-append (λ (x : ObservationInput). x.observation_no)
                    (written_observations w.attempts) os,
                numbers,
              )
              refl;
      }

  emit_attempts-numbers :
      (ti count ai n m : ℕ) (w : Written) (as' : List TutoringAttemptInput) {out : Written}
      → ((k v : ℕ × ℕ)
          → count_attempts k ti ai n as' ≡ some v
          → numbers_of (find_meta k metas) ≡ some v)
      → ((k : ℕ × ℕ) (index v : ℕ)
          → count_in_attempts k index ti ai m as' ≡ some v
          → find_slot k index slots ≡ some v)
      → try_fold (emit_attempt production metas slots ti count) w (enumerate_from ai as') ≡ ok out
      → Appended n (length as') m (observations_in as') w out
  emit_attempts-numbers ti count ai n m w [] placed found h = Appended-nothing n m (ground arith)
  emit_attempts-numbers ti count ai n m w (a ∷ rest) placed found h =
      let (u, first, later) =
        >>=-eq-ok (emit_attempt production metas slots ti count w (ai, a)) _ h in
      let one =
        emit_attempt-numbers ti ai count n m w a (placed (ti, ai) (ti + 1, n + 1) (ground arith))
          (λ index v c. found (ti, ai) index v (ground (arith, c))) first in
      let others =
        emit_attempts-numbers ti count (ai + 1) (n + 1) (m + length a.observations) u rest
          (λ k v c. placed k v (ground (arith, c, count_attempts-ge k ti (ai + 1) (n + 1) rest v)))
          (λ k index v c. found k index v (count_in_attempts-later k index ti ai m a rest v c))
          later in
      let step : suc (length rest) ≡ 1 + length rest = omega arith in
      rw step (Appended-then one others)

  -- The third loop of `expand` numbers what it writes in the order of the turns.
  pub emit_turns-numbers :
      (ti n m : ℕ) (w : Written) (turns : List TutoringTurnInput) {out : Written}
      → ((k v : ℕ × ℕ)
          → count_turns k ti n turns ≡ some v
          → numbers_of (find_meta k metas) ≡ some v)
      → ((k : ℕ × ℕ) (index v : ℕ)
          → count_in_turns k index ti m turns ≡ some v
          → find_slot k index slots ≡ some v)
      → try_fold (emit_turn production metas slots) w (enumerate_from ti turns) ≡ ok out
      → Appended n (attempts_in_turns turns) m (observations_in_turns turns) w out
  unfolding emit_turn
  emit_turns-numbers ti n m w [] placed found h = Appended-nothing n m (ground arith)
  emit_turns-numbers ti n m w (turn ∷ turns) placed found h =
      let (u, first, later) = >>=-eq-ok (emit_turn production metas slots w (ti, turn)) _ h in
      let one =
        emit_attempts-numbers ti (length turn.attempts) 0 n m w turn.attempts
          (λ k v c. placed k v (ground (arith, c)))
          (λ k index v c. found k index v (ground (arith, c))) first in
      let others =
        emit_turns-numbers (ti + 1) (n + length turn.attempts) (m + observations_in turn.attempts) u
          turns (λ k v c. placed k v (count_turns-later k ti n turn turns v c))
          (λ k index v c. found k index v (count_in_turns-later k index ti m turn turns v c))
          later in
      Appended-then one others
