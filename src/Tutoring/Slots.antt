-- ===== src/Tutoring/Slots.antt =====
-- The numbers that `expand` gives to the observations, found by their indices.
use aprendiendo.Base.{
  ℕ, ◌+◌, ◌&&◌, Option, none, some, List, [], ◌∷◌, ◌++◌, ◌≡◌, ok, try_fold, >>=-eq-ok, or_else,
  length, ◌==◌, if◌then◌else◌, arith,
}
use aprendiendo.Tutoring.Requests.{
  TutoringObservationInput, TutoringAttemptInput, TutoringTurnInput,
}
use aprendiendo.Tutoring.Checks.{to_u16, enumerate_from}
use aprendiendo.Tutoring.Scan.{
  ObservationSlot, Slots, find_slot, same_key, number_one, number_attempt, number_turn,
}

-- The number of an observation by counting, after `n` earlier ones.
abbrev pub count_observations : ℕ × ℕ → ℕ → ℕ × ℕ → ℕ → ℕ → List TutoringObservationInput → Option ℕ
count_observations k index key oi n [] = none
count_observations k index key oi n (o ∷ rest) =
    let later = count_observations k index key (oi + 1) (n + 1) rest in
    if same_key key k && oi == index then some (n + 1) else later

abbrev pub observations_in : List TutoringAttemptInput → ℕ
observations_in [] = 0
observations_in (a ∷ rest) = length a.observations + observations_in rest

abbrev pub count_in_attempts : ℕ × ℕ → ℕ → ℕ → ℕ → ℕ → List TutoringAttemptInput → Option ℕ
count_in_attempts k index ti ai n [] = none
count_in_attempts k index ti ai n (a ∷ rest) =
    or_else (count_observations k index (ti, ai) 0 n a.observations)
      (count_in_attempts k index ti (ai + 1) (n + length a.observations) rest)

abbrev pub count_in_turns : ℕ × ℕ → ℕ → ℕ → ℕ → List TutoringTurnInput → Option ℕ
count_in_turns k index ti n [] = none
count_in_turns k index ti n (turn ∷ turns) =
    or_else (count_in_attempts k index ti 0 n turn.attempts)
      (count_in_turns k index (ti + 1) (n + observations_in turn.attempts) turns)

find_slot-append :
    (k : ℕ × ℕ) (index : ℕ) (es : List ObservationSlot) (e : ObservationSlot)
    → find_slot k index (es ++ e ∷ [])
      ≡ or_else
          (find_slot k index es)
          (if same_key e.key k && e.index == index then some e.number else none)
find_slot-append k index [] e = ground arith
find_slot-append k index (d ∷ es) e = ground (arith, find_slot-append k index es e)

-- What a loop makes of the counter and of each entry.
pub record Counted (s : Slots) (added : ℕ) (count : ℕ × ℕ → ℕ → Option ℕ) (out : Slots)
    : Type 0 where
  pub next : out.next ≡ s.next + added
  pub found :
      (k : ℕ × ℕ) (index : ℕ)
      → find_slot k index out.entries ≡ or_else (find_slot k index s.entries) (count k index)

number_one-ok :
    (key : ℕ × ℕ) (s : Slots) (oi : ℕ) (o : TutoringObservationInput) {out : Slots}
    → number_one key s (oi, o) ≡ ok out
    → Counted s 1 (λ k index. if same_key key k && oi == index then some (s.next + 1) else none) out
unfolding number_one
number_one-ok key s oi o {out} h =
    let (n, first, last) = >>=-eq-ok (to_u16 (s.next + 1)) _ h in
    let e : ObservationSlot = record { key = key; index = oi; number = n } in
    let number : n ≡ s.next + 1 = ground (arith, first) in
    let entries : out.entries ≡ s.entries ++ e ∷ [] = ground (arith, last) in
    record {
      next = ground (arith, number, last);
      found = λ k index.
          rw entries (rw (find_slot-append k index s.entries e) (ground (arith, number)));
    }

number_observations-ok :
    (key : ℕ × ℕ) (s : Slots) (oi : ℕ) (os : List TutoringObservationInput) {out : Slots}
    → try_fold (number_one key) s (enumerate_from oi os) ≡ ok out
    → Counted s (length os) (λ k index. count_observations k index key oi s.next os) out
number_observations-ok key s oi [] h = record {
  next = ground arith;
  found = λ k index. ground arith;
}
number_observations-ok key s oi (o ∷ rest) h =
    let (u, first, later) = >>=-eq-ok (number_one key s (oi, o)) _ h in
    let c = number_one-ok key s oi o first in
    let d = number_observations-ok key u (oi + 1) rest later in
    record {
      next = ground (arith, c.next, d.next);
      found = λ k index. ground (arith, c.next, c.found k index, d.found k index);
    }

number_attempts-ok :
    (ti : ℕ) (s : Slots) (ai : ℕ) (as' : List TutoringAttemptInput) {out : Slots}
    → try_fold (number_attempt ti) s (enumerate_from ai as') ≡ ok out
    → Counted s (observations_in as') (λ k index. count_in_attempts k index ti ai s.next as') out
unfolding number_attempt
number_attempts-ok ti s ai [] h = record { next = ground arith; found = λ k index. ground arith }
number_attempts-ok ti s ai (a ∷ rest) h =
    let (u, first, later) = >>=-eq-ok (number_attempt ti s (ai, a)) _ h in
    let c = number_observations-ok (ti, ai) s 0 a.observations first in
    let d = number_attempts-ok ti u (ai + 1) rest later in
    record {
      next = ground (arith, c.next, d.next);
      found = λ k index. ground (arith, c.next, c.found k index, d.found k index);
    }

abbrev pub observations_in_turns : List TutoringTurnInput → ℕ
observations_in_turns [] = 0
observations_in_turns (turn ∷ turns) = observations_in turn.attempts + observations_in_turns turns

-- The numbering finds each observation where counting does.
pub number_turns-ok :
    (s : Slots) (ti : ℕ) (turns : List TutoringTurnInput) {out : Slots}
    → try_fold number_turn s (enumerate_from ti turns) ≡ ok out
    → Counted s
        (observations_in_turns turns)
        (λ k index. count_in_turns k index ti s.next turns)
        out
unfolding number_turn
number_turns-ok s ti [] h = record { next = ground arith; found = λ k index. ground arith }
number_turns-ok s ti (turn ∷ turns) h =
    let (u, first, later) = >>=-eq-ok (number_turn s (ti, turn)) _ h in
    let c = number_attempts-ok ti s 0 turn.attempts first in
    let d = number_turns-ok u (ti + 1) turns later in
    record {
      next = ground (arith, c.next, d.next);
      found = λ k index. ground (arith, c.next, c.found k index, d.found k index);
    }
