-- ===== src/Tutoring/Whole.antt =====
-- The canonical session that `expand` returns: its numbers, and what the other checks make of it.
use mathlib.Core.List.{append-nil}
use aprendiendo.Base.{
  ℕ, zero, suc, ◌+◌, ◌≤◌, ◌<◌, ◌↔◌, Bool, true, ◌&&◌, List, [], ◌∷◌, ◌++◌, ◌≡◌, refl, ap, flat_map,
  flat_map-append, ok, bail_if, try_fold, is_ok, >>=-eq-ok, is_none, arith, has, All, All-weaken,
  IsDistinct,
}
use aprendiendo.Model.Requests.{ObservationInput, PracticeItemInput}
use aprendiendo.Model.Production.{VariationAssessment}
use aprendiendo.Model.Numbers.{attempt_nos, observation_nos, written_observations}
use aprendiendo.Model.Session.{RecordPracticeSessionRequest}
use aprendiendo.Evidence.{normalized_phase, validate_session_observation_numbers}
use aprendiendo.Evidence.Numbers.{
  IsNumbered, numbers_of as session_numbers, all_observations, session_numbers_iff,
}
use aprendiendo.Tutoring.Requests.{TutoringTurnInput, RecordTutoringSessionRequest}
use aprendiendo.Tutoring.Checks.{TutoringError, enumerate_from, to_u16}
use aprendiendo.Tutoring.Scan.{Totals, Slots, scan_turn, number_turn}
use aprendiendo.Tutoring.Emit.{Written, emit_turn}
use aprendiendo.Tutoring.Expand.{
  collect, check_request, production_present, emit_item, item_of, item_feedback, emit_review,
  evidence_envelope, emit_assessment, no_totals, no_slots, nothing_written, expand,
}
use aprendiendo.Tutoring.Numbers.{scan_turns-ok}
use aprendiendo.Tutoring.Slots.{observations_in_turns, number_turns-ok}
use aprendiendo.Tutoring.Order.{numbers_from, attempts_in_turns, emit_turns-numbers}

-- The values between the loops of a call that returns `out`.
pub record Expanded (r : RecordTutoringSessionRequest) (out : RecordPracticeSessionRequest)
    : Type 0 where
  pub totals : Totals
  pub slots : Slots
  pub written : Written
  pub variations : List VariationAssessment
  pub scanned : try_fold (scan_turn r.turns) no_totals (enumerate_from 0 r.turns) ≡ ok totals
  pub numbered : try_fold number_turn no_slots (enumerate_from 0 r.turns) ≡ ok slots
  pub items :
      try_fold (emit_item (production_present r.turns r.reviews)) [] (enumerate_from 0 r.turns)
      ≡ ok out.items
  pub emitted :
      try_fold
        (emit_turn (production_present r.turns r.reviews) totals.metas slots.entries)
        nothing_written
        (enumerate_from 0 r.turns)
      ≡ ok written
  pub reviewed :
      try_fold
        (emit_review (production_present r.turns r.reviews) r.turns slots.entries)
        ([], [])
        r.reviews
      ≡ ok (out.reviews, variations)
  pub envelope :
      evidence_envelope (production_present r.turns r.reviews) r written variations
      ≡ ok out.production_evidence
  pub attempts : out.attempts ≡ written.attempts
  pub observations : out.observations ≡ []

pub expand-Expanded :
    (r : RecordTutoringSessionRequest) {out : RecordPracticeSessionRequest}
    → expand r ≡ ok out
    → Expanded r out
unfolding expand
expand-Expanded r {out} h =
    let present = production_present r.turns r.reviews in
    let turns = enumerate_from 0 r.turns in
    let (_, _, h1) = >>=-eq-ok (check_request r) _ h in
    let (totals, scanned, h2) = >>=-eq-ok (try_fold (scan_turn r.turns) no_totals turns) _ h1 in
    let (slots, numbered, h3) = >>=-eq-ok (try_fold number_turn no_slots turns) _ h2 in
    let (_, _, h4) =
      >>=-eq-ok
        (bail_if (present && is_none r.policy_version) TutoringError.policy_version_required) _
        h3 in
    let (items, itemised, h5) = >>=-eq-ok (try_fold (emit_item present) [] turns) _ h4 in
    let (written, emitted, h6) =
      >>=-eq-ok (try_fold (emit_turn present totals.metas slots.entries) nothing_written turns) _
        h5 in
    let ((reviews, variations), reviewed, h7) =
      >>=-eq-ok (try_fold (emit_review present r.turns slots.entries) ([], []) r.reviews) _ h6 in
    let (evidence, wrapped, h8) = >>=-eq-ok (evidence_envelope present r written variations) _ h7 in
    let (points, _, last) =
      >>=-eq-ok (collect (emit_assessment r.turns totals.metas) r.task_assessments) _ h8 in
    record {
      totals = totals;
      slots = slots;
      written = written;
      variations = variations;
      scanned = scanned;
      numbered = numbered;
      items = ground (arith, itemised, last);
      emitted = emitted;
      reviewed = ground (arith, reviewed, last);
      envelope = ground (arith, wrapped, last);
      attempts = ground (arith, last);
      observations = ground (arith, last);
    }

session_numbers-map : (os : List ObservationInput) → session_numbers os ≡ observation_nos os
session_numbers-map [] = refl
session_numbers-map (o ∷ os) = ap (λ l. o.observation_no ∷ l) (session_numbers-map os)

-- No item that is written has observations.
emit_items-bare :
    (present : Bool) (items : List PracticeItemInput) (ti : ℕ) (turns : List TutoringTurnInput)
    {out : List PracticeItemInput}
    → flat_map (λ (i : PracticeItemInput). i.observations) items ≡ []
    → try_fold (emit_item present) items (enumerate_from ti turns) ≡ ok out
    → flat_map (λ (i : PracticeItemInput). i.observations) out ≡ []
unfolding emit_item
emit_items-bare present items ti [] bare h = ground arith
emit_items-bare present items ti (turn ∷ turns) bare h =
    let (next, first, later) = >>=-eq-ok (emit_item present items (ti, turn)) _ h in
    let (item_no, _, h1) = >>=-eq-ok (to_u16 (ti + 1)) _ first in
    let (feedback, _, last) = >>=-eq-ok (item_feedback present turn) _ h1 in
    let i = item_of turn item_no feedback in
    let step : next ≡ items ++ i ∷ [] = ground (arith, last) in
    emit_items-bare present next (ti + 1) turns
      (rw (step, flat_map-append (λ (j : PracticeItemInput). j.observations) items i, bare) refl)
      later

pub has-numbers_from : (v n k : ℕ) → (has v (numbers_from n k) ≡ true) ↔ ((n < v) × (v ≤ n + k))
has-numbers_from v n zero = ((λ h. absurd (cc)), (λ h. absurd (omega arith)))
has-numbers_from v n (suc k) =
    let ih = has-numbers_from v (n + 1) k in
    ((λ h. ground (arith, ih.0)), (λ h. ground (arith, ih.1)))

numbers_from-IsDistinct : (n k : ℕ) → IsDistinct (numbers_from n k)
numbers_from-IsDistinct n zero = tt
numbers_from-IsDistinct n (suc k) =
    (ground (arith, has-numbers_from (n + 1) (n + 1) k), numbers_from-IsDistinct (n + 1) k)

-- All observations of the result stand below its attempts.
pub session_numbers-Expanded :
    (r : RecordTutoringSessionRequest) (out : RecordPracticeSessionRequest) (e : Expanded r out)
    → session_numbers (all_observations out)
      ≡ observation_nos (written_observations e.written.attempts)
session_numbers-Expanded r out e =
    let bare = emit_items-bare (production_present r.turns r.reviews) [] 0 r.turns refl e.items in
    rw
      (
        session_numbers-map (all_observations out),
        e.observations,
        e.attempts,
        bare,
        append-nil (written_observations e.written.attempts),
      )
      refl

-- The attempts of an expanded session are numbered 1, 2, 3, … in the order of turns and attempts,
-- and so are all its observations, as many as the request has.
pub expand-numbers :
    (r : RecordTutoringSessionRequest) (out : RecordPracticeSessionRequest)
    → expand r ≡ ok out
    → (attempt_nos out.attempts ≡ numbers_from 0 (attempts_in_turns r.turns))
      × (session_numbers (all_observations out) ≡ numbers_from 0 (observations_in_turns r.turns))
expand-numbers r out h =
    let e = expand-Expanded r h in
    let found = scan_turns-ok r.turns no_totals 0 r.turns e.scanned in
    let slots = number_turns-ok no_slots 0 r.turns e.numbered in
    let appended =
      emit_turns-numbers (production_present r.turns r.reviews) e.totals.metas e.slots.entries 0 0 0
        nothing_written r.turns (λ k v c. ground (arith, found k, c))
        (λ k index v c. ground (arith, slots.found k index, c)) e.emitted in
    (rw e.attempts appended.attempts, rw (session_numbers-Expanded r out e) appended.observations)

IsNumbered-numbers_from :
    (os : List ObservationInput) (n k : ℕ)
    → session_numbers os ≡ numbers_from n k
    → All (λ o. is_ok (normalized_phase o) ≡ true) os
    → All (IsNumbered []) os
IsNumbered-numbers_from [] n k h accepted = tt
IsNumbered-numbers_from (o ∷ os) n zero h accepted = absurd (cc)
IsNumbered-numbers_from (o ∷ os) n (suc k) h accepted =
    let number : o.observation_no ≡ n + 1 = cc in
    (
      record { positive = omega (arith, number); unused = refl; accepted = accepted.0 },
      IsNumbered-numbers_from os (n + 1) k (cc) accepted.1,
    )

-- An expanded session passes the validation of observation numbers exactly when the phase of each
-- of its observations is admissible: the numbers that `expand` gives are never refused.
pub expand-validates_iff :
    (r : RecordTutoringSessionRequest) (out : RecordPracticeSessionRequest)
    → expand r ≡ ok out
    → (validate_session_observation_numbers out ≡ ok tt)
      ↔ All (λ o. is_ok (normalized_phase o) ≡ true) (all_observations out)
expand-validates_iff r out h =
    let (_, numbers) = expand-numbers r out h in
    let k = observations_in_turns r.turns in
    (
      (λ valid.
          All-weaken (λ o (n : IsNumbered [] o). n.accepted) (all_observations out)
            ((session_numbers_iff out).0 valid).0),
      (λ accepted. (session_numbers_iff out).1 (
        IsNumbered-numbers_from (all_observations out) 0 k numbers accepted,
        rw numbers (numbers_from-IsDistinct 0 k),
      )),
    )
