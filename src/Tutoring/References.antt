-- ===== src/Tutoring/References.antt =====
-- The numbers of observations that the reviews of an expanded session cite are numbers it gave.
use aprendiendo.Base.{
  ℕ, ◌+◌, ◌≤◌, ◌<◌, String, Bool, true, false, Option, none, some, List, [], ◌∷◌, ◌++◌, ◌≡◌, ok,
  bail_if, ok_or, try_fold, >>=-eq-ok, is_empty, length, arith, has, All, All-append,
}
use aprendiendo.Model.Requests.{ReviewInput}
use aprendiendo.Model.Production.{VariationAssessment, ProductionEvidence}
use aprendiendo.Model.Session.{RecordPracticeSessionRequest}
use aprendiendo.Evidence.Numbers.{numbers_of as session_numbers, all_observations}
use aprendiendo.Tutoring.Requests.{
  TutoringObservationReference, TutoringReviewInput, TutoringVariationInput,
  TutoringObservationInput, TutoringAttemptInput, TutoringTurnInput, RecordTutoringSessionRequest,
}
use aprendiendo.Tutoring.Checks.{TutoringError, text, checked_index}
use aprendiendo.Tutoring.Scan.{
  ObservationSlot, find_slot, attempts_at, observations_at, resolve_observation,
}
use aprendiendo.Tutoring.Emit.{Written}
use aprendiendo.Tutoring.Expand.{
  collect, production_present, emit_variation, review_of, emit_review, evidence_envelope, no_slots,
  expand,
}
use aprendiendo.Tutoring.Slots.{
  count_observations, count_in_attempts, count_in_turns, observations_in, observations_in_turns,
  number_turns-ok,
}
use aprendiendo.Tutoring.Whole.{expand-Expanded, has-numbers_from, expand-numbers}

-- Counting stays within the numbers of the observations.
count_observations-range :
    (k : ℕ × ℕ) (index : ℕ) (key : ℕ × ℕ) (oi n : ℕ) (os : List TutoringObservationInput) (v : ℕ)
    → count_observations k index key oi n os ≡ some v
    → (n < v) × (v ≤ n + length os)
count_observations-range k index key oi n [] v h = absurd (cc)
count_observations-range k index key oi n (o ∷ rest) v h =
    ground (arith, count_observations-range k index key (oi + 1) (n + 1) rest v)

count_in_attempts-range :
    (k : ℕ × ℕ) (index ti ai n : ℕ) (as' : List TutoringAttemptInput) (v : ℕ)
    → count_in_attempts k index ti ai n as' ≡ some v
    → (n < v) × (v ≤ n + observations_in as')
count_in_attempts-range k index ti ai n [] v h = absurd (cc)
count_in_attempts-range k index ti ai n (a ∷ rest) v h = ground (
  arith,
  count_observations-range k index (ti, ai) 0 n a.observations v,
  count_in_attempts-range k index ti (ai + 1) (n + length a.observations) rest v,
)

count_in_turns-range :
    (k : ℕ × ℕ) (index ti n : ℕ) (turns : List TutoringTurnInput) (v : ℕ)
    → count_in_turns k index ti n turns ≡ some v
    → (n < v) × (v ≤ n + observations_in_turns turns)
count_in_turns-range k index ti n [] v h = absurd (cc)
count_in_turns-range k index ti n (turn ∷ turns) v h = ground (
  arith,
  count_in_attempts-range k index ti 0 n turn.attempts v,
  count_in_turns-range k index (ti + 1) (n + observations_in turn.attempts) turns v,
)

module _ (turns : List TutoringTurnInput) (slots : List ObservationSlot) (P : ℕ → Type 0)
    (numbers : (k : ℕ × ℕ) (index v : ℕ) → find_slot k index slots ≡ some v → P v) where
  resolve_observation-All :
      (r : TutoringObservationReference) (v : ℕ) → resolve_observation r turns slots ≡ ok v → P v
  unfolding resolve_observation
  resolve_observation-All r v h =
      let (turn, _, h1) = >>=-eq-ok (checked_index r.turn (length turns)) _ h in
      let (attempt, _, h2) =
        >>=-eq-ok (checked_index r.attempt (length (attempts_at turn turns))) _ h1 in
      let (o, _, h3) =
        >>=-eq-ok
          (checked_index r.observation (length (observations_at attempt (attempts_at turn turns))))
          _ h2 in
      numbers (turn, attempt) o v (ground (arith, h3))

  collect-All :
      (rs : List TutoringObservationReference) (vs : List ℕ)
      → collect (λ r. resolve_observation r turns slots) rs ≡ ok vs
      → All P vs
  collect-All [] vs h = let nothing : vs ≡ [] = ground arith in rw nothing tt
  collect-All (r ∷ rs) vs h =
      let (v, first, h1) = >>=-eq-ok (resolve_observation r turns slots) _ h in
      let (ws, later, last) =
        >>=-eq-ok (collect (λ r'. resolve_observation r' turns slots) rs) _ h1 in
      let all : vs ≡ v ∷ ws = ground (arith, last) in
      rw all (resolve_observation-All r v first, collect-All rs ws later)

  emit_variation-All :
      (present : Bool) (target : String) (variation : Option TutoringVariationInput)
      (out : List VariationAssessment)
      → emit_variation present turns slots target variation ≡ ok out
      → All (λ (a : VariationAssessment). All P a.observation_nos) out
  unfolding emit_variation
  emit_variation-All true target (some variation) out h =
      let (_, _, h1) =
        >>=-eq-ok (bail_if (is_empty variation.observation_refs) TutoringError.empty_variation) _
          h in
      let (vs, collected, h2) =
        >>=-eq-ok (collect (λ r'. resolve_observation r' turns slots) variation.observation_refs) _
          h1 in
      let (_, _, last) = >>=-eq-ok (text variation.rationale 2000) _ h2 in
      let one : out
          ≡ record { weakness_key = target; observation_nos = vs; rationale = variation.rationale }
            ∷ [] =
        ground (arith, last) in
      rw one (collect-All variation.observation_refs vs collected, tt)
  emit_variation-All true target none out h = let nothing : out ≡ [] = ground arith in rw nothing tt
  emit_variation-All false target variation out h =
      let nothing : out ≡ [] = ground arith in rw nothing tt

  emit_reviews-All :
      (present : Bool) (reviews : List TutoringReviewInput)
      (acc out : List ReviewInput × List VariationAssessment)
      → All (λ (a : ReviewInput). All P a.evidence_observation_nos) acc.0
      → All (λ (a : VariationAssessment). All P a.observation_nos) acc.1
      → try_fold (emit_review present turns slots) acc reviews ≡ ok out
      → All (λ (a : ReviewInput). All P a.evidence_observation_nos) out.0
        × All (λ (a : VariationAssessment). All P a.observation_nos) out.1
  unfolding emit_review
  emit_reviews-All present [] acc out cited varied h =
      let same : out ≡ acc = ground arith in rw same (cited, varied)
  emit_reviews-All present (r ∷ reviews) acc out cited varied h =
      let (next, first, later) = >>=-eq-ok (emit_review present turns slots acc r) _ h in
      let (_, _, h1) = >>=-eq-ok (text r.target 160) _ first in
      let (vs, collected, h2) =
        >>=-eq-ok (collect (λ o. resolve_observation o turns slots) r.observation_refs) _ h1 in
      let (ws, variation, last) =
        >>=-eq-ok (emit_variation present turns slots r.target r.variation) _ h2 in
      let step : next ≡ (acc.0 ++ review_of r vs ∷ [], acc.1 ++ ws) = ground (arith, last) in
      let cited' =
        All-append (λ (a : ReviewInput). All P a.evidence_observation_nos) acc.0
          (review_of r vs ∷ []) cited (collect-All r.observation_refs vs collected, tt) in
      let varied' =
        All-append (λ (a : VariationAssessment). All P a.observation_nos) acc.1 ws varied
          (emit_variation-All present r.target r.variation ws variation) in
      emit_reviews-All present reviews next out (rw step cited') (rw step varied') later

-- The variation assessments of a canonical session.
abbrev pub variations_of : Option ProductionEvidence → List VariationAssessment
variations_of none = []
variations_of (some e) = e.variation_assessments

-- A number that some observation of the session has.
abbrev pub IsObserved : RecordPracticeSessionRequest → ℕ → Type 0
IsObserved out n = has n (session_numbers (all_observations out)) ≡ true

evidence_envelope-variations :
    (present : Bool) (r : RecordTutoringSessionRequest) (w : Written)
    (vs : List VariationAssessment) (P : VariationAssessment → Type 0)
    (out : Option ProductionEvidence)
    → All P vs
    → evidence_envelope present r w vs ≡ ok out
    → All P (variations_of out)
unfolding evidence_envelope
evidence_envelope-variations false r w vs P out all h =
    let nothing : out ≡ none = ground arith in rw nothing tt
evidence_envelope-variations true r w vs P out all h =
    let (version, _, last) =
      >>=-eq-ok (ok_or r.policy_version TutoringError.policy_version_required) _ h in
    let same : variations_of out ≡ vs = ground (arith, last) in rw same all

-- Every observation that a review or a variation assessment of an expanded session cites is an
-- observation of that session.
pub expand-citations :
    (r : RecordTutoringSessionRequest) (out : RecordPracticeSessionRequest)
    → expand r ≡ ok out
    → All (λ (a : ReviewInput). All (IsObserved out) a.evidence_observation_nos) out.reviews
      × All
          (λ (a : VariationAssessment). All (IsObserved out) a.observation_nos)
          (variations_of out.production_evidence)
expand-citations r out h =
    let e = expand-Expanded r h in
    let counted = number_turns-ok no_slots 0 r.turns e.numbered in
    let (_, numbers) = expand-numbers r out h in
    let within : (k : ℕ × ℕ) (index v : ℕ)
        → find_slot k index e.slots.entries ≡ some v
        → IsObserved out v =
      λ k index v found. rw numbers (
        (has-numbers_from v 0 (observations_in_turns r.turns)).1
          (count_in_turns-range k index 0 0 r.turns v (ground (arith, counted.found k index)))) in
    let present = production_present r.turns r.reviews in
    let (cited, varied) =
      emit_reviews-All r.turns e.slots.entries (IsObserved out) within present r.reviews ([], [])
        (out.reviews, e.variations) tt tt e.reviewed in
    (
      cited,
      evidence_envelope-variations present r e.written e.variations _ out.production_evidence varied
          e.envelope,
    )
