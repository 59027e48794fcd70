-- ===== src/Evidence/Phase.antt =====
-- What `normalized_phase` accepts, described without its control flow.
use aprendiendo.Base.{◌≡◌, ok, none, some, ◌↔◌, ◌≢◌, ◌⊎◌, arith, Bool, true, false}
use aprendiendo.Model.Evidence.{ObservationRole, AssessmentPhase, HintLevel, ObservationOutcome}
use aprendiendo.Model.Requests.{ObservationInput}
use aprendiendo.Evidence.{normalized_phase}

-- The phases of deliberate practice.
abbrev pub is_deliberate : AssessmentPhase → Bool
is_deliberate AssessmentPhase.historical = false
is_deliberate AssessmentPhase.incidental = false
is_deliberate _ = true

-- An observation may stand in a phase: an incidental one in `incidental` alone, a targeted one in
-- a deliberate phase that it declares with the strength of its evidence, and in neither case may
-- a shown answer count as correct.
pub record Admissible (o : ObservationInput) (phase : AssessmentPhase) : Type 0 where
  pub role_fits :
      ((o.role ≡ ObservationRole.incidental)
        × (phase ≡ AssessmentPhase.incidental)
        × ((o.assessment_phase ≡ none) ⊎ (o.assessment_phase ≡ some AssessmentPhase.incidental)))
      ⊎ ((o.role ≡ ObservationRole.targeted)
          × (o.assessment_phase ≡ some phase)
          × (is_deliberate phase ≡ true)
          × (o.evidence_strength ≢ none))
  pub not_shown :
      (o.hint_level ≢ some HintLevel.answer_shown) ⊎ (o.outcome ≢ ObservationOutcome.correct)

normalized_phase_sound :
    (o : ObservationInput) (phase : AssessmentPhase)
    → normalized_phase o ≡ ok phase
    → Admissible o phase
unfolding normalized_phase
normalized_phase_sound o phase h = record { role_fits = ground arith; not_shown = ground arith }

normalized_phase_complete :
    (o : ObservationInput) (phase : AssessmentPhase)
    → Admissible o phase
    → normalized_phase o ≡ ok phase
unfolding normalized_phase
normalized_phase_complete o phase h = ground (arith, h.not_shown)

-- The phase that an observation is given is exactly the one in which it is admissible.
pub normalized_phase_iff :
    (o : ObservationInput) (phase : AssessmentPhase)
    → (normalized_phase o ≡ ok phase) ↔ Admissible o phase
normalized_phase_iff o phase = (normalized_phase_sound o phase, normalized_phase_complete o phase)
