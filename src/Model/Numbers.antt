-- ===== src/Model/Numbers.antt =====
-- The numbers of the attempts and observations of a session, and those that evidence is about.
use aprendiendo.Base.{ℕ, List, map, flat_map}
use aprendiendo.Model.Requests.{AttemptInput, ObservationInput}
use aprendiendo.Model.Production.{AttemptEvidence, ObservationEvidence}

abbrev pub attempt_nos : List AttemptInput → List ℕ
attempt_nos attempts = map (λ (a : AttemptInput). a.attempt_no) attempts

abbrev pub observation_nos : List ObservationInput → List ℕ
observation_nos os = map (λ (o : ObservationInput). o.observation_no) os

abbrev pub written_observations : List AttemptInput → List ObservationInput
written_observations attempts = flat_map (λ (a : AttemptInput). a.observations) attempts

abbrev pub evidence_nos : List AttemptEvidence → List ℕ
evidence_nos es = map (λ (e : AttemptEvidence). e.attempt_no) es

abbrev pub assessed_nos : List ObservationEvidence → List ℕ
assessed_nos es = map (λ (e : ObservationEvidence). e.observation_no) es
