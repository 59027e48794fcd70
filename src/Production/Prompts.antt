-- ===== src/Production/Prompts.antt =====
-- `prompt_findings` of src/production.rs: wording in a prompt that gives the target away. The
-- Unicode tables behind `to_lowercase` are a parameter.
use aprendiendo.Base.{
  ℕ, String, Bool, true, false, not, ◌&&◌, ◌||◌, List, [], ◌∷◌, ◌++◌, codes, any, flat_map, str_eq,
  ◌==◌, if◌then◌else◌,
}

pub data FindingCode : Type 0 where
  explicit_construction_or_completion target_construction_supplied : FindingCode

-- The `code` and the `evidence_span` of a finding; its other fields are constant texts.
pub record PromptFinding : Type 0 where
  pub code : FindingCode
  pub evidence_span : String

-- `text.contains(part)`
abbrev pub starts_with : List ℕ → List ℕ → Bool
starts_with [] text = true
starts_with (p ∷ ps) [] = false
starts_with (p ∷ ps) (c ∷ cs) = p == c && starts_with ps cs

abbrev pub contains : List ℕ → List ℕ → Bool
contains part [] = starts_with part []
contains part (c ∷ cs) = starts_with part (c ∷ cs) || contains part cs

abbrev pub construction_markers : List String
construction_markers =
    "exprésalo con" ∷ "expresalo con" ∷ "usando " ∷ "utiliza " ∷ "usa la estructura" ∷ "une las"
    ∷ "completa la frase" ∷ "transforma " ∷ "rellena " ∷ "___" ∷ []

abbrev pub target_markers : List String
target_markers = "llevas" ∷ "llevo" ∷ "lleva " ∷ "llevamos" ∷ "llevar +" ∷ "para que" ∷ []

-- The marker as a finding, if a test holds.
abbrev found_if : Bool → FindingCode → String → List PromptFinding
found_if test code marker = if test then record { code = code; evidence_span = marker } ∷ [] else []

unfoldable pub prompt_findings : (List ℕ → List ℕ) → String → List String → List PromptFinding
prompt_findings to_lowercase prompt targets =
    let lower = to_lowercase (codes prompt) in
    let llevar =
      any (λ k. contains (codes "llevar") (codes k) || contains (codes "duration_llevar") (codes k))
        targets in
    let para = any (λ k. contains (codes "para_que") (codes k)) targets in
    flat_map
      (λ marker.
        found_if (contains (codes marker) lower) FindingCode.explicit_construction_or_completion
          marker)
      construction_markers
    ++ flat_map
        (λ marker.
          found_if
            ((llevar && not (str_eq marker "para que") || para && str_eq marker "para que")
              && contains (codes marker) lower)
            FindingCode.target_construction_supplied marker)
        target_markers
