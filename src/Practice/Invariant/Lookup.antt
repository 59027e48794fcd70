-- ===== src/Practice/Invariant/Lookup.antt =====
-- Looking a job up by its identifier, before and after an update of the table.
use aprendiendo.Base.{
  String, Bool, ◌&&◌, Option, none, some, List, [], ◌∷◌, ◌++◌, ◌≡◌, refl, map, any, keep, str_eq,
  eq_iff, arith, is_some_and, is_some, Bool-cases, inl, inr, if◌then◌else◌,
}
use aprendiendo.Practice.Rows.{JobRow, find_job_row}

abbrev pub IsUnique : List JobRow → Type 0
IsUnique [] = Unit
IsUnique (j ∷ js) = (find_job_row j.id js ≡ none) × IsUnique js

abbrev pub map_row : (JobRow → JobRow) → Option JobRow → Option JobRow
map_row g none = none
map_row g (some j) = some (g j)

-- The row that is found has the identifier.
pub find-id : (x : String) (js : List JobRow) {j : JobRow} → find_job_row x js ≡ some j → j.id ≡ x
find-id x [] h = cc
find-id x (k ∷ js) h = elim (Bool-cases (str_eq k.id x)) [
  | inl same ↦ ground (arith, eq_iff k.id x)
  | inr other ↦ find-id x js (rw other at h)
]

module _ (g : JobRow → JobRow) (keeps : (j : JobRow) → (g j).id ≡ j.id) where
  pub find-map :
      (x : String) (js : List JobRow) → find_job_row x (map g js) ≡ map_row g (find_job_row x js)
  find-map x [] = refl
  find-map x (j ∷ js) = ground (arith, keeps j, find-map x js)

  pub IsUnique-map : (js : List JobRow) → IsUnique js → IsUnique (map g js)
  IsUnique-map [] u = tt
  IsUnique-map (j ∷ js) u = (rw (keeps j) (rw (find-map j.id js, u.0)), IsUnique-map js u.1)

-- Where identifiers are unique, `EXISTS` over the table is a test of the row that is found.
pub any-find :
    (p : JobRow → Bool) (x : String) (js : List JobRow)
    → IsUnique js
    → any (λ (j : JobRow). str_eq j.id x && p j) js ≡ is_some_and (find_job_row x js) p
any-find p x [] u = refl
any-find p x (j ∷ js) u = ground (arith, any-find p x js u.1, eq_iff j.id x)

pub find-keep :
    (p : JobRow → Bool) (x : String) (js : List JobRow)
    → IsUnique js
    → find_job_row x (keep p js)
      ≡ (if is_some_and (find_job_row x js) p then find_job_row x js else none)
find-keep p x [] u = refl
find-keep p x (j ∷ js) u = ground (arith, find-keep p x js u.1, eq_iff j.id x)

pub IsUnique-keep : (p : JobRow → Bool) (js : List JobRow) → IsUnique js → IsUnique (keep p js)
IsUnique-keep p [] u = tt
IsUnique-keep p (j ∷ js) u =
    let rest = IsUnique-keep p js u.1 in
    elim (Bool-cases (p j)) [
      | inl yes' ↦ rw yes' (rw (find-keep p j.id js u.1, u.0), rest)
      | inr no' ↦ rw no' rest
    ]

pub find-append :
    (x : String) (js : List JobRow) (k : JobRow)
    → find_job_row x (js ++ k ∷ []) ≡ (
        if is_some (find_job_row x js)
        then find_job_row x js
        else (if str_eq k.id x then some k else none))
find-append x [] k = refl
find-append x (j ∷ js) k = ground (arith, find-append x js k)

pub IsUnique-append :
    (js : List JobRow) (k : JobRow)
    → find_job_row k.id js ≡ none
    → IsUnique js
    → IsUnique (js ++ k ∷ [])
IsUnique-append [] k h u = (refl, tt)
IsUnique-append (j ∷ js) k h u = (
  ground (arith, find-append j.id js k, eq_iff j.id k.id, eq_iff k.id j.id, u.0),
  IsUnique-append js k (ground (arith, eq_iff j.id k.id)) u.1,
)
