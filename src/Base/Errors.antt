-- ===== src/Base/Errors.antt =====
-- `Result<A, E>` and the early returns of the source: `?`, `bail!` under a test, and loops
-- over a collection that stop at the first error.
use mathlib.Core.Path.{◌≡◌, refl, ap, fun_ext}
use mathlib.Core.Logic.{◌⊎◌, inl, inr}
use mathlib.Core.Bool.{Bool, true, false}
use mathlib.Core.Option.{Option, none, some}
use mathlib.Core.List.{List, [], ◌∷◌, ◌++◌}
use aprendiendo.Base.Lists.{flat_map, All}

pub data Outcome {ℓ} (E : Type 0) (A : Type ℓ) : Type ℓ where
  ok : A → Outcome E A
  err : E → Outcome E A

infixl 5 ◌>>=◌ ◌>>◌
abbrev pub ◌>>=◌ {ℓ κ} :
    {E : Type 0} {A : Type ℓ} {B : Type κ} → Outcome E A → (A → Outcome E B) → Outcome E B
err failure >>= _ = err failure
ok value >>= rest = rest value

abbrev pub ◌>>◌ {ℓ} : {E : Type 0} {B : Type ℓ} → Outcome E (Unit {0}) → Outcome E B → Outcome E B
first >> second = first >>= λ _. second

-- `if bad { bail!(e) }`
abbrev pub bail_if : {E : Type 0} → Bool → E → Outcome E (Unit {0})
bail_if true e = err e
bail_if false e = ok tt

-- `option.ok_or(e)?`
abbrev pub ok_or {ℓ} : {E : Type 0} {A : Type ℓ} → Option A → E → Outcome E A
ok_or none e = err e
ok_or (some a) e = ok a

-- `for x in xs { body(x)?; }`
abbrev pub for_each {ℓ} :
    {E : Type 0} {A : Type ℓ} → (A → Outcome E (Unit {0})) → List A → Outcome E (Unit {0})
for_each f [] = ok tt
for_each f (x ∷ xs) = f x >>= λ _. for_each f xs

-- `for x in xs { state = body(state, x)?; }`
abbrev pub try_fold {ℓ} :
    {E S : Type 0} {A : Type ℓ} → (S → A → Outcome E S) → S → List A → Outcome E S
try_fold f s [] = ok s
try_fold f s (x ∷ xs) = f s x >>= λ s'. try_fold f s' xs

abbrev pub is_ok {ℓ} : {E : Type 0} {A : Type ℓ} → Outcome E A → Bool
is_ok (ok _) = true
is_ok (err _) = false

pub Outcome-cases {ℓ} :
    {E : Type 0} {A : Type ℓ} (m : Outcome E A) → ((a : A) × (m ≡ ok a)) ⊎ ((e : E) × (m ≡ err e))
Outcome-cases (ok a) = inl (a, refl)
Outcome-cases (err e) = inr (e, refl)

-- Inversion of a successful bind.
pub >>=-eq-ok {ℓ κ} :
    {E : Type 0} {A : Type ℓ} {B : Type κ} (first : Outcome E A) (rest : A → Outcome E B)
    {result : B}
    → (first >>= rest) ≡ ok result
    → (value : A) × (first ≡ ok value) × (rest value ≡ ok result)
>>=-eq-ok (err failure) rest h = cc
>>=-eq-ok (ok value) rest h = (value, refl, h)

>>=_assoc {ℓ κ μ} :
    {E : Type 0} {A : Type ℓ} {B : Type κ} {C : Type μ} (m : Outcome E A) (f : A → Outcome E B)
    (g : B → Outcome E C)
    → ((m >>= f) >>= g) ≡ (m >>= λ a. f a >>= g)
>>=_assoc (ok a) f g = refl
>>=_assoc (err e) f g = refl

-- A loop over a concatenation, and a loop of loops, are one loop.
module _ {ℓ} {E S : Type 0} {A : Type ℓ} (f : S → A → Outcome E S) where
  pub try_fold-append :
      (s : S) (xs ys : List A)
      → try_fold f s (xs ++ ys) ≡ (try_fold f s xs >>= λ s'. try_fold f s' ys)
  try_fold-append s [] ys = refl
  try_fold-append s (x ∷ xs) ys =
      rw (>>=_assoc (f s x)) (ap (λ k. f s x >>= k) (fun_ext (λ s'. try_fold-append s' xs ys)))

  pub try_fold-flat_map {κ} :
      {B : Type κ} (g : B → List A) (s : S) (bs : List B)
      → try_fold (λ s' b. try_fold f s' (g b)) s bs ≡ try_fold f s (flat_map g bs)
  try_fold-flat_map g s [] = refl
  try_fold-flat_map g s (b ∷ bs) =
      rw (try_fold-append s (g b) (flat_map g bs))
        (ap (λ k. try_fold f s (g b) >>= k) (fun_ext (λ s'. try_fold-flat_map g s' bs)))

pub is_ok-bind {ℓ κ} :
    {E : Type 0} {A : Type ℓ} {B : Type κ} (m : Outcome E A) (f : A → Outcome E B)
    → is_ok (m >>= f) ≡ true
    → is_ok m ≡ true
is_ok-bind (ok a) f h = refl
is_ok-bind (err e) f h = h

pub is_ok-eq_ok : {E : Type 0} (m : Outcome E (Unit {0})) → is_ok m ≡ true → m ≡ ok tt
is_ok-eq_ok (ok tt) h = refl
is_ok-eq_ok (err e) h = cc

-- A loop that ends has accepted every element.
pub for_each-All {ℓ} :
    {E : Type 0} {A : Type ℓ} (f : A → Outcome E (Unit {0})) (xs : List A)
    → for_each f xs ≡ ok tt
    → All (λ x. f x ≡ ok tt) xs
for_each-All f [] h = tt
for_each-All f (x ∷ xs) h =
    let (unit, first, rest) = >>=-eq-ok (f x) _ h in (first, for_each-All f xs rest)

-- What every turn of a loop keeps, the loop keeps.
pub try_fold-keeps {ℓ κ} :
    {E S : Type 0} {A : Type ℓ} (f : S → A → Outcome E S) (P : S → Type κ)
    → ((s s' : S) (x : A) → P s → f s x ≡ ok s' → P s')
    → (s : S) (xs : List A) {out : S} → P s
    → try_fold f s xs ≡ ok out
    → P out
try_fold-keeps f P keeps s [] {out} p h = let same : out ≡ s = cc in rw same p
try_fold-keeps f P keeps s (x ∷ xs) p h =
    let (s', first, later) = >>=-eq-ok (f s x) _ h in
    try_fold-keeps f P keeps s' xs (keeps s s' x p first) later
