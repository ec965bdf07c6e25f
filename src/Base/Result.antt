-- ===== src/Base/Result.antt =====
-- Code that may raise: a value or an error.
use mathlib.Core.Path.{◌≡◌, refl}
use mathlib.Core.Bool.{Bool, true, false}
use mathlib.Core.Logic.{◌⊎◌, inl, inr}
use mathlib.Core.List.{List, [], ◌∷◌}

pub data Result {ℓ κ} (E : Type ℓ) (A : Type κ) : Type (ℓ ⊔ κ) where
  ok : A → Result E A
  err : E → Result E A

infixl 5 ◌>>=◌ ◌>>◌
abbrev pub ◌>>=◌ {ℓ κ μ} :
    {E : Type ℓ} {A : Type κ} {B : Type μ} → Result E A → (A → Result E B) → Result E B
err e >>= rest = err e
ok x >>= rest = rest x

abbrev pub ◌>>◌ {ℓ κ} : {E : Type ℓ} {Y : Type κ} → Result E (Unit {0}) → Result E Y → Result E Y
check >> rest = check >>= λ u. rest

-- `if b: raise e`
abbrev pub raise_if {ℓ} : {E : Type ℓ} → Bool → E → Result E (Unit {0})
raise_if true e = err e
raise_if false e = ok tt

abbrev pub is_ok {ℓ κ} : {E : Type ℓ} {A : Type κ} → Result E A → Bool
is_ok (ok a) = true
is_ok (err e) = false

-- A loop whose body may raise.
abbrev pub for_each {ℓ κ} :
    {E : Type ℓ} {A : Type κ} → List A → (A → Result E (Unit {0})) → Result E (Unit {0})
for_each [] f = ok tt
for_each (x ∷ xs) f = f x >> for_each xs f

-- To split on a computed result and keep the equation.
pub Result-cases {ℓ κ} :
    {E : Type ℓ} {X : Type κ} (r : Result E X) → ((e : E) × (r ≡ err e)) ⊎ ((x : X) × (r ≡ ok x))
Result-cases (ok x) = inr (x, refl)
Result-cases (err e) = inl (e, refl)

-- Two values of one result are the same value.
pub ok-injective {ℓ κ} :
    {E : Type ℓ} {X : Type κ} (x y : X) → ◌≡◌ {A = Result E X} (ok x) (ok y) → x ≡ y
ok-injective x y same = cc

-- Inversion of a successful bind: the first step came to a value, and the rest went on from it.
pub >>=-eq-ok {ℓ κ μ} :
    {E : Type ℓ} {X : Type κ} {Y : Type μ} (step : Result E X) (rest : X → Result E Y) {y : Y}
    → (step >>= rest) ≡ ok y
    → (x : X) × (step ≡ ok x) × (rest x ≡ ok y)
>>=-eq-ok (err e) rest raised = cc
>>=-eq-ok (ok x) rest done = (x, refl, done)

-- The same for a step that only checks.
pub >>-eq-ok {ℓ κ} :
    {E : Type ℓ} {Y : Type κ} (check : Result E (Unit {0})) (rest : Result E Y) {y : Y}
    → (check >> rest) ≡ ok y
    → (check ≡ ok tt) × (rest ≡ ok y)
>>-eq-ok (err e) rest raised = cc
>>-eq-ok (ok u) rest done = (refl, done)
