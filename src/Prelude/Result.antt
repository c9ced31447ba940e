-- ===== src/Prelude/Result.antt =====
-- Python exceptions as values: `err` carries which `raise` was reached.
use mathlib.Core.Path.{◌≡◌, refl}
use mathlib.Core.Bool.{Bool, true, false}

pub data Result {ℓ} (Failure : Type 0) (A : Type ℓ) : Type ℓ where
  err : Failure → Result Failure A
  ok : A → Result Failure A

-- A statement that runs only if the one before it raised nothing.
infixl 5 ◌>>=◌ ◌>>◌
abbrev pub ◌>>=◌ {ℓ κ} :
    {Failure : Type 0} {A : Type ℓ} {B : Type κ} (first : Result Failure A)
    (next : A → Result Failure B)
    → Result Failure B
first >>= next = elim first [ err failure ↦ err failure | ok value ↦ next value ]

abbrev pub ◌>>◌ {ℓ} :
    {Failure : Type 0} {B : Type ℓ} (first : Result Failure (Unit {0})) (next : Result Failure B)
    → Result Failure B
first >> next = first >>= (λ done. next)

-- `if cond: raise failure`
abbrev pub raise_if : {Failure : Type 0} → Bool → Failure → Result Failure (Unit {0})
raise_if false failure = ok tt
raise_if true failure = err failure

-- A block that succeeded was entered with a value.
pub >>=-eq-ok {ℓ κ} :
    {Failure : Type 0} {A : Type ℓ} {B : Type κ} (first : Result Failure A)
    (next : A → Result Failure B) {end : B}
    → (first >>= next) ≡ ok end
    → (value : A) × (first ≡ ok value) × (next value ≡ ok end)
>>=-eq-ok (err failure) next e = cc
>>=-eq-ok (ok value) next e = (value, refl, e)

pub raise_if-eq-ok :
    {Failure : Type 0} (cond : Bool) (failure : Failure) {done : Unit {0}}
    → raise_if cond failure ≡ ok done
    → cond ≡ false
raise_if-eq-ok false failure e = refl
raise_if-eq-ok true failure e = cc

pub ok_inj {ℓ} :
    {Failure : Type 0} {A : Type ℓ} {a b : A} → ◌≡◌ {A = Result Failure A} (ok a) (ok b) → a ≡ b
ok_inj e = cc

pub err_inj {ℓ} :
    {Failure : Type 0} {A : Type ℓ} {a b : Failure}
    → ◌≡◌ {A = Result Failure A} (err a) (err b)
    → a ≡ b
err_inj e = cc
