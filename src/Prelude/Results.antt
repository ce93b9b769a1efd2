-- ===== src/Prelude/Results.antt =====
-- Exceptions as values. `Error` has a constructor for each kind of failure that the modelled code
-- raises; a message text is not kept.
use mathlib.Core.Path.{◌≡◌, refl}
use mathlib.Core.Bool.{Bool, true, false, not}

pub data Error : Type 0 where
  value_error type_error key_error runtime_error division_by_zero os_error index_error
        assertion_error persistence_conflict source_conflict integrity_error :
      Error
  unknown_plugin missing_dependency cyclic_dependency : Error

pub data Result {ℓ} (A : Type ℓ) : Type ℓ where
  ok : A → Result A
  err : Error → Result A

infixl 5 ◌>>◌ ◌>>=◌
abbrev pub ◌>>=◌ {κ ℓ} : {X : Type κ} {Y : Type ℓ} → Result X → (X → Result Y) → Result Y
err raised >>= next = err raised
ok x >>= next = next x

-- A statement that yields nothing, then the rest.
abbrev pub ◌>>◌ {ℓ} : {Y : Type ℓ} → Result (Unit {0}) → Result Y → Result Y
err raised >> rest = err raised
ok _ >> rest = rest

-- `if test: raise error`
abbrev pub raise_if : Bool → Error → Result (Unit {0})
raise_if true e = err e
raise_if false e = ok tt

-- A block that returns ran its first statement to a value.
pub bind-eq-ok {κ ℓ} :
    {X : Type κ} {Y : Type ℓ} {y : Y} (first : Result X) (next : X → Result Y)
    → (first >>= next) ≡ ok y
    → (x : X) × (first ≡ ok x) × (next x ≡ ok y)
bind-eq-ok (err raised) next returned = cc
bind-eq-ok (ok x) next returned = (x, refl, returned)

pub err-ne-ok {ℓ} : {Y : Type ℓ} {e : Error} {y : Y} → err e ≡ ok y → ⊥
err-ne-ok h = cc

pub ok_inj {ℓ} : {Y : Type ℓ} {x y : Y} → ok x ≡ ok y → x ≡ y
ok_inj h = cc

-- Past a guard its test was false.
pub raise_if-passed {ℓ} :
    {Y : Type ℓ} {y : Y} (test : Bool) (e : Error) (rest : Result Y)
    → (raise_if test e >> rest) ≡ ok y
    → (test ≡ false) × (rest ≡ ok y)
raise_if-passed true e rest h = cc
raise_if-passed false e rest h = (refl, h)

pub not-false : (b : Bool) → not b ≡ false → b ≡ true
not-false true h = refl
not-false false h = cc

-- A predicate of the value, of a result that has one.
abbrev pub Unpacked {ℓ κ} : {A : Type ℓ} → (A → Type κ) → Result A → Type κ
Unpacked P (ok a) = P a
Unpacked P (err e) = Unit

abbrev pub is_ok {ℓ} : {A : Type ℓ} → Result A → Bool
is_ok (ok a) = true
is_ok (err e) = false

pub value_of_is_ok {ℓ} : {A : Type ℓ} (r : Result A) → is_ok r ≡ true → (a : A) × (r ≡ ok a)
value_of_is_ok (ok a) h = (a, refl)
value_of_is_ok (err e) h = cc

pub is_ok-bind {ℓ κ} :
    {A : Type ℓ} {B : Type κ} (m : Result A) (f : A → Result B)
    → is_ok m ≡ true
    → ((a : A) → m ≡ ok a → is_ok (f a) ≡ true)
    → is_ok (m >>= f) ≡ true
is_ok-bind (ok a) f h k = k a refl
is_ok-bind (err e) f h k = cc
