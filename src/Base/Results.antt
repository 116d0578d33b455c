-- ===== src/Base/Results.antt =====
-- What running C code gives: a value, or the undefined behaviour that it runs into.
use mathlib.Core.Path.{◌≡◌, refl}
use mathlib.Core.Bool.{Bool, true, false}
use mathlib.Core.Option.{Option, none, some}

-- `null_deref`: a null pointer is read. `no_value`: a variable that was never assigned is used.
-- `out_of_bounds`: an array is indexed beyond its end. `use_after_free`: freed memory is read.
-- `failed_assert`: an `assert` of the code does not hold.
pub data Fault : Type 0 where
  null_deref no_value out_of_bounds div_by_zero use_after_free failed_assert : Fault

pub data Outcome {ℓ} (A : Type ℓ) : Type ℓ where
  fault : Fault → Outcome A
  ok : A → Outcome A

module _ {ℓ κ} {A : Type ℓ} {B : Type κ} where
  infixl 5 ◌>>=◌
  -- Undefined behaviour ends what is run; else the rest goes on with the value.
  abbrev pub ◌>>=◌ : Outcome A → (A → Outcome B) → Outcome B
  fault why >>= rest = fault why
  ok value >>= rest = rest value

  -- A sequence that ends well, taken apart.
  pub >>=-eq-ok :
      (first : Outcome A) (rest : A → Outcome B) {end : B}
      → (first >>= rest) ≡ ok end
      → (value : A) × (first ≡ ok value) × (rest value ≡ ok end)
  >>=-eq-ok (fault why) rest e = cc
  >>=-eq-ok (ok value) rest e = (value, refl, e)

-- A pointer that is read without a test for NULL.
abbrev pub deref {ℓ} : {A : Type ℓ} → Option A → Outcome A
deref none = fault null_deref
deref (some a) = ok a

-- A local pointer that is returned, and may not have been assigned.
abbrev pub assigned {ℓ} : {A : Type ℓ} → Option A → Outcome A
assigned none = fault no_value
assigned (some a) = ok a

-- `assert(b)` before the rest.
abbrev pub assert {ℓ} : {A : Type ℓ} → Bool → Outcome A → Outcome A
assert true k = k
assert false k = fault failed_assert
