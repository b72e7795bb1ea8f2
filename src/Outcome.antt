-- ===== src/Outcome.antt =====
-- What a call of the C code comes to: a value, or a fault. A fault is either undefined behaviour
-- that the call runs into, or the end of the process by `assert`, `exit` or `error`.
use yolanda.Prelude.{
  ℕ, ◌≤◌, ◌≡◌, refl, Bool, true, false, Option, none, some, arith, leb, if◌then◌else◌,
}

pub data Fault : Type 0 where
  -- a read or a write outside of the block that a pointer points into
  out_of_bounds : Fault
  null_pointer : Fault
  -- signed arithmetic that leaves the range of `int`
  int_overflow : Fault
  assert_failed : Fault
  -- a `void *` that is read as another struct than the one it points to
  bad_cast : Fault
  -- `exit(status)`, also by way of `error(status, …)`
  exited : ℕ → Fault
  -- an exception of the C++ library that nothing catches
  thrown : Fault

pub data Outcome {ℓ} (A : Type ℓ) : Type ℓ where
  ok : A → Outcome A
  fault : Fault → Outcome A

-- Sequencing: what follows a fault does not happen.
infixl 5 ◌>>=◌ ◌>>◌
abbrev pub ◌>>=◌ {ℓ κ} : {A : Type ℓ} {B : Type κ} → Outcome A → (A → Outcome B) → Outcome B
fault reason >>= next = fault reason
ok value >>= next = next value

abbrev pub ◌>>◌ {ℓ} : {B : Type ℓ} → Outcome (Unit {0}) → Outcome B → Outcome B
fault reason >> next = fault reason
ok done >> next = next

-- `assert(b)`
abbrev pub assert : Bool → Outcome (Unit {0})
assert true = ok tt
assert false = fault assert_failed

-- A pointer that is read through.
abbrev pub deref {ℓ} : {A : Type ℓ} → Option A → Outcome A
deref none = fault null_pointer
deref (some a) = ok a

abbrev pub int_max : ℕ
int_max = 2147483647

-- The value of an expression of type `int` that is not negative.
abbrev pub to_int : ℕ → Outcome ℕ
to_int n = if leb n int_max then ok n else fault int_overflow

-- If a sequence came to a value, so did its first part.
pub >>=-eq-ok {ℓ κ} :
    {A : Type ℓ} {B : Type κ} (first : Outcome A) (next : A → Outcome B) {last : B}
    → (first >>= next) ≡ ok last
    → (value : A) × (first ≡ ok value) × (next value ≡ ok last)
>>=-eq-ok (fault reason) next e = cc
>>=-eq-ok (ok value) next e = (value, refl, e)

pub to_int-of_le : (n : ℕ) → n ≤ int_max → to_int n ≡ ok n
to_int-of_le n h = ground arith
