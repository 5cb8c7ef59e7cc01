-- ===== src/Prelude/Results.antt =====
-- How a Rust call can end: `Ok`, `Err` with its message, or a panic (a failed `unwrap`, a slice out
-- of range, a `todo!()`).
use Prim.Native.String.{String}
use mathlib.Core.Path.{◌≡◌, refl}
use mathlib.Core.Bool.{Bool, true, false}
use mathlib.Core.Option.{Option, none, some}

pub data Outcome {ℓ} (A : Type ℓ) : Type ℓ where
  ok : A → Outcome A
  panicked : Outcome A
  err : String → Outcome A

-- The `?` operator: an error and a panic both leave the caller.
abbrev pub and_then {ℓ κ} : {A : Type ℓ} {B : Type κ} → (A → Outcome B) → Outcome A → Outcome B
and_then next panicked = panicked
and_then next (err message) = err message
and_then next (ok value) = next value

infixl 5 ◌>>=◌
abbrev pub ◌>>=◌ {ℓ κ} : {A : Type ℓ} {B : Type κ} → Outcome A → (A → Outcome B) → Outcome B
first >>= next = and_then next first

infixl 5 ◌>>◌
abbrev pub ◌>>◌ {ℓ} : {B : Type ℓ} → Outcome (Unit {0}) → Outcome B → Outcome B
first >> second = and_then (λ _. second) first

-- `if test { return Err(e) }`
abbrev pub refuse_if : Bool → String → Outcome (Unit {0})
refuse_if false message = ok tt
refuse_if true message = err message

-- `unwrap` of an `Option`, and of a `Result`.
abbrev pub unwrap {ℓ} : {A : Type ℓ} → Option A → Outcome A
unwrap (some value) = ok value
unwrap none = panicked

abbrev pub unwrap_ok {ℓ} : {A : Type ℓ} → Outcome A → Outcome A
unwrap_ok (ok value) = ok value
unwrap_ok (err message) = panicked
unwrap_ok panicked = panicked

-- A chain that returned took its first step.
pub >>=-eq-ok {ℓ κ} :
    {A : Type ℓ} {B : Type κ} (first : Outcome A) (next : A → Outcome B) {b : B}
    → (first >>= next) ≡ ok b
    → (value : A) × (first ≡ ok value) × (next value ≡ ok b)
>>=-eq-ok panicked next returned = cc
>>=-eq-ok (err message) next returned = cc
>>=-eq-ok (ok value) next returned = (value, refl, returned)
