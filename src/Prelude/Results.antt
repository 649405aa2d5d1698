-- ===== src/Prelude/Results.antt =====
-- `Result<A, E>` with the `?` operator as bind.
use mathlib.Core.Path.{◌≡◌, refl}
use mathlib.Core.Logic.{◌⊎◌, inl, inr}
use mathlib.Core.Bool.{Bool, true, false}
use mathlib.Core.Option.{Option, none, some}

-- The source's order of the arguments is `Result<A, E>`.
pub data Result {κ} (E : Type 0) (T : Type κ) : Type κ where
  ok : (value : T) → Result E T
  err : (error : E) → Result E T

module _ {κ ℓ} {E : Type 0} {T : Type κ} {U : Type ℓ} where
  infixl 5 ◌>>=◌ ◌>>◌
  -- `?` in front of the rest of a function.
  abbrev pub ◌>>=◌ : Result E T → (T → Result E U) → Result E U
  err error >>= rest = err error
  ok value >>= rest = rest value

  -- `?` on a call whose value is dropped.
  abbrev pub ◌>>◌ : Result E T → Result E U → Result E U
  err error >> rest = err error
  ok value >> rest = rest

-- `if refused { return Err(e); }`
abbrev pub refuse_if : {E : Type 0} → Bool → E → Result E (Unit {0})
refuse_if true e = err e
refuse_if false e = ok tt

-- `.map_err(|_| e)`
abbrev pub map_err {ℓ} : {E F : Type 0} {A : Type ℓ} → (E → F) → Result E A → Result F A
map_err f (ok a) = ok a
map_err f (err e) = err (f e)

-- `.ok_or(e)`
abbrev pub ok_or {ℓ} : {E : Type 0} {A : Type ℓ} → E → Option A → Result E A
ok_or e none = err e
ok_or e (some a) = ok a

pub Result-cases {ℓ} :
    {E : Type 0} {A : Type ℓ} (r : Result E A) → ((a : A) × (r ≡ ok a)) ⊎ ((e : E) × (r ≡ err e))
Result-cases (ok a) = inl (a, refl)
Result-cases (err e) = inr (e, refl)
