-- ===== src/Prelude/Results.antt =====
-- Python's exceptions as values. The message is the source's; a number or a name that the source
-- formats into a message is left out of it.
use Prim.Native.String.{String}
use mathlib.Core.Path.{◌≡◌, refl}
use mathlib.Core.Logic.{◌⊎◌, inl, inr}

pub data Exception : Type 0 where
  value_error runtime_error timeout_error key_error file_not_found : String → Exception
  struct_error overflow_error zero_division_error : Exception

pub data Result {ℓ} (A : Type ℓ) : Type ℓ where
  ok : A → Result A
  err : Exception → Result A

module _ {ℓ} {A : Type ℓ} where
  pub Result-cases : (r : Result A) → ((a : A) × (r ≡ ok a)) ⊎ ((e : Exception) × (r ≡ err e))
  Result-cases (ok a) = inl (a, refl)
  Result-cases (err e) = inr (e, refl)

  module _ {κ} {B : Type κ} where
    infixl 5 ◌>>=◌
    abbrev pub ◌>>=◌ : Result A → (A → Result B) → Result B
    err raised >>= rest = err raised
    ok value >>= rest = rest value

    -- A chain that succeeds, taken apart at its first call.
    pub >>=-eq-ok :
        {out : B} (first : Result A) (rest : A → Result B)
        → (first >>= rest) ≡ ok out
        → (value : A) × (first ≡ ok value) × (rest value ≡ ok out)
    >>=-eq-ok (err raised) rest h = cc
    >>=-eq-ok (ok value) rest h = (value, refl, h)
