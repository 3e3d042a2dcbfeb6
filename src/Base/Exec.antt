-- ===== src/Base/Exec.antt =====
-- Python's exceptions, and methods that change an object and may raise. What was written before a
-- raise stays written, so the state comes back beside the error too.
use Prim.Native.Nat.{ℕ}
use mathlib.Core.Path.{◌≡◌, refl}
use mathlib.Core.Logic.{◌⊎◌, inl, inr}
use mathlib.Core.Bool.{Bool, true, false}

-- The exception classes that the program raises or meets. `out_of_fuel` is none of Python's: a loop
-- of the model ran out of rounds.
pub data Error : Type 0 where
  value_error type_error key_error attribute_error index_error struct_error unicode_error : Error
  connection_error timeout_error os_error file_not_found install_error out_of_fuel : Error
  http_error : ℕ → Error

pub data Result {ℓ} (A : Type ℓ) : Type ℓ where
  ok : A → Result A
  err : Error → Result A

abbrev pub Exec {ℓ} : Type ℓ → Type ℓ → Type ℓ
Exec S A = S → Result A × S

pub Result-cases {ℓ} :
    {A : Type ℓ} (r : Result A) → ((a : A) × (r ≡ ok a)) ⊎ ((e : Error) × (r ≡ err e))
Result-cases (ok a) = inl (a, refl)
Result-cases (err e) = inr (e, refl)

-- How a call ended, with the state that it left.
pub Run-cases {ℓ} :
    {S A : Type ℓ} (m : Result A × S)
    → ((a : A) × (s : S) × (m ≡ (ok a, s))) ⊎ ((e : Error) × (s : S) × (m ≡ (err e, s)))
Run-cases (ok a, s) = inl (a, s, refl)
Run-cases (err e, s) = inr (e, s, refl)

module _ {ℓ} {S A : Type ℓ} where
  abbrev pub pure : A → Exec S A
  pure a s = (ok a, s)

  abbrev pub raise : Error → Exec S A
  raise e s = (err e, s)

  abbrev pub lift : Result A → Exec S A
  lift r s = (r, s)

  abbrev pub gets : (S → A) → Exec S A
  gets f s = (ok (f s), s)

module _ {ℓ} {S : Type ℓ} where
  abbrev pub modify : (S → S) → Exec S Unit
  modify f s = (ok tt, f s)

  abbrev pub raise_if : Bool → Error → Exec S Unit
  raise_if true e s = (err e, s)
  raise_if false e s = (ok tt, s)

module _ {ℓ} {S A B : Type ℓ} where
  abbrev pub continue : Result A → (A → Exec S B) → Exec S B
  continue (ok a) f s = f a s
  continue (err e) f s = (err e, s)

  infixl 5 ◌>>=◌ ◌>>◌
  abbrev pub ◌>>=◌ : Exec S A → (A → Exec S B) → Exec S B
  ◌>>=◌ m f s = let (r, s') = m s in continue r f s'

  abbrev pub ◌>>◌ : Exec S A → Exec S B → Exec S B
  m >> n = m >>= λ _. n
