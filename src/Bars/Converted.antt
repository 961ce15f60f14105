-- ===== src/Bars/Converted.antt =====
-- What depends on conversions of values to numbers: it has its property, or it raises what a conversion raised.
use lynx_monitor.Prelude.{
  Bool, true, false, ◌≡◌, refl, inl, inr, ◌⊎◌, Result-cases, Result, ok, raise, Error, ◌>>=◌,
  if◌then◌else◌,
}
use lynx_monitor.Value.{Value}
use lynx_monitor.Bars.{Numbers}

-- An error that a conversion of a value to a number raised
abbrev pub IsConversionError : Numbers → Error → Type 0
IsConversionError numbers e =
    (v : Value) × ((numbers.to_float v ≡ raise e) ⊎ (numbers.to_int v ≡ raise e))

-- A result that has a property, or the error of a conversion
pub data Converted (A : Type 0) (numbers : Numbers) (P : A → Type 0) : Result A → Type 0 where
  returns : (a : A) → P a → Converted A numbers P (ok a)
  fails : (e : Error) → IsConversionError numbers e → Converted A numbers P (raise e)

abbrev pub Any : {A : Type 0} → A → Type 0
Any a = Unit

module _ (numbers : Numbers) where
  pub then-Converted :
      {A B : Type 0} {P : A → Type 0} {Q : B → Type 0} (r : Result A) (f : A → Result B)
      → Converted A numbers P r
      → ((a : A) → P a → Converted B numbers Q (f a))
      → Converted B numbers Q (r >>= f)
  then-Converted _ f (returns a h) k = k a h
  then-Converted _ f (fails e h) k = fails e h

  pub float-Converted :
      (v : Value) → Converted Value numbers (λ a. numbers.to_float v ≡ ok a) (numbers.to_float v)
  float-Converted v = elim (Result-cases (numbers.to_float v)) [
    | inl (a, e) ↦ rw (e) (returns a refl)
    | inr (b, e) ↦ rw (e) (fails b (v, inl e))
  ]

  int-Converted : (v : Value) → Converted Value numbers Any (numbers.to_int v)
  int-Converted v = elim (Result-cases (numbers.to_int v)) [
    | inl (a, e) ↦ rw (e) (returns a tt)
    | inr (b, e) ↦ rw (e) (fails b (v, inr e))
  ]

  -- A conversion, and what follows it
  pub float_then :
      {B : Type 0} {Q : B → Type 0} (v : Value) (f : Value → Result B)
      → ((a : Value) → Converted B numbers Q (f a))
      → Converted B numbers Q (numbers.to_float v >>= f)
  float_then v f h = then-Converted (numbers.to_float v) f (float-Converted v) (λ a _. h a)

  pub int_then :
      {B : Type 0} {Q : B → Type 0} (v : Value) (f : Value → Result B)
      → ((a : Value) → Converted B numbers Q (f a))
      → Converted B numbers Q (numbers.to_int v >>= f)
  int_then v f h = then-Converted (numbers.to_int v) f (int-Converted v) (λ a _. h a)

  pub if_Converted :
      {B : Type 0} {Q : B → Type 0} (b : Bool) {r s : Result B}
      → Converted B numbers Q r
      → Converted B numbers Q s
      → Converted B numbers Q (if b then r else s)
  if_Converted true h k = h
  if_Converted false h k = k
