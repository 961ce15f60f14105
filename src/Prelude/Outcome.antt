-- ===== src/Prelude/Outcome.antt =====
-- A Python call that returns or raises. An exception keeps its class and `str(error)`.

use lynx_monitor.Prelude.Equality.{Text}
use mathlib.Core.Path.{◌≡◌, refl}
use mathlib.Core.Logic.{◌⊎◌, inl, inr}

pub data ErrorKind : Type 0 where
  value_error key_error runtime_error event_publish_error contract_error other_error : ErrorKind

pub record Error : Type 0 where
  pub kind : ErrorKind
  pub message : Text

pub data Result {ℓ} (A : Type ℓ) : Type ℓ where
  ok : A → Result A
  raise : Error → Result A

infixl 5 ◌>>=◌
abbrev pub ◌>>=◌ {ℓ κ} : {A : Type ℓ} {B : Type κ} → Result A → (A → Result B) → Result B
ok a >>= f = f a
raise e >>= f = raise e

abbrev pub fail {ℓ} : {A : Type ℓ} → ErrorKind → Text → Result A
fail k m = raise (record { kind = k; message = m })

pub Result-cases {ℓ} :
    {A : Type ℓ} (r : Result A) → ((a : A) × (r ≡ ok a)) ⊎ ((e : Error) × (r ≡ raise e))
Result-cases (ok a) = inl (a, refl)
Result-cases (raise e) = inr (e, refl)
