-- ===== src/Prelude/Equality.antt =====
-- Equality as an interface, with its instances: numbers, program texts (`String`, for what is only
-- compared) and `Text`, a Python `str` as the list of its code points, for what the program walks.
use Prim.Native.Nat.{ℕ}
use Prim.Native.Char.{code}
use Prim.Native.String.{String}
use text.Mathlib.Text.{◌==◌ as str_eq}
use text.Mathlib.TextEquality.{eq_iff}
use mathlib.Core.Path.{◌≡◌, refl}
use mathlib.Core.Logic.{◌↔◌}
use mathlib.Core.List.{List, [], ◌∷◌}
use mathlib.Core.Bool.{Bool, true, false, ◌&&◌}
use mathlib.Core.Option.{Option, none, some}
use native.Mathlib.Omega.{arith}
use lynx_monitor.Prelude.Tests.{eqb, eqb_iff}

abbrev pub Text : Type 0
Text = List ℕ

-- The code points of a literal.
abbrev pub codes : String → Text
codes String.[] = []
codes (String.◌∷◌ c s) = code c ∷ codes s

unfoldable pub text_eq : Text → Text → Bool
text_eq [] [] = true
text_eq [] (y ∷ ys) = false
text_eq (x ∷ xs) [] = false
text_eq (x ∷ xs) (y ∷ ys) = eqb x y && text_eq xs ys

pub text_eq_iff : (s t : Text) → (text_eq s t ≡ true) ↔ (s ≡ t)
unfolding text_eq
text_eq_iff [] [] = ground arith
text_eq_iff [] (y ∷ ys) = ground arith
text_eq_iff (x ∷ xs) [] = ground arith
text_eq_iff (x ∷ xs) (y ∷ ys) = ground (arith, text_eq_iff xs ys)

abbrev pub opt_eq {ℓ} : {A : Type ℓ} → (A → A → Bool) → Option A → Option A → Bool
opt_eq eq none none = true
opt_eq eq (some a) (some b) = eq a b
opt_eq eq none (some b) = false
opt_eq eq (some a) none = false

pub opt_eq_iff {ℓ} :
    {A : Type ℓ} (eq : A → A → Bool)
    → ((a b : A) → (eq a b ≡ true) ↔ (a ≡ b))
    → (x y : Option A) → (opt_eq eq x y ≡ true) ↔ (x ≡ y)
opt_eq_iff eq h none none = ground arith
opt_eq_iff eq h none (some b) = ground arith
opt_eq_iff eq h (some a) none = ground arith
opt_eq_iff eq h (some a) (some b) = ground (arith, h a b)

-- What `==` of Python is on a type: a test, and what it decides.
pub record PythonEq {ℓ} (A : Type ℓ) : Type ℓ where
  pub same : A → A → Bool
  pub same_iff : (x y : A) → (same x y ≡ true) ↔ (x ≡ y)

infix 50 ◌==◌
abbrev pub ◌==◌ {ℓ} : {A : Type ℓ} ⦃eq : PythonEq A⦄ → A → A → Bool
◌==◌ ⦃eq⦄ x y = eq.same x y

instance abbrev pub text_equality : PythonEq Text
text_equality = record { same = text_eq; same_iff = text_eq_iff }

instance abbrev pub nat_eq : PythonEq ℕ
nat_eq = record { same = eqb; same_iff = eqb_iff }

-- Texts of the program that are only compared.
instance abbrev pub string_eq : PythonEq String
string_eq = record { same = str_eq; same_iff = eq_iff }

pub eq_refl {ℓ} : {A : Type ℓ} ⦃e : PythonEq A⦄ (a : A) → (a == a) ≡ true
eq_refl ⦃e⦄ a = (e.same_iff a a).1 refl
