-- ===== src/Pool/Members.antt =====
-- Membership and repeats in lists of symbols.
use lynx_monitor.Prelude.{
  ap, ℕ, zero, suc, ◌≡◌, refl, Text, Bool, true, false, ◌&&◌, ◌||◌, List, [], ◌∷◌, ◌++◌, any-append,
  select, take, text_eq, text_eq_iff, arith, Bool-cases, inl, inr, ap,
}
use lynx_monitor.Pool.{contains, add_once, insert_sorted, sorted}

-- No symbol stands twice.
abbrev pub Distinct : List Text → Type 0
Distinct [] = Unit
Distinct (x ∷ xs) = (contains xs x ≡ false) × Distinct xs

pub contains-append :
    (xs ys : List Text) (s : Text) → contains (xs ++ ys) s ≡ (contains xs s || contains ys s)
contains-append xs ys s = any-append (λ x. text_eq x s) xs ys

pub contains-select :
    (p : Text → Bool) (xs : List Text) (s : Text)
    → contains (select p xs) s ≡ (contains xs s && p s)
contains-select p [] s = refl
contains-select p (x ∷ xs) s = elim (Bool-cases (text_eq x s)) [
  | inl e ↦
      let same : x ≡ s = (text_eq_iff x s).0 e in ground (arith, contains-select p xs s, ap p same)
  | inr e ↦ ground (arith, contains-select p xs s)
]

pub contains-take :
    (n : ℕ) (xs : List Text) (s : Text) → contains xs s ≡ false → contains (take n xs) s ≡ false
contains-take zero xs s h = refl
contains-take (suc n) [] s h = refl
contains-take (suc n) (x ∷ xs) s h = ground (arith, contains-take n xs s)

pub select-Distinct : (p : Text → Bool) (xs : List Text) → Distinct xs → Distinct (select p xs)
select-Distinct p [] d = tt
select-Distinct p (x ∷ xs) d = elim (Bool-cases (p x)) [
  | inl e ↦ rw e (ground (arith, contains-select p xs x), select-Distinct p xs d.1)
  | inr e ↦ rw e (select-Distinct p xs d.1)
]

pub take-Distinct : (n : ℕ) (xs : List Text) → Distinct xs → Distinct (take n xs)
take-Distinct zero xs d = tt
take-Distinct (suc n) [] d = tt
take-Distinct (suc n) (x ∷ xs) d = (contains-take n xs x d.0, take-Distinct n xs d.1)

pub append-Distinct :
    (xs ys : List Text)
    → Distinct xs
    → Distinct ys
    → ((s : Text) → contains xs s ≡ true → contains ys s ≡ false)
    → Distinct (xs ++ ys)
append-Distinct [] ys dx dy apart = dy
append-Distinct (x ∷ xs) ys dx dy apart = (
  ground (arith, contains-append xs ys x, apart x, text_eq_iff x x),
  append-Distinct xs ys dx.1 dy λ s h. ground (arith, apart s),
)

pub contains-insert_sorted :
    (s : Text) (xs : List Text) (t : Text)
    → contains (insert_sorted s xs) t ≡ (text_eq s t || contains xs t)
unfolding insert_sorted
contains-insert_sorted s [] t = refl
contains-insert_sorted s (x ∷ xs) t = ground (arith, contains-insert_sorted s xs t)

pub contains-sorted : (xs : List Text) (t : Text) → contains (sorted xs) t ≡ contains xs t
unfolding sorted
contains-sorted [] t = refl
contains-sorted (x ∷ xs) t =
    ground (arith, contains-insert_sorted x (sorted xs) t, contains-sorted xs t)

pub add_once-Distinct : (xs : List Text) (s : Text) → Distinct xs → Distinct (add_once xs s)
unfolding add_once
add_once-Distinct xs s d = elim (Bool-cases (contains xs s)) [
  | inl e ↦ rw e d
  | inr e ↦ rw e (append-Distinct xs (s ∷ []) d (refl, tt) λ t h. ground (arith, text_eq_iff s t))
]

pub contains-add_once :
    (xs : List Text) (s t : Text) → contains (add_once xs s) t ≡ (contains xs t || text_eq s t)
unfolding add_once
contains-add_once xs s t = elim (Bool-cases (text_eq s t)) [
  | inl e ↦
      ground
        (arith, any-append (λ x. text_eq x t) xs (s ∷ []), ap (contains xs) ((text_eq_iff s t).0 e))
  | inr e ↦ ground (arith, any-append (λ x. text_eq x t) xs (s ∷ []))
]
