-- ===== src/Bars/Order.antt =====
-- The order of a snapshot's minute bars.
use mathlib.Core.List.Perm
use mathlib.Core.List.{Perm}
use lynx_monitor.Prelude.{
  ℕ, zero, suc, ◌+◌, Text, true, false, List, [], ◌∷◌, ◌≡◌, refl, drop, length, inl, inr, arith,
  Bool-cases,
}
use lynx_monitor.Value.{Fields}
use lynx_monitor.Contracts.{Python}
use lynx_monitor.Pool.{text_le}
use lynx_monitor.Session.{Datetimes}
use lynx_monitor.Bars.{Numbers, bucket_of, insert_bar, sort_bars}

text_le_total : (s t : Text) → text_le s t ≡ false → text_le t s ≡ true
unfolding text_le
text_le_total [] t h = ground (arith, h)
text_le_total (a ∷ s) [] h = refl
text_le_total (a ∷ s) (b ∷ t) h = ground (arith, h, text_le_total s t)

module _ {D : Type 0} (py : Python) (numbers : Numbers) (datetimes : Datetimes D) where
  -- A bar's bucket is not after that of the first bar.
  abbrev pub Precedes : Fields → List Fields → Type 0
  Precedes bar [] = Unit
  Precedes bar (b ∷ bars) =
      text_le (bucket_of py numbers datetimes bar) (bucket_of py numbers datetimes b) ≡ true

  abbrev pub IsSorted : List Fields → Type 0
  IsSorted [] = Unit
  IsSorted (bar ∷ bars) = Precedes bar bars × IsSorted bars

module _ {D : Type 0} (py : Python) (numbers : Numbers) (datetimes : Datetimes D) where
  insert_bar-Precedes :
      (b bar : Fields) (bars : List Fields)
      → Precedes py numbers datetimes b bars
      → text_le (bucket_of py numbers datetimes b) (bucket_of py numbers datetimes bar) ≡ true
      → Precedes py numbers datetimes b (insert_bar py numbers datetimes bar bars)
  unfolding insert_bar
  insert_bar-Precedes b bar [] p h = h
  insert_bar-Precedes b bar (c ∷ bars) p h = ground (arith, p, h)

  insert_bar-IsSorted :
      (bar : Fields) (bars : List Fields)
      → IsSorted py numbers datetimes bars
      → IsSorted py numbers datetimes (insert_bar py numbers datetimes bar bars)
  unfolding insert_bar
  insert_bar-IsSorted bar [] h = (tt, tt)
  insert_bar-IsSorted bar (b ∷ bars) (p, h) =
      elim (Bool-cases
        (text_le (bucket_of py numbers datetimes bar) (bucket_of py numbers datetimes b))) [
          | inl e ↦ rw (insert_bar, e) (e, (p, h))
          | inr e ↦
              rw (insert_bar, e)
                (
                  insert_bar-Precedes b bar bars p (
                      text_le_total (bucket_of py numbers datetimes bar)
                        (bucket_of py numbers datetimes b) e),
                  insert_bar-IsSorted bar bars h,
                )
        ]

  pub sort_bars-IsSorted :
      (bars : List Fields) → IsSorted py numbers datetimes (sort_bars py numbers datetimes bars)
  unfolding sort_bars
  sort_bars-IsSorted [] = tt
  sort_bars-IsSorted (bar ∷ bars) =
      insert_bar-IsSorted bar (sort_bars py numbers datetimes bars) (sort_bars-IsSorted bars)

  length-insert_bar :
      (bar : Fields) (bars : List Fields)
      → length (insert_bar py numbers datetimes bar bars) ≡ length bars + 1
  unfolding insert_bar
  length-insert_bar bar [] = omega arith
  length-insert_bar bar (b ∷ bars) = ground (arith, length-insert_bar bar bars)

  pub length-sort_bars :
      (bars : List Fields) → length (sort_bars py numbers datetimes bars) ≡ length bars
  unfolding sort_bars
  length-sort_bars [] = refl
  length-sort_bars (bar ∷ bars) =
      omega
        (arith, length-insert_bar bar (sort_bars py numbers datetimes bars), length-sort_bars bars)

  pub drop-IsSorted :
      (n : ℕ) (bars : List Fields)
      → IsSorted py numbers datetimes bars
      → IsSorted py numbers datetimes (drop n bars)
  drop-IsSorted zero bars h = h
  drop-IsSorted (suc n) [] h = h
  drop-IsSorted (suc n) (bar ∷ bars) (p, h) = drop-IsSorted n bars h

  insert_bar-perm :
      (bar : Fields) (bars : List Fields)
      → Perm (insert_bar py numbers datetimes bar bars) (bar ∷ bars)
  unfolding insert_bar
  insert_bar-perm bar [] = Perm.refl (bar ∷ [])
  insert_bar-perm bar (b ∷ bars) =
      elim (Bool-cases
        (text_le (bucket_of py numbers datetimes bar) (bucket_of py numbers datetimes b))) [
          | inl e ↦ rw (insert_bar, e) (Perm.refl (bar ∷ b ∷ bars))
          | inr e ↦
              rw (insert_bar, e)
                (Perm.trans (Perm.cons b (insert_bar-perm bar bars)) (Perm.swap bar b bars))
        ]

  -- Sorting keeps every bar.
  pub sort_bars-perm : (bars : List Fields) → Perm (sort_bars py numbers datetimes bars) bars
  unfolding sort_bars
  sort_bars-perm [] = Perm.nil
  sort_bars-perm (bar ∷ bars) =
      Perm.trans (insert_bar-perm bar (sort_bars py numbers datetimes bars))
        (Perm.cons bar (sort_bars-perm bars))
