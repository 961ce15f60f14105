-- ===== src/Gateway/Scan.antt =====
-- The two loops over a client's queue: what they keep, and when they find nothing.
use lynx_monitor.Prelude.{
  ◌+◌, ◌≡◌, refl, Bool, true, false, none, some, List, [], ◌∷◌, length, select, any, arith,
  Option-cases, ◌⊎◌, inl, inr,
}
use lynx_monitor.Gateway.{Message, replace_last, delete_first}

module _ {ℓ} {P : Type ℓ} (p : Message P → Bool) where
  pub length-delete_first :
      (xs ys : List (Message P)) → delete_first p xs ≡ some ys → length ys + 1 ≡ length xs
  unfolding delete_first
  length-delete_first [] ys h = ground arith
  length-delete_first (x ∷ xs) ys h = elim (Option-cases (delete_first p xs)) [
    | inl e ↦ ground arith
    | inr (zs, e) ↦ ground (arith, length-delete_first xs zs e)
  ]

  -- What a scan deletes passes its test: what fails the test stays, in order.
  pub select-delete_first :
      (r : Message P → Bool)
      → ((x : Message P) → p x ≡ true → r x ≡ false)
      → (xs ys : List (Message P)) → delete_first p xs ≡ some ys
      → select r ys ≡ select r xs
  unfolding delete_first
  select-delete_first r apart [] ys h = ground arith
  select-delete_first r apart (x ∷ xs) ys h = elim (Option-cases (delete_first p xs)) [
    | inl e ↦ ground (arith, apart x)
    | inr (zs, e) ↦ ground (arith, apart x, select-delete_first r apart xs zs e)
  ]

  pub any_of-delete_first-none :
      (xs : List (Message P)) → delete_first p xs ≡ none → any p xs ≡ false
  unfolding delete_first
  any_of-delete_first-none [] h = refl
  any_of-delete_first-none (x ∷ xs) h = ground (arith, any_of-delete_first-none xs)

  module _ (m : Message P) where
    pub length-replace_last :
        (xs ys : List (Message P)) → replace_last p m xs ≡ some ys → length ys ≡ length xs
    unfolding replace_last
    length-replace_last [] ys h = ground arith
    length-replace_last (x ∷ xs) ys h = elim (Option-cases (replace_last p m xs)) [
      | inl e ↦ ground arith
      | inr (zs, e) ↦ ground (arith, length-replace_last xs zs e)
    ]

    pub any_of-replace_last-none :
        (xs : List (Message P)) → replace_last p m xs ≡ none → any p xs ≡ false
    unfolding replace_last
    any_of-replace_last-none [] h = refl
    any_of-replace_last-none (x ∷ xs) h = ground (arith, any_of-replace_last-none xs)

    pub select-replace_last :
        (r : Message P → Bool)
        → ((x : Message P) → p x ≡ true → r x ≡ false)
        → r m ≡ false
        → (xs ys : List (Message P)) → replace_last p m xs ≡ some ys
        → select r ys ≡ select r xs
    unfolding replace_last
    select-replace_last r apart no_m [] ys h = ground arith
    select-replace_last r apart no_m (x ∷ xs) ys h = elim (Option-cases (replace_last p m xs)) [
      | inl e ↦ ground (arith, apart x)
      | inr (zs, e) ↦ ground (arith, apart x, select-replace_last r apart no_m xs zs e)
    ]

  -- A scan that deletes finds a match, and leaves one message less.
  pub delete_first-cases :
      (xs : List (Message P))
      → ((delete_first p xs ≡ none) × (any p xs ≡ false))
        ⊎ ((ys : List (Message P)) × (delete_first p xs ≡ some ys) × (length ys + 1 ≡ length xs))
  delete_first-cases xs = elim (Option-cases (delete_first p xs)) [
    | inl e ↦ inl (e, any_of-delete_first-none xs e)
    | inr (ys, e) ↦ inr (ys, e, length-delete_first xs ys e)
  ]

  -- A scan that replaces keeps the number of messages.
  pub replace_last-cases :
      (m : Message P) (xs : List (Message P))
      → ((replace_last p m xs ≡ none) × (any p xs ≡ false))
        ⊎ ((ys : List (Message P)) × (replace_last p m xs ≡ some ys) × (length ys ≡ length xs))
  replace_last-cases m xs = elim (Option-cases (replace_last p m xs)) [
    | inl e ↦ inl (e, any_of-replace_last-none m xs e)
    | inr (ys, e) ↦ inr (ys, e, length-replace_last m xs ys e)
  ]

  any_of-delete_first-some :
      (xs ys : List (Message P)) → delete_first p xs ≡ some ys → any p xs ≡ true
  unfolding delete_first
  any_of-delete_first-some [] ys h = ground arith
  any_of-delete_first-some (x ∷ xs) ys h = elim (Option-cases (delete_first p xs)) [
    | inl e ↦ ground arith
    | inr (zs, e) ↦ ground (arith, any_of-delete_first-some xs zs e)
  ]

  -- The same, with what a scan keeps of the messages that fail its test.
  pub delete_first_keeps :
      (r : Message P → Bool)
      → ((x : Message P) → p x ≡ true → r x ≡ false)
      → (xs : List (Message P))
      → ((delete_first p xs ≡ none) × (any p xs ≡ false))
        ⊎ ((ys : List (Message P)) × (delete_first p xs ≡ some ys)
            × (length ys + 1 ≡ length xs)
            × (any p xs ≡ true)
            × (select r ys ≡ select r xs))
  delete_first_keeps r apart xs = elim (Option-cases (delete_first p xs)) [
    | inl e ↦ inl (e, any_of-delete_first-none xs e)
    | inr (ys, e) ↦ inr (
      ys,
      e,
      length-delete_first xs ys e,
      any_of-delete_first-some xs ys e,
      select-delete_first r apart xs ys e,
    )
  ]

  pub replace_last_keeps :
      (r : Message P → Bool) (m : Message P)
      → ((x : Message P) → p x ≡ true → r x ≡ false)
      → r m ≡ false
      → (xs : List (Message P))
      → (replace_last p m xs ≡ none)
        ⊎ ((ys : List (Message P)) × (replace_last p m xs ≡ some ys) × (select r ys ≡ select r xs))
  replace_last_keeps r m apart no_m xs = elim (Option-cases (replace_last p m xs)) [
    | inl e ↦ inl e
    | inr (ys, e) ↦ inr (ys, e, select-replace_last m r apart no_m xs ys e)
  ]
