-- ===== src/RawQueue/Refinement.antt =====
-- The deque of payloads and markers, with its dict, behaves as one queue of keyed payloads.
use lynx_monitor.Prelude.{
  ℕ, suc, ◌+◌, ◌≤◌, ◌≡◌, refl, Text, Bool, true, false, Option, none, some, List, [], ◌∷◌, ◌++◌,
  any, leb, if◌then◌else◌, length, text_eq, text_eq_iff, text_equality, arith, Option-cases, inl,
  inr, map, ap, eq_refl,
}
use lynx_monitor.Prelude.Dict.{Dict, get, put, remove, get-put, get-remove}
use lynx_monitor.RawQueue.{Item, event, marker}

module _ {ℓ} {E : Type ℓ} where
  -- How often the marker of a key stands in the deque.
  unfoldable pub count_marker : Text → List (Item E) → ℕ
  count_marker k [] = 0
  count_marker k (event e ∷ xs) = count_marker k xs
  count_marker k (marker j ∷ xs) =
      if text_eq j k then suc (count_marker k xs) else count_marker k xs

  abbrev pub present : Option E → ℕ
  present none = 0
  present (some e) = 1

  -- Each key of the dict has one marker in the deque, and no other key has any.
  pub record IsMatched (items : List (Item E)) (d : Dict Text E) : Type ℓ where
    pub matched : (k : Text) → count_marker k items ≡ present (get d k)

  -- What the queue holds: the payloads, in order, each with its key if it has one.
  unfoldable pub view : List (Item E) → Dict Text E → List (Option Text × E)
  view [] d = []
  view (event e ∷ xs) d = (none, e) ∷ view xs d
  view (marker k ∷ xs) d =
      let rest = view xs d in elim (get d k) [ none ↦ rest | some e ↦ (some k, e) ∷ rest ]

  abbrev pub has_key : Text → Option Text × E → Bool
  has_key k (none, e) = false
  has_key k (some j, e) = text_eq j k

  abbrev pub replace_entry : Text → E → Option Text × E → Option Text × E
  replace_entry k e x = if has_key k x then (some k, e) else x

  -- The queue that `push` and `pop` implement.
  abbrev pub offer : ℕ → Option Text → E → List (Option Text × E) → List (Option Text × E) × Bool
  offer max_size none e xs =
      if leb max_size (length xs) then (xs, false) else (xs ++ (none, e) ∷ [], true)
  offer max_size (some k) e xs =
      if any (has_key k) xs
      then (map (replace_entry k e) xs, true)
      else if leb max_size (length xs)
      then (xs, false)
      else (xs ++ (some k, e) ∷ [], true)

  pub count_marker-append :
      (k : Text) (xs ys : List (Item E))
      → count_marker k (xs ++ ys) ≡ count_marker k xs + count_marker k ys
  unfolding count_marker
  count_marker-append k [] ys = omega arith
  count_marker-append k (event e ∷ xs) ys = ground (arith, count_marker-append k xs ys)
  count_marker-append k (marker j ∷ xs) ys = ground (arith, count_marker-append k xs ys)

  pub view-append :
      (xs ys : List (Item E)) (d : Dict Text E) → view (xs ++ ys) d ≡ view xs d ++ view ys d
  unfolding view
  view-append [] ys d = refl
  view-append (event e ∷ xs) ys d = ground (arith, view-append xs ys d)
  view-append (marker j ∷ xs) ys d = ground (arith, view-append xs ys d)

  -- A key without a marker does not show.
  pub view-put_absent :
      (k : Text) (e : E) (xs : List (Item E)) (d : Dict Text E)
      → count_marker k xs ≡ 0
      → view xs (put d k e) ≡ view xs d
  unfolding view count_marker
  view-put_absent k e [] d h = refl
  view-put_absent k e (event x ∷ xs) d h = ground (arith, view-put_absent k e xs d)
  view-put_absent k e (marker j ∷ xs) d h =
      ground (arith, view-put_absent k e xs d, get-put d k j e, text_eq_iff j k, text_eq_iff k j)

  pub view-remove_absent :
      (k : Text) (xs : List (Item E)) (d : Dict Text E)
      → count_marker k xs ≡ 0
      → view xs (remove d k) ≡ view xs d
  unfolding view count_marker
  view-remove_absent k [] d h = refl
  view-remove_absent k (event x ∷ xs) d h = ground (arith, view-remove_absent k xs d)
  view-remove_absent k (marker j ∷ xs) d h =
      ground (arith, view-remove_absent k xs d, get-remove d k j, text_eq_iff j k, text_eq_iff k j)

  pub view-put_present :
      (k : Text) (e e' : E) (xs : List (Item E)) (d : Dict Text E)
      → get d k ≡ some e'
      → view xs (put d k e) ≡ map (replace_entry k e) (view xs d)
  unfolding view
  view-put_present k e e' [] d h = refl
  view-put_present k e e' (event x ∷ xs) d h = ground (arith, view-put_present k e e' xs d)
  view-put_present k e e' (marker j ∷ xs) d h = elim (Option-cases (get d j)) [
    | inl g ↦
        ground
          (arith, view-put_present k e e' xs d, get-put d k j e, text_eq_iff j k, text_eq_iff k j)
    | inr (x, g) ↦
        ground
          (arith, view-put_present k e e' xs d, get-put d k j e, text_eq_iff j k, text_eq_iff k j)
  ]

  -- No marker is without its payload.
  abbrev pub Covered : List (Item E) → Dict Text E → Type 0
  Covered xs d = (k : Text) → count_marker k xs ≤ present (get d k)

  pub Covered-tail :
      (x : Item E) (xs : List (Item E)) (d : Dict Text E) → Covered (x ∷ xs) d → Covered xs d
  unfolding count_marker
  Covered-tail (event x) xs d c k = c k
  Covered-tail (marker j) xs d c k = ground (arith, c k)

  pub Covered-head :
      (j : Text) (xs : List (Item E)) (d : Dict Text E)
      → Covered (marker j ∷ xs) d
      → (e : E) × (get d j ≡ some e) × (count_marker j xs ≡ 0)
  unfolding count_marker
  Covered-head j xs d c = elim (Option-cases (get d j)) [
    | inl g ↦ absurd (ground (arith, c j, eq_refl j))
    | inr (e, g) ↦ (e, g, ground (arith, c j, eq_refl j))
  ]

  pub length-view :
      (xs : List (Item E)) (d : Dict Text E) → Covered xs d → length (view xs d) ≡ length xs
  unfolding view count_marker
  length-view [] d c = refl
  length-view (event x ∷ xs) d c = ap suc (length-view xs d c)
  length-view (marker j ∷ xs) d c =
      let (e, g, _) = Covered-head j xs d c in
      ground (arith, length-view xs d (Covered-tail (marker j) xs d c))

  pub any-view :
      (k : Text) (xs : List (Item E)) (d : Dict Text E)
      → Covered xs d
      → any (has_key k) (view xs d) ≡ leb 1 (count_marker k xs)
  unfolding view count_marker
  any-view k [] d c = refl
  any-view k (event x ∷ xs) d c = any-view k xs d c
  any-view k (marker j ∷ xs) d c =
      let (e, g, _) = Covered-head j xs d c in
      ground (arith, any-view k xs d (Covered-tail (marker j) xs d c))
