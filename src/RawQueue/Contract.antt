-- ===== src/RawQueue/Contract.antt =====
-- One `push` or one `pop`, against the queue of keyed payloads.
use lynx_monitor.Prelude.{
  ◌+◌, ◌≤◌, ◌<◌, ◌≡◌, refl, Text, Option, none, some, List, [], ◌∷◌, ◌++◌, if◌then◌else◌, length,
  length-append, text_eq_iff, text_equality, arith, Option-cases, inl, inr, eq_refl,
}
use lynx_monitor.Prelude.Dict.{Dict, get, put, remove, get-put, get-remove}
use lynx_monitor.RawQueue.{Item, event, marker, BoundedRawEventQueue, push_keyed, pop_from, pop}
use lynx_monitor.RawQueue.Refinement.{
  count_marker, present, IsMatched, view, offer, count_marker-append, view-append, view-put_absent,
  view-remove_absent, view-put_present, Covered, Covered-head, length-view, any-view,
}

module _ {ℓ} {E : Type ℓ} where
  -- Deque and dict are matched, and the deque is within its bound.
  pub record IsValid (q : BoundedRawEventQueue E) : Type ℓ where
    pub match : IsMatched q.items q.coalesced_items
    pub bounded : length q.items ≤ q.max_size

  abbrev pub contents : BoundedRawEventQueue E → List (Option Text × E)
  contents q = view q.items q.coalesced_items

  covered : {items : List (Item E)} {d : Dict Text E} → IsMatched items d → Covered items d
  covered m k = omega (arith, m.matched k)

  push_keyed-IsMatched :
      (key : Option Text) (e : E) (q : BoundedRawEventQueue E)
      → IsValid q
      → (k : Text)
      → count_marker k (push_keyed key e q).0.items
        ≡ present (get (push_keyed key e q).0.coalesced_items k)
  unfolding push_keyed count_marker
  push_keyed-IsMatched none e q v k =
      ground (arith, v.match.matched k, count_marker-append k q.items (event e ∷ []))
  push_keyed-IsMatched (some key) e q v k = ground (
    arith,
    v.match.matched k,
    v.match.matched key,
    count_marker-append k q.items (marker key ∷ []),
    get-put q.coalesced_items key k e,
    text_eq_iff key k,
  )

  push_keyed-bounded :
      (key : Option Text) (e : E) (q : BoundedRawEventQueue E)
      → length q.items ≤ q.max_size
      → length (push_keyed key e q).0.items ≤ (push_keyed key e q).0.max_size
  unfolding push_keyed
  push_keyed-bounded none e q fits = ground (arith, length-append q.items (event e ∷ []))
  push_keyed-bounded (some key) e q fits = ground (arith, length-append q.items (marker key ∷ []))

  pub push_keyed-IsValid :
      (key : Option Text) (e : E) (q : BoundedRawEventQueue E)
      → IsValid q
      → IsValid (push_keyed key e q).0
  push_keyed-IsValid key e q v = record {
    match = record { matched = push_keyed-IsMatched key e q v };
    bounded = push_keyed-bounded key e q v.bounded;
  }

  pub push_keyed-contents :
      (key : Option Text) (e : E) (q : BoundedRawEventQueue E)
      → IsValid q
      → (contents (push_keyed key e q).0, (push_keyed key e q).1)
        ≡ offer q.max_size key e (contents q)
  unfolding push_keyed view
  push_keyed-contents none e q v =
      let c = covered v.match in
      ground (
        arith,
        length-view q.items q.coalesced_items c,
        view-append q.items (event e ∷ []) q.coalesced_items,
      )
  push_keyed-contents (some key) e q v = elim (Option-cases (get q.coalesced_items key)) [
    | inr (x, g) ↦ ground (
      arith,
      v.match.matched key,
      any-view key q.items q.coalesced_items (covered v.match),
      view-put_present key e x q.items q.coalesced_items g,
    )
    | inl g ↦ ground (
      arith,
      v.match.matched key,
      any-view key q.items q.coalesced_items (covered v.match),
      length-view q.items q.coalesced_items (covered v.match),
      view-put_absent key e q.items q.coalesced_items,
      view-append q.items (marker key ∷ []) (put q.coalesced_items key e),
      get-put q.coalesced_items key key e,
      eq_refl key,
    )
  ]

  pub push_keyed-dropped :
      (key : Option Text) (e : E) (q : BoundedRawEventQueue E)
      → (push_keyed key e q).0.dropped
        ≡ (if (push_keyed key e q).1 then q.dropped else q.dropped ++ e ∷ [])
  unfolding push_keyed
  push_keyed-dropped none e q = ground arith
  push_keyed-dropped (some key) e q = ground arith

  pub max_size-push_keyed :
      (key : Option Text) (e : E) (q : BoundedRawEventQueue E)
      → (push_keyed key e q).0.max_size ≡ q.max_size
  unfolding push_keyed
  max_size-push_keyed none e q = ground arith
  max_size-push_keyed (some key) e q = ground arith

  abbrev pub take_first : List (Option Text × E) → Option E × List (Option Text × E)
  take_first [] = (none, [])
  take_first ((k, e) ∷ xs) = (some e, xs)

  pop_from-contents :
      (items : List (Item E)) (d : Dict Text E)
      → IsMatched items d
      → ((pop_from items d).0, view (pop_from items d).1.0 (pop_from items d).1.1)
        ≡ take_first (view items d)
  unfolding pop_from view count_marker
  pop_from-contents [] d m = refl
  pop_from-contents (event x ∷ xs) d m = refl
  pop_from-contents (marker j ∷ xs) d m =
      let (e, g, zero_left) = Covered-head j xs d (covered m) in
      ground (arith, view-remove_absent j xs d)

  pop_from-IsMatched :
      (items : List (Item E)) (d : Dict Text E)
      → IsMatched items d
      → IsMatched (pop_from items d).1.0 (pop_from items d).1.1
  unfolding pop_from count_marker
  pop_from-IsMatched [] d m = m
  pop_from-IsMatched (event x ∷ xs) d m = record { matched = m.matched }
  pop_from-IsMatched (marker j ∷ xs) d m =
      let (e, g, zero_left) = Covered-head j xs d (covered m) in
      record { matched = λ k. ground (arith, m.matched k, get-remove d j k, text_eq_iff j k) }

  pop_from-bounded :
      (items : List (Item E)) (d : Dict Text E) → length (pop_from items d).1.0 ≤ length items
  unfolding pop_from
  pop_from-bounded [] d = omega arith
  pop_from-bounded (event x ∷ xs) d = omega arith
  pop_from-bounded (marker j ∷ xs) d = ground (arith, pop_from-bounded xs (remove d j))

  progress :
      (items : List (Item E)) (d : Dict Text E)
      → IsMatched items d
      → 0 < length items
      → (e : E) × ((pop_from items d).0 ≡ some e)
        × (length (pop_from items d).1.0 + 1 ≡ length items)
  unfolding pop_from
  progress [] d m pending = absurd (omega arith)
  progress (event x ∷ xs) d m pending = (x, refl, omega arith)
  progress (marker j ∷ xs) d m pending =
      let (e, g, zero_left) = Covered-head j xs d (covered m) in (e, ground arith, ground arith)

  -- On a valid queue `pop` returns the oldest payload of the contents, the newest of its key, and takes
  -- it off; on empty contents it returns nothing.
  pub pop-contents :
      (q : BoundedRawEventQueue E)
      → IsValid q
      → ((pop q).0, contents (pop q).1) ≡ take_first (contents q)
  unfolding pop
  pop-contents q v = pop_from-contents q.items q.coalesced_items v.match

  -- `pop` keeps the deque and the dict matched, and the bound.
  pub pop-IsValid : (q : BoundedRawEventQueue E) → IsValid q → IsValid (pop q).1
  unfolding pop
  pop-IsValid q v = record {
    match = pop_from-IsMatched q.items q.coalesced_items v.match;
    bounded = omega (arith, v.bounded, pop_from-bounded q.items q.coalesced_items);
  }

  -- While the deque of a valid queue is not empty a `pop` returns a payload, and the deque gets shorter by
  -- one.
  pub pop-progress :
      (q : BoundedRawEventQueue E)
      → IsValid q
      → 0 < length q.items
      → (e : E) × ((pop q).0 ≡ some e) × (length (pop q).1.items + 1 ≡ length q.items)
  unfolding pop
  pop-progress q v pending = progress q.items q.coalesced_items v.match pending
