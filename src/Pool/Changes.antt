-- ===== src/Pool/Changes.antt =====
-- What a query or an unpin reports: the symbols that entered and that left the pool.
use lynx_monitor.Prelude.{
  ◌≡◌, refl, Text, Bool, true, false, not, ◌&&◌, ◌||◌, List, [], ◌∷◌, ◌++◌, select, length, text_eq,
  text_eq_iff, arith, Bool-cases, inl, inr, leb, ◌∙◌, codes,
}
use lynx_monitor.Pool.{
  contains, difference, ActiveSymbolPoolManager, PoolChange, recompute_active_pool, record_churn,
  settle, note_symbol, unpin_symbol, sorted,
}
use lynx_monitor.Pool.Members.{contains-append, contains-select, contains-sorted}
use lynx_monitor.Pool.Invariant.{IsValid}

-- A reported change, against the pools before and after.
pub record IsAccurate (before after : List Text) (c : PoolChange) : Type 0 where
  pub added :
      (t : Text) → contains c.added_symbols t ≡ (contains after t && not (contains before t))
  pub evicted :
      (t : Text) → contains c.evicted_symbols t ≡ (contains before t && not (contains after t))

unchanged-IsAccurate :
    (pool : List Text) (c : PoolChange)
    → c.added_symbols ≡ []
    → c.evicted_symbols ≡ []
    → IsAccurate pool pool c
unchanged-IsAccurate pool c no_added no_evicted = record {
  added = λ t. rw no_added (ground arith);
  evicted = λ t. rw no_evicted (ground arith);
}

module _ {R : Type 0} where
  active_pool-record_churn :
      (evicted : List Text) (m : ActiveSymbolPoolManager R)
      → (record_churn evicted m).active_pool ≡ m.active_pool
  unfolding record_churn
  active_pool-record_churn [] m = refl
  active_pool-record_churn (s ∷ ss) m = refl

  settle-IsAccurate :
      (symbol disposition reason : Text) (promoted : List Text → Bool) (before : List Text)
      (m : ActiveSymbolPoolManager R)
      → IsAccurate before
          (settle symbol disposition reason promoted before m).1.active_pool
          (settle symbol disposition reason promoted before m).0
  unfolding settle
  settle-IsAccurate symbol disposition reason promoted before m =
      let pool = (recompute_active_pool m).active_pool in
      let evicted = sorted (difference before pool) in
      rw (active_pool-record_churn evicted (recompute_active_pool m)) (record {
        added = λ t.
            contains-sorted (difference pool before) t
            ∙ contains-select (λ s. not (contains before s)) pool t;
        evicted = λ t.
            contains-sorted (difference before pool) t
            ∙ contains-select (λ s. not (contains pool s)) before t;
      })

  -- In a valid manager every pinned symbol is in the pool.
  pinned-active :
      (m : ActiveSymbolPoolManager R) (t : Text)
      → IsValid m
      → contains m.query_pinned t ≡ true
      → contains m.active_pool t ≡ true
  pinned-active m t v h =
      rw (v.layout) (ground (arith, contains-append m.query_pinned m.base_active t))

  -- In a valid manager, the change that a query returns names as added exactly the symbols that are in
  -- the pool after it and were not before, and as evicted exactly those that were and are not.
  pub note_symbol-IsAccurate :
      (symbol : Text) (m : ActiveSymbolPoolManager R)
      → IsValid m
      → IsAccurate m.active_pool (note_symbol symbol m).1.active_pool (note_symbol symbol m).0
  unfolding note_symbol
  note_symbol-IsAccurate symbol m v = elim (Bool-cases (contains m.active_pool symbol)) [
    | inl active ↦ rw active (unchanged-IsAccurate m.active_pool _ refl refl)
    | inr inactive ↦ elim (Bool-cases (contains m.query_pinned symbol)) [
      | inl old ↦ absurd (ground (arith, pinned-active m symbol v old))
      | inr new ↦ elim (Bool-cases (leb m.config.pinned_max_size (length m.query_pinned))) [
        | inl full ↦ rw (inactive, new, full) (unchanged-IsAccurate m.active_pool _ refl refl)
        | inr room ↦
            rw (inactive, new, room)
              (settle-IsAccurate symbol (codes "pinned") (codes "query_pinned")
                (λ pool. contains pool symbol) m.active_pool
                (record m { query_pinned = m.query_pinned ++ symbol ∷ [] }))
      ]
    ]
  ]

  -- The change that an unpin returns names as added exactly the symbols that are in the pool after it
  -- and were not before, and as evicted exactly those that were and are not.
  pub unpin_symbol-IsAccurate :
      (symbol : Text) (m : ActiveSymbolPoolManager R)
      → IsAccurate m.active_pool (unpin_symbol symbol m).1.active_pool (unpin_symbol symbol m).0
  unfolding unpin_symbol
  unpin_symbol-IsAccurate symbol m = elim (Bool-cases (contains m.query_pinned symbol)) [
    | inr absent ↦ rw absent (unchanged-IsAccurate m.active_pool _ refl refl)
    | inl old ↦ rw old (
        settle-IsAccurate symbol (codes "unpinned") (codes "manual_unpin") (λ pool. false)
          m.active_pool
          (record m { query_pinned = select (λ s. not (text_eq s symbol)) m.query_pinned }))
  ]

  active_pool-settle :
      (symbol disposition reason : Text) (promoted : List Text → Bool) (before : List Text)
      (m : ActiveSymbolPoolManager R)
      → (settle symbol disposition reason promoted before m).1.active_pool
        ≡ (recompute_active_pool m).active_pool
  unfolding settle
  active_pool-settle symbol disposition reason promoted before m =
      active_pool-record_churn (sorted (difference before (recompute_active_pool m).active_pool))
        (recompute_active_pool m)

  recompute-active :
      (m : ActiveSymbolPoolManager R) (t : Text)
      → contains m.query_pinned t ≡ true
      → contains (recompute_active_pool m).active_pool t ≡ true
  unfolding recompute_active_pool
  recompute-active m t h =
      ground (arith, contains-append m.query_pinned (recompute_active_pool m).base_active t)

  -- In a valid manager, a symbol that is queried is in the pool afterwards exactly if it was before or
  -- the number of pins was below its limit; and every symbol that was pinned is still in the pool.
  pub note_symbol-active :
      (symbol : Text) (m : ActiveSymbolPoolManager R)
      → IsValid m
      → (contains (note_symbol symbol m).1.active_pool symbol ≡ (
          contains m.active_pool symbol
          || not (leb m.config.pinned_max_size (length m.query_pinned))))
        × ((t : Text)
            → contains m.query_pinned t ≡ true
            → contains (note_symbol symbol m).1.active_pool t ≡ true)
  unfolding note_symbol
  note_symbol-active symbol m v = elim (Bool-cases (contains m.active_pool symbol)) [
    | inl active ↦ rw active (active, λ t. pinned-active m t v)
    | inr inactive ↦ elim (Bool-cases (contains m.query_pinned symbol)) [
      | inl old ↦ absurd (ground (arith, pinned-active m symbol v old))
      | inr new ↦ elim (Bool-cases (leb m.config.pinned_max_size (length m.query_pinned))) [
        | inl full ↦ rw (inactive, new, full) (inactive, λ t. pinned-active m t v)
        | inr room ↦
            let m' : ActiveSymbolPoolManager R = record m {
              query_pinned = m.query_pinned ++ symbol ∷ [];
            } in
            rw (inactive, new, room, active_pool-settle)
              (
                recompute-active m' symbol (
                    ground (
                      arith,
                      contains-append m.query_pinned (symbol ∷ []) symbol,
                      text_eq_iff symbol symbol,
                    )),
                λ t h.
                    recompute-active m' t
                      (ground (arith, contains-append m.query_pinned (symbol ∷ []) t)),
              )
      ]
    ]
  ]
