-- ===== src/Pool/Invariant.antt =====
-- The pool is the pinned symbols and then as many base symbols as fit; every operation keeps it so.
use lynx_monitor.Prelude.{
  ◌+◌, ◌-◌, ◌≤◌, ◌<◌, ◌≡◌, refl, Text, Bool, false, not, List, [], ◌∷◌, ◌++◌, select, take, length,
  length-append, length-take, length-select-le, text_eq, text_eq_iff, arith, Bool-cases,
  Result-cases, inl, inr, map, max, min, leb, All, ok, raise, none, codes,
}
use lynx_monitor.Symbols.{normalize_subscription_symbol}
use lynx_monitor.Pool.{
  contains, difference, ActiveSymbolPoolManager, Ranking, base_source, recompute_active_pool,
  record_churn, rebuild_base_active, settle, note_symbol, unpin_symbol, note_query, manual_unpin,
  sorted,
}
use lynx_monitor.Pool.Members.{
  Distinct, contains-select, contains-take, select-Distinct, take-Distinct, append-Distinct,
}

module _ {R : Type 0} where
  -- What holds before the pool is recomputed.
  pub record IsReady (m : ActiveSymbolPoolManager R) : Type 0 where
    pub pinned : Distinct m.query_pinned
    pub source : Distinct (base_source m)
    pub limit : length m.query_pinned ≤ m.config.pinned_max_size

  pub record IsValid (m : ActiveSymbolPoolManager R) : Type 0 where
    pub ready : IsReady m
    pub layout : m.active_pool ≡ m.query_pinned ++ m.base_active
    pub base :
        m.base_active
        ≡ take
            (m.config.target_size - length m.query_pinned)
            (difference (base_source m) m.query_pinned)

  pub recompute-IsValid :
      (m : ActiveSymbolPoolManager R) → IsReady m → IsValid (recompute_active_pool m)
  unfolding recompute_active_pool
  recompute-IsValid m h = record {
    ready = record { pinned = h.pinned; source = h.source; limit = h.limit };
    layout = refl;
    base = refl;
  }

  record_churn-IsValid :
      (evicted : List Text) (m : ActiveSymbolPoolManager R)
      → IsValid m
      → IsValid (record_churn evicted m)
  unfolding record_churn
  record_churn-IsValid [] m v = v
  record_churn-IsValid (s ∷ ss) m v = record {
    ready = record { pinned = v.ready.pinned; source = v.ready.source; limit = v.ready.limit };
    layout = v.layout;
    base = v.base;
  }

  pub settle-IsValid :
      (symbol disposition reason : Text) (promoted : List Text → Bool) (before : List Text)
      (m : ActiveSymbolPoolManager R)
      → IsReady m
      → IsValid (settle symbol disposition reason promoted before m).1
  unfolding settle
  settle-IsValid symbol disposition reason promoted before m h =
      record_churn-IsValid (sorted (difference before (recompute_active_pool m).active_pool))
        (recompute_active_pool m) (recompute-IsValid m h)

  -- A new pin, below the limit.
  pinned-IsReady :
      (symbol : Text) (m : ActiveSymbolPoolManager R)
      → IsReady m
      → contains m.query_pinned symbol ≡ false
      → length m.query_pinned < m.config.pinned_max_size
      → IsReady (record m { query_pinned = m.query_pinned ++ symbol ∷ [] })
  pinned-IsReady symbol m h new room = record {
    pinned =
        append-Distinct m.query_pinned (symbol ∷ []) h.pinned (refl, tt)
          λ s k. ground (arith, text_eq_iff symbol s);
    source = h.source;
    limit = omega (arith, length-append m.query_pinned (symbol ∷ []));
  }

  pub note_symbol-IsValid :
      (symbol : Text) (m : ActiveSymbolPoolManager R) → IsValid m → IsValid (note_symbol symbol m).1
  unfolding note_symbol
  note_symbol-IsValid symbol m v = elim (Bool-cases (contains m.active_pool symbol)) [
    | inl active ↦ rw active v
    | inr inactive ↦ elim (Bool-cases (contains m.query_pinned symbol)) [
      | inl old ↦ rw (inactive, old) (recompute-IsValid m v.ready)
      | inr new ↦ elim (Bool-cases (leb m.config.pinned_max_size (length m.query_pinned))) [
        | inl full ↦
            rw (inactive, new, full)
              (record {
                ready = record {
                  pinned = v.ready.pinned;
                  source = v.ready.source;
                  limit = v.ready.limit;
                };
                layout = v.layout;
                base = v.base;
              })
        | inr room ↦
            rw (inactive, new, room)
              (settle-IsValid symbol (codes "pinned") (codes "query_pinned")
                (λ pool. contains pool symbol) m.active_pool
                (record m { query_pinned = m.query_pinned ++ symbol ∷ [] })
                (pinned-IsReady symbol m v.ready new (ground arith)))
      ]
    ]
  ]

  pub unpin_symbol-IsValid :
      (symbol : Text) (m : ActiveSymbolPoolManager R)
      → IsValid m
      → IsValid (unpin_symbol symbol m).1
  unfolding unpin_symbol
  unpin_symbol-IsValid symbol m v = elim (Bool-cases (contains m.query_pinned symbol)) [
    | inr absent ↦ rw absent (record {
      ready = record { pinned = v.ready.pinned; source = v.ready.source; limit = v.ready.limit };
      layout = v.layout;
      base = v.base;
    })
    | inl old ↦ rw old (
        settle-IsValid symbol (codes "unpinned") (codes "manual_unpin") (λ pool. false)
          m.active_pool
          (record m { query_pinned = select (λ s. not (text_eq s symbol)) m.query_pinned })
          (record {
            pinned = select-Distinct (λ s. not (text_eq s symbol)) m.query_pinned v.ready.pinned;
            source = v.ready.source;
            limit = omega (
              arith,
              v.ready.limit,
              length-select-le (λ s. not (text_eq s symbol)) m.query_pinned,
            );
          }))
  ]

  -- In a valid manager the pool has no repeats, and its size is the target size, or the number of pins
  -- if that is more, or the number of all pins and candidates if that is less.
  pub pool_size :
      (m : ActiveSymbolPoolManager R)
      → IsValid m
      → Distinct m.active_pool
        × (length m.active_pool
            ≡ min
                (max m.config.target_size (length m.query_pinned))
                (length m.query_pinned + length (difference (base_source m) m.query_pinned)))
  pool_size m v =
      let free = difference (base_source m) m.query_pinned in
      let slots = m.config.target_size - length m.query_pinned in
      rw (v.layout, v.base)
        (
          append-Distinct m.query_pinned (take slots free) v.ready.pinned
              (take-Distinct slots free (
                select-Distinct (λ s. not (contains m.query_pinned s)) (base_source m)
                  v.ready.source))
              λ s h. contains-take slots free s (
                ground (
                  arith,
                  contains-select (λ s. not (contains m.query_pinned s)) (base_source m) s,
                )),
          omega (arith, length-append m.query_pinned (take slots free), length-take slots free),
        )

-- The operations on a manager after its start.
pub data Operation (R : Type 0) : Type 0 where
  note : Text → Operation R
  unpin : Text → Operation R
  rebuild : Ranking R → Operation R

-- A ranking that a rebuild takes ranks each symbol once.
unfoldable pub RanksOnce : {R : Type 0} → Operation R → Type 0
RanksOnce (note raw) = Unit
RanksOnce (unpin raw) = Unit
RanksOnce (rebuild r) = Distinct (map (λ e. e.0) r.ranks)

module _ {R : Type 0} where
  -- A symbol that cannot be normalised raises, and the manager stays as it was.
  unfoldable pub operate : Operation R → ActiveSymbolPoolManager R → ActiveSymbolPoolManager R
  unfolding note_query manual_unpin
  operate (note raw) m = elim (note_query raw m) [ ok r ↦ r.1 | raise _ ↦ m ]
  operate (unpin raw) m = elim (manual_unpin raw m) [ ok r ↦ r.1 | raise _ ↦ m ]
  operate (rebuild r) m = rebuild_base_active r m

  unfoldable pub operate_all :
      List (Operation R) → ActiveSymbolPoolManager R → ActiveSymbolPoolManager R
  unfolding operate
  operate_all [] m = m
  operate_all (op ∷ ops) m = operate_all ops (operate op m)

  note_query-IsValid :
      (raw : Text) (m : ActiveSymbolPoolManager R) → IsValid m → IsValid (operate (note raw) m)
  unfolding operate note_query
  note_query-IsValid raw m v = elim (Result-cases (normalize_subscription_symbol raw)) [
    | inl (s, e) ↦ rw (e, operate) (note_symbol-IsValid s m v)
    | inr (_, e) ↦ rw (e, operate) v
  ]

  manual_unpin-IsValid :
      (raw : Text) (m : ActiveSymbolPoolManager R) → IsValid m → IsValid (operate (unpin raw) m)
  unfolding operate manual_unpin
  manual_unpin-IsValid raw m v = elim (Result-cases (normalize_subscription_symbol raw)) [
    | inl (s, e) ↦ rw (e, operate) (unpin_symbol-IsValid s m v)
    | inr (_, e) ↦ rw (e, operate) v
  ]

  operate-IsValid :
      (op : Operation R) (m : ActiveSymbolPoolManager R)
      → RanksOnce op
      → IsValid m
      → IsValid (operate op m)
  unfolding operate rebuild_base_active RanksOnce
  operate-IsValid (note raw) m h v = note_query-IsValid raw m v
  operate-IsValid (unpin raw) m h v = manual_unpin-IsValid raw m v
  operate-IsValid (rebuild r) m h v =
      recompute-IsValid
        (record m {
          ranks_by_symbol = r.ranks;
          classification_by_symbol = r.classifications;
          excluded_symbols = r.excluded;
          explicit_base_symbols = none;
        })
        (record { pinned = v.ready.pinned; source = h; limit = v.ready.limit })

  -- After any sequence of queries, unpins and rebuilds whose rankings rank each symbol once, a valid
  -- manager is valid: its pins are distinct and within their limit, and the pool is the pins and then
  -- the first base candidates that are not pinned, up to the target size.
  pub operate_all-IsValid :
      (ops : List (Operation R)) (m : ActiveSymbolPoolManager R)
      → All RanksOnce ops
      → IsValid m
      → IsValid (operate_all ops m)
  unfolding operate_all
  operate_all-IsValid [] m h v = v
  operate_all-IsValid (op ∷ ops) m h v =
      operate_all-IsValid ops (operate op m) h.1 (operate-IsValid op m h.0 v)
