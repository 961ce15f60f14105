-- ===== src/Runtime/Capacity.antt =====
-- The capacity of hydrations when threads hydrate at a time.
use lynx_monitor.Prelude.{
  ℕ, suc, ◌+◌, ◌≤◌, Text, true, false, Option, some, List, [], ◌∷◌, ◌≡◌, refl, ap, ◌∙◌, sym, subst,
  Result, inl, inr, arith, Option-cases, Bool-cases, map, length, leb,
}
use lynx_monitor.Value.{Fields}
use lynx_monitor.Contracts.{Python}
use lynx_monitor.Hydration.{HydrationKey, is_active}
use lynx_monitor.Hydration.Exclusive.{same_key_iff, is_active-discard}
use lynx_monitor.Runtime.{SymbolRuntime, hydration_key, hydrating, is_cold}
use lynx_monitor.Runtime.Manager.{SymbolRuntimeManager, adjust, runtime_at, fresh_manager}
use lynx_monitor.Runtime.Hydrate.{
  Begun, waits, settled, rejected, started, begin_hydration, finish_hydration, over_capacity,
  hydrated,
}
use lynx_monitor.Runtime.Threads.{
  Load, Hydrations, HydrationEvent, begin, finish, others_change, load_of, without, begun,
  happen_hydration, run_hydrations,
}

abbrev pub DistinctKeys : List HydrationKey → Type 0
DistinctKeys [] = Unit {0}
DistinctKeys (k ∷ ks) = (is_active ks k ≡ false) × DistinctKeys ks

without-none :
    (key : HydrationKey) (ks : List HydrationKey)
    → is_active ks key ≡ false
    → without (λ k. k) key ks ≡ ks
without-none key [] h = refl
without-none key (k ∷ ks) h = ground (arith, without-none key ks)

-- A key among distinct ones is discarded once.
length-without :
    (key : HydrationKey) (ks : List HydrationKey)
    → DistinctKeys ks
    → is_active ks key ≡ true
    → length (without (λ k. k) key ks) + 1 ≡ length ks
length-without key [] distinct h = ground (arith, h)
length-without key (k ∷ ks) (new, distinct) h =
    ground (arith, same_key_iff k key, length-without key ks distinct, without-none key ks)

without-DistinctKeys :
    (key : HydrationKey) (ks : List HydrationKey)
    → DistinctKeys ks
    → DistinctKeys (without (λ k. k) key ks)
without-DistinctKeys key [] h = tt
without-DistinctKeys key (k ∷ ks) (new, distinct) =
    ground (arith, is_active-discard ks key k, without-DistinctKeys key ks distinct)

-- The threads that load are those of the keys.
keys-without :
    (key : HydrationKey) (ls : List Load)
    → map (λ l. l.key) (without (λ l. l.key) key ls) ≡ without (λ k. k) key (map (λ l. l.key) ls)
keys-without key [] = refl
keys-without key (l ∷ ls) = ground (arith, keys-without key ls)

load_of-active :
    (ls : List Load) (key : HydrationKey) (l : Load)
    → load_of ls key ≡ some l
    → is_active (map (λ l. l.key) ls) key ≡ true
load_of-active [] key l h = ground (arith, h)
load_of-active (m ∷ ls) key l h = ground (arith, h, load_of-active ls key l)

-- What a change of the runtimes leaves of a manager's hydrations
record SameHydrations {T : Type 0} (m n : SymbolRuntimeManager T) : Type 0 where
  keys : m.hydrating ≡ n.hydrating
  active : m.active_hydrations ≡ n.active_hydrations
  capacity : m.max_concurrent_hydrations ≡ n.max_concurrent_hydrations

-- The keys that are loaded are those of the threads, once each, as many as are counted, within the capacity.
pub record IsWithinCapacity {T : Type 0} (capacity : ℕ) (s : Hydrations T) : Type 0 where
  pub keys : map (λ l. l.key) s.loads ≡ s.manager.hydrating
  pub distinct : DistinctKeys s.manager.hydrating
  pub active : s.manager.active_hydrations ≡ length s.loads
  pub bounded : s.manager.active_hydrations ≤ capacity
  pub fixed : s.manager.max_concurrent_hydrations ≡ capacity

module _ {T : Type 0} where
  adjust-SameHydrations :
      (symbol : Text) (f : SymbolRuntime T → SymbolRuntime T) (m : SymbolRuntimeManager T)
      → SameHydrations (adjust symbol f m) m
  unfolding adjust
  adjust-SameHydrations symbol f m = elim (Option-cases (runtime_at symbol m)) [
    | inl e ↦ record {
      keys = ground (arith, e);
      active = ground (arith, e);
      capacity = ground (arith, e);
    }
    | inr (r, e) ↦ record {
      keys = ground (arith, e);
      active = ground (arith, e);
      capacity = ground (arith, e);
    }
  ]

length-loads : (ls : List Load) → length (map (λ l. l.key) ls) ≡ length ls
length-loads [] = refl
length-loads (l ∷ ls) = ap suc (length-loads ls)

module _ {T : Type 0} (py : Python) (trade_date : Text) (reason : Text) (capacity : ℕ) where
  kept_by :
      {m n : SymbolRuntimeManager T} {loads : List Load}
      → SameHydrations m n
      → IsWithinCapacity capacity (record { manager = n; loads = loads })
      → IsWithinCapacity capacity (record { manager = m; loads = loads })
  kept_by same h = record {
    keys = h.keys ∙ sym same.keys;
    distinct = subst DistinctKeys (sym same.keys) h.distinct;
    active = same.active ∙ h.active;
    bounded = ground (arith, same.active, h.bounded);
    fixed = same.capacity ∙ h.fixed;
  }

  begun_as :
      (r : SymbolRuntime T) (key : HydrationKey) (timestamp : Text) (s : Hydrations T)
      (b : Begun × SymbolRuntimeManager T)
      → begin_hydration key reason trade_date timestamp r s.manager ≡ b
      → IsWithinCapacity capacity
          (begun py trade_date reason (record { key = key; symbol = r.symbol }) s.loads b)
      → IsWithinCapacity capacity (
          begun py trade_date reason
            (record { key = key; symbol = r.symbol })
            s.loads
            (begin_hydration key reason trade_date timestamp r s.manager))
  begun_as r key timestamp s b e h =
      subst
        (λ c.
          IsWithinCapacity capacity
            (begun py trade_date reason (record { key = key; symbol = r.symbol }) s.loads c))
        (sym e) h

  begun-IsWithinCapacity :
      (r : SymbolRuntime T) (key : HydrationKey) (timestamp : Text) (s : Hydrations T)
      → IsWithinCapacity capacity s
      → IsWithinCapacity capacity (
          begun py trade_date reason
            (record { key = key; symbol = r.symbol })
            s.loads
            (begin_hydration key reason trade_date timestamp r s.manager))
  unfolding begin_hydration
  begun-IsWithinCapacity r key timestamp s h =
      let m = s.manager in
      let rejecting : SymbolRuntimeManager T = record m {
        capacity_rejections = m.capacity_rejections + 1;
      } in
      let starting : SymbolRuntimeManager T = record m {
        hydrating = key ∷ m.hydrating;
        active_hydrations = m.active_hydrations + 1;
      } in
      elim (Bool-cases (is_active m.hydrating key)) [
        | inl a ↦ begun_as r key timestamp s (waits, m) (ground (arith, a)) h
        | inr a ↦ elim (Bool-cases (is_cold r.state)) [
          | inr c ↦ begun_as r key timestamp s (settled, m) (ground (arith, a, c)) h
          | inl c ↦ elim (Bool-cases (leb m.max_concurrent_hydrations m.active_hydrations)) [
            | inl f ↦
                begun_as r key timestamp s
                  (rejected, adjust r.symbol (over_capacity reason trade_date timestamp) rejecting)
                  (ground (arith, a, c, f))
                  (kept_by
                    (adjust-SameHydrations r.symbol (over_capacity reason trade_date timestamp)
                      rejecting)
                    (record {
                      keys = h.keys;
                      distinct = h.distinct;
                      active = h.active;
                      bounded = h.bounded;
                      fixed = h.fixed;
                    }))
            | inr f ↦
                begun_as r key timestamp s
                  (started, adjust r.symbol (λ s. record s { state = hydrating }) starting)
                  (ground (arith, a, c, f))
                  (kept_by
                    (adjust-SameHydrations r.symbol (λ s. record s { state = hydrating }) starting)
                    (record {
                      keys = ap (◌∷◌ key) h.keys;
                      distinct = (a, h.distinct);
                      active = omega (arith, h.active);
                      bounded = ground (arith, f, h.fixed, h.bounded);
                      fixed = h.fixed;
                    }))
          ]
        ]
      ]

  finished-IsWithinCapacity :
      (key : HydrationKey) (l : Load) (result : Result (Option Fields)) (s : Hydrations T)
      → load_of s.loads key ≡ some l
      → IsWithinCapacity capacity s
      → IsWithinCapacity capacity (record {
        manager = finish_hydration py key l.symbol result s.manager;
        loads = without (λ l. l.key) key s.loads;
      })
  unfolding finish_hydration
  finished-IsWithinCapacity key l result s found h =
      let same = adjust-SameHydrations l.symbol (hydrated py result) s.manager in
      record {
        keys = keys-without key s.loads ∙ ap (without (λ k. k) key) (h.keys ∙ sym same.keys);
        distinct =
            subst (λ ks. DistinctKeys (without (λ k. k) key ks)) (sym same.keys)
              (without-DistinctKeys key s.manager.hydrating h.distinct);
        active = ground (
          arith,
          same.active,
          h.active,
          h.keys,
          keys-without key s.loads,
          length-loads s.loads,
          length-loads (without (λ l. l.key) key s.loads),
          length-without key s.manager.hydrating h.distinct
              (subst (λ ks. is_active ks key ≡ true) h.keys (load_of-active s.loads key l found)),
        );
        bounded = ground (arith, same.active, h.bounded);
        fixed = same.capacity ∙ h.fixed;
      }

  happen_hydration-IsWithinCapacity :
      (e : HydrationEvent T) (s : Hydrations T)
      → IsWithinCapacity capacity s
      → IsWithinCapacity capacity (happen_hydration py trade_date reason e s)
  unfolding happen_hydration
  happen_hydration-IsWithinCapacity (begin symbol timestamp) s h =
      elim (Option-cases (runtime_at symbol s.manager)) [
        | inl e ↦ rw (happen_hydration, e) h
        | inr (r, e) ↦
            rw (happen_hydration, e)
              (begun-IsWithinCapacity r (hydration_key py trade_date r) timestamp s h)
      ]
  happen_hydration-IsWithinCapacity (finish key result) s h =
      elim (Option-cases (load_of s.loads key)) [
        | inl e ↦ rw (happen_hydration, e) h
        | inr (l, e) ↦ rw (happen_hydration, e) (finished-IsWithinCapacity key l result s e h)
      ]
  happen_hydration-IsWithinCapacity (others_change runtimes) s h = record {
    keys = h.keys;
    distinct = h.distinct;
    active = h.active;
    bounded = h.bounded;
    fixed = h.fixed;
  }

  run_hydrations-IsWithinCapacity_from :
      (es : List (HydrationEvent T)) (s : Hydrations T)
      → IsWithinCapacity capacity s
      → IsWithinCapacity capacity (run_hydrations py trade_date reason es s)
  unfolding run_hydrations
  run_hydrations-IsWithinCapacity_from [] s h = h
  run_hydrations-IsWithinCapacity_from (e ∷ es) s h =
      run_hydrations-IsWithinCapacity_from es _ (happen_hydration-IsWithinCapacity e s h)

  -- However hydrations begin and finish, and the runtimes change between, from a new manager: the keys being
  -- hydrated are those of the threads that load, each once, and `active_hydrations` is their number, at most
  -- the capacity that the manager was made with.
  pub run_hydrations-IsWithinCapacity :
      (es : List (HydrationEvent T))
      → IsWithinCapacity capacity (
          run_hydrations py trade_date reason es
            (record { manager = fresh_manager capacity; loads = [] }))
  run_hydrations-IsWithinCapacity es =
      run_hydrations-IsWithinCapacity_from es _
        (record { keys = refl; distinct = tt; active = refl; bounded = omega arith; fixed = refl })
