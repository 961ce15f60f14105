-- ===== src/Hydration/Exclusive.antt =====
-- No key is loaded by two threads at a time, and a thread waits only for one that loads.
use lynx_monitor.Prelude.{
  ℕ, zero, suc, ◌+◌, ◌≤◌, ◌≡◌, ◌↔◌, refl, Bool, true, not, ◌&&◌, List, [], ◌∷◌, select,
  if◌then◌else◌, text_eq_iff, arith,
}
use lynx_monitor.Hydration.{
  HydrationKey, same_key, Thread, waiting, loading, finished, HistoricalHydrationService, is_active,
  step, turn_of, Event, call, turn, happen, run_events, idle,
}

pub same_key_iff : (j k : HydrationKey) → (same_key j k ≡ true) ↔ (j ≡ k)
unfolding same_key
same_key_iff j k = ground (
  arith,
  text_eq_iff j.symbol k.symbol,
  text_eq_iff j.data_type k.data_type,
  text_eq_iff j.effective_trade_date k.effective_trade_date,
)

-- How many of a thread load a key: one or none.
abbrev pub loads : HydrationKey → Thread → ℕ
loads k (loading j) = if same_key j k then 1 else 0
loads k (waiting j) = 0
loads k finished = 0

unfoldable pub loaders : HydrationKey → List Thread → ℕ
loaders k [] = 0
loaders k (t ∷ ts) = loads k t + loaders k ts

abbrev pub as_number : Bool → ℕ
as_number b = if b then 1 else 0

pub is_active-discard :
    (active : List HydrationKey) (j k : HydrationKey)
    → is_active (select (λ i. not (same_key i j)) active) k
      ≡ (is_active active k && not (same_key j k))
is_active-discard [] j k = refl
is_active-discard (i ∷ active) j k =
    ground
      (arith, is_active-discard active j k, same_key_iff i j, same_key_iff i k, same_key_iff j k)

-- A step of a thread, which loads only an active key, changes the loaders of a key as it changes whether the
-- key is active.
loads-step :
    (active : List HydrationKey) (t : Thread) (k : HydrationKey)
    → ((j : HydrationKey) → loads j t ≤ as_number (is_active active j))
    → loads k (step active t).1 + as_number (is_active active k)
      ≡ loads k t + as_number (is_active (step active t).0 k)
unfolding step
loads-step active (waiting j) k h = ground (arith, same_key_iff j k)
loads-step active (loading j) k h =
    ground (arith, is_active-discard active j k, same_key_iff j k, h k)
loads-step active finished k h = omega arith

loaders-turn_of :
    (i : ℕ) (active : List HydrationKey) (ts : List Thread) (k : HydrationKey)
    → ((j : HydrationKey) → loaders j ts ≤ as_number (is_active active j))
    → loaders k (turn_of i active ts).1 + as_number (is_active active k)
      ≡ loaders k ts + as_number (is_active (turn_of i active ts).0 k)
unfolding turn_of loaders
loaders-turn_of i active [] k h = omega arith
loaders-turn_of zero active (t ∷ ts) k h =
    omega (arith, loads-step active t k (λ j. omega (arith, h j)))
loaders-turn_of (suc i) active (t ∷ ts) k h =
    omega (arith, loaders-turn_of i active ts k (λ j. omega (arith, h j)))

-- The threads that load a key are one if it is active and none if not.
pub IsExclusive : HistoricalHydrationService → Type 0
IsExclusive s = (k : HydrationKey) → loaders k s.threads ≡ as_number (is_active s.active k)

happen-IsExclusive :
    (e : Event) (s : HistoricalHydrationService) → IsExclusive s → IsExclusive (happen e s)
unfolding IsExclusive happen loaders
happen-IsExclusive (call j) s h = λ k. omega (arith, h k)
happen-IsExclusive (turn i) s h =
    λ k. omega (arith, h k, loaders-turn_of i s.active s.threads k (λ j. omega (arith, h j)))

run_events-IsExclusive_from :
    (es : List Event) (s : HistoricalHydrationService)
    → IsExclusive s
    → IsExclusive (run_events es s)
unfolding run_events
run_events-IsExclusive_from [] s h = h
run_events-IsExclusive_from (e ∷ es) s h =
    run_events-IsExclusive_from es (happen e s) (happen-IsExclusive e s h)

-- Whatever calls are made and whichever threads get their turns, from an idle service: a key is loaded by
-- exactly one thread while it is active, and by none otherwise.
pub run_events-IsExclusive :
    (es : List Event) (k : HydrationKey)
    → loaders k (run_events es idle).threads ≡ as_number (is_active (run_events es idle).active k)
unfolding IsExclusive loaders
run_events-IsExclusive es k = run_events-IsExclusive_from es idle (λ j. refl) k
