-- ===== src/Runtime/Hydrate.antt =====
-- backend/beast_market/symbol_runtime.py: `_ensure_hydrated` and `_hydrate_once`. The blocks that begin and
-- finish a hydration are apart, for threads that hydrate different symbols at a time. Where the calls run one
-- after the other no key is being hydrated when a call begins, so none waits; the answer of `HistoricalHydrationService.hydrate` is the loader's.
use lynx_monitor.Prelude.{
  ◌+◌, ◌-◌, Text, not, Option, none, some, [], ◌∷◌, ◌++◌, select, leb, if◌then◌else◌, codes, Result,
  ok, raise,
}
use lynx_monitor.Value.{Fields, int, pos}
use lynx_monitor.Contracts.{Python}
use lynx_monitor.Hydration.{HydrationKey, same_key, is_active}
use lynx_monitor.Runtime.{
  SymbolRuntime, hydrating, warm, degraded, is_cold, hydration_key, degraded_snapshot_payload,
  sync_degraded_from_snapshot,
}
use lynx_monitor.Runtime.Manager.{
  SymbolRuntimeManager, Hooks, adjust, runtime_at, flush_runtime_state,
}
use lynx_monitor.Runtime.Action.{Action}

-- What the block that begins a hydration finds.
pub data Begun : Type 0 where
  waits settled rejected started : Begun

-- x if x is not None else y
abbrev pub or_kept : {A : Type 0} → Option A → Option A → Option A
or_kept none kept = kept
or_kept (some a) kept = some a

module _ {T : Type 0} where
  -- The runtime of a hydration over the capacity
  unfoldable pub over_capacity :
      (reason trade_date timestamp : Text) → SymbolRuntime T → SymbolRuntime T
  unfolding degraded_snapshot_payload
  over_capacity reason trade_date timestamp r = record r {
    state = degraded;
    degraded_reasons = reason ∷ [];
    hydration_failures = r.hydration_failures + 1;
    last_hydration_error = reason;
    snapshot_payload =
        or_kept r.snapshot_payload
          (some (degraded_snapshot_payload r.symbol trade_date timestamp reason));
  }

  -- The first block of `_hydrate_once`, of a runtime of the manager
  unfoldable pub begin_hydration :
      HydrationKey
      → (reason trade_date timestamp : Text) → SymbolRuntime T
      → SymbolRuntimeManager T
      → Begun × SymbolRuntimeManager T
  unfolding same_key adjust over_capacity
  begin_hydration key reason trade_date timestamp r m =
      if is_active m.hydrating key
      then (waits, m)
      else if not (is_cold r.state)
      then (settled, m)
      else if leb m.max_concurrent_hydrations m.active_hydrations
      then (
        rejected,
        adjust r.symbol (over_capacity reason trade_date timestamp)
            (record m { capacity_rejections = m.capacity_rejections + 1 }),
      )
      else (
        started,
        adjust r.symbol (λ s. record s { state = hydrating })
            (record m {
              hydrating = key ∷ m.hydrating;
              active_hydrations = m.active_hydrations + 1;
            }),
      )

  unfoldable pub hydrated : Python → Result (Option Fields) → SymbolRuntime T → SymbolRuntime T
  unfolding sync_degraded_from_snapshot
  hydrated py (ok payload) r = sync_degraded_from_snapshot py (record r {
    snapshot_payload = or_kept payload r.snapshot_payload;
    hydrate_count = r.hydrate_count + 1;
    last_hydration_error = [];
    state = warm;
    degraded_reasons = [];
  })
  hydrated py (raise e) r = sync_degraded_from_snapshot py (record r {
    state = degraded;
    degraded_reasons = e.message ∷ [];
    hydration_failures = r.hydration_failures + 1;
    last_hydration_error = e.message;
  })

  -- The last block of `_hydrate_once`. It ends, since the freshness of the snapshot is taken to have a list of reasons
  -- and a state that is neither a list nor a dict; others raise a TypeError in `_sync_degraded_from_snapshot`, before
  -- the hydration is counted as over.
  unfoldable pub finish_hydration :
      Python
      → HydrationKey
      → Text
      → Result (Option Fields)
      → SymbolRuntimeManager T
      → SymbolRuntimeManager T
  unfolding same_key adjust hydrated
  finish_hydration py key symbol result m =
      let m' = adjust symbol (hydrated py result) m in
      record m' {
        active_hydrations = m'.active_hydrations - 1;
        hydrating = select (λ k. not (same_key k key)) m'.hydrating;
      }

module _ {T W M : Type 0} (py : Python) (hooks : Hooks T W M) where
  -- What is raised after a hydration: what the loader raised
  abbrev pub hydrate_answered : Result (Option Fields) → Action T W (Unit {0})
  hydrate_answered (ok _) x = (ok tt, x)
  hydrate_answered (raise e) x = (raise e, x)

  -- `_hydrate_once`, after its first block
  unfoldable pub hydrate_begun : HydrationKey → Text → Begun → Action T W (Unit {0})
  unfolding finish_hydration flush_runtime_state
  hydrate_begun key symbol waits x = (ok tt, x)
  hydrate_begun key symbol settled x = (ok tt, x)
  hydrate_begun key symbol rejected x = (ok tt, flush_runtime_state py hooks symbol x)
  hydrate_begun key symbol started x =
      let (result, world) = hooks.hydrate_symbol symbol x.world in
      hydrate_answered result (
        flush_runtime_state py hooks symbol
          (record { manager = finish_hydration py key symbol result x.manager; world = world }))

  -- `hydration_capacity_exceeded:…`
  abbrev pub capacity_reason : SymbolRuntimeManager T → Text
  capacity_reason m =
      codes "hydration_capacity_exceeded:max_concurrent_hydrations="
      ++ py.format (int (pos m.max_concurrent_hydrations))

  unfoldable pub hydrate_once : SymbolRuntime T → Action T W (Unit {0})
  unfolding begin_hydration hydrate_begun hydration_key
  hydrate_once r x =
      let key = hydration_key py hooks.trade_date r in
      let (begun, m) =
        begin_hydration key (capacity_reason x.manager) hooks.trade_date (hooks.now_iso x.world) r
          x.manager in
      hydrate_begun key r.symbol begun (record x { manager = m })

  -- `_ensure_hydrated`: the runtime of the symbol, which the caller has put into the dict
  unfoldable pub ensure_hydrated : Text → Action T W (Unit {0})
  unfolding hydrate_once
  ensure_hydrated symbol x = elim (runtime_at symbol x.manager) [
    | none ↦ (ok tt, x)
    | some r ↦ if is_cold r.state then hydrate_once r x else (ok tt, x)
  ]
