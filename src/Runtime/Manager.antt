-- ===== src/Runtime/Manager.antt =====
-- backend/beast_market/symbol_runtime.py: the state of `SymbolRuntimeManager`, what it calls, and how it
-- publishes. The world `W` is the state of all that the hooks touch and of the clock: a hook returns or raises
-- and leaves another world. A manager runs one call after the other; a runtime is changed through the dict
-- that holds it.
use lynx_monitor.Prelude.{
  ℕ, ◌+◌, Text, Bool, Option, none, some, List, [], ◌++◌, text_eq, text_equality, codes, Result, ok,
  raise, Error,
}
use lynx_monitor.Prelude.Dict.{Dict, get, put}
use lynx_monitor.Value.{Fields}
use lynx_monitor.Contracts.{Python}
use lynx_monitor.Pool.{add_once}
use lynx_monitor.Hydration.{HydrationKey}
use lynx_monitor.Runtime.{
  SymbolRuntime, degraded, RuntimeStatePayload, runtime_state_payload_locked,
}

pub record SymbolRuntimeManager (T : Type 0) : Type 0 where
  pub max_concurrent_hydrations : ℕ
  pub runtimes : Dict Text (SymbolRuntime T)
  pub hydrating : List HydrationKey
  pub active_hydrations : ℕ
  pub seq_by_symbol : Dict Text ℕ
  pub raw_events_applied : ℕ
  pub runtime_delta_emitted : ℕ
  pub runtime_delta_delivered : ℕ
  pub capacity_rejections : ℕ
  pub state_sink_failures : ℕ
  pub last_state_sink_error : Text
  pub state_sink_failure_symbols : List Text
  pub snapshot_sink_failures : ℕ
  pub last_snapshot_sink_error : Text
  pub snapshot_sink_failure_symbols : List Text

-- What the manager is made with. `expired now started` is the test that the grace period is over;
-- `note_query` gives the symbols that the pool evicts, and none where there is no pool.
pub record Hooks (T W M : Type 0) : Type 0 where
  pub trade_date : Text
  pub now : W → T
  pub now_iso : W → Text
  pub expired : T → T → Bool
  pub hydrate_symbol : Text → W → Result (Option Fields) × W
  pub attach_realtime : Option (Text → W → Result Bool × W)
  pub release_symbol : Option (Text → W → Result (Unit {0}) × W)
  pub state_sink : Option (Text → RuntimeStatePayload T → W → Result (Unit {0}) × W)
  pub snapshot_sink : Option (Text → Fields → W → Result (Unit {0}) × W)
  pub note_query : Text → W → Result (List Text) × W
  pub release_temporary : Text → W → Result (Unit {0}) × W
  pub snapshot_message : Text → Fields → W → Result M × W
  pub subscribe : Text → Text → W → Result M × W

-- A manager in its world.
pub record Machine (T W : Type 0) : Type 0 where
  pub manager : SymbolRuntimeManager T
  pub world : W

module _ {T : Type 0} where
  abbrev pub fresh_manager : ℕ → SymbolRuntimeManager T
  fresh_manager max_concurrent_hydrations = record {
    max_concurrent_hydrations = max_concurrent_hydrations;
    runtimes = [];
    hydrating = [];
    active_hydrations = 0;
    seq_by_symbol = [];
    raw_events_applied = 0;
    runtime_delta_emitted = 0;
    runtime_delta_delivered = 0;
    capacity_rejections = 0;
    state_sink_failures = 0;
    last_state_sink_error = [];
    state_sink_failure_symbols = [];
    snapshot_sink_failures = 0;
    last_snapshot_sink_error = [];
    snapshot_sink_failure_symbols = [];
  }

  -- self.runtimes.get(symbol)
  abbrev pub runtime_at : Text → SymbolRuntimeManager T → Option (SymbolRuntime T)
  runtime_at symbol m = get m.runtimes symbol

  -- A change of the runtime of a symbol, if it has one.
  unfoldable pub adjust :
      Text → (SymbolRuntime T → SymbolRuntime T) → SymbolRuntimeManager T → SymbolRuntimeManager T
  unfolding get put text_eq
  adjust symbol f m = elim (runtime_at symbol m) [
    | none ↦ m
    | some r ↦ record m { runtimes = put m.runtimes symbol (f r) }
  ]

  -- if reason not in runtime.degraded_reasons: …
  unfoldable pub degrade_for : Text → SymbolRuntime T → SymbolRuntime T
  unfolding add_once
  degrade_for reason r = record r {
    state = degraded;
    degraded_reasons = add_once r.degraded_reasons reason;
  }

  -- The `except` of `_publish_state`
  unfoldable pub note_state_failure : Text → Error → SymbolRuntimeManager T → SymbolRuntimeManager T
  unfolding adjust degrade_for add_once
  note_state_failure symbol e m =
      let reason = codes "runtime_state_sink_write_failed: " ++ e.message in
      adjust symbol (degrade_for reason) (record m {
        state_sink_failures = m.state_sink_failures + 1;
        last_state_sink_error = reason;
        state_sink_failure_symbols = add_once m.state_sink_failure_symbols symbol;
      })

  -- The `except` of `_publish_snapshot`
  unfoldable pub note_snapshot_failure :
      Text → Error → SymbolRuntimeManager T → SymbolRuntimeManager T
  unfolding adjust degrade_for add_once
  note_snapshot_failure symbol e m =
      let reason = codes "runtime_snapshot_sink_write_failed: " ++ e.message in
      adjust symbol (degrade_for reason) (record m {
        snapshot_sink_failures = m.snapshot_sink_failures + 1;
        last_snapshot_sink_error = reason;
        snapshot_sink_failure_symbols = add_once m.snapshot_sink_failure_symbols symbol;
      })

module _ {T W M : Type 0} (py : Python) (hooks : Hooks T W M) where
  unfoldable pub runtime_state_payload : Text → Machine T W → Option (RuntimeStatePayload T)
  unfolding get runtime_state_payload_locked
  runtime_state_payload symbol x = elim (runtime_at symbol x.manager) [
    | none ↦ none
    | some r ↦ some (
        runtime_state_payload_locked py hooks.trade_date (hooks.now_iso x.world)
          x.manager.capacity_rejections r)
  ]

  -- What a sink did with a write: the manager goes on in the world after it.
  abbrev pub after_write :
      (Error → SymbolRuntimeManager T → SymbolRuntimeManager T)
      → Result (Unit {0}) × W
      → Machine T W
      → Machine T W
  after_write note (ok _, w) x = record { manager = x.manager; world = w }
  after_write note (raise e, w) x = record { manager = note e x.manager; world = w }

  unfoldable pub publish_state : Text → Option (RuntimeStatePayload T) → Machine T W → Machine T W
  unfolding note_state_failure
  publish_state symbol payload x = elim (hooks.state_sink) [
    | none ↦ x
    | some sink ↦ elim payload [
      | none ↦ x
      | some p ↦ after_write (note_state_failure symbol) (sink symbol p x.world) x
    ]
  ]

  unfoldable pub publish_snapshot : Text → Option Fields → Machine T W → Machine T W
  unfolding note_snapshot_failure
  publish_snapshot symbol payload x = elim (hooks.snapshot_sink) [
    | none ↦ x
    | some sink ↦ elim payload [
      | none ↦ x
      | some p ↦ after_write (note_snapshot_failure symbol) (sink symbol p x.world) x
    ]
  ]

  -- `_runtime_state_payload_locked` of a runtime at the end of a block, published.
  unfoldable pub flush_runtime_state : Text → Machine T W → Machine T W
  unfolding publish_state runtime_state_payload
  flush_runtime_state symbol x = publish_state symbol (runtime_state_payload symbol x) x

  unfoldable pub snapshot_payload : Text → Machine T W → Option Fields
  unfolding get text_eq
  snapshot_payload symbol x = elim (runtime_at symbol x.manager) [
    | none ↦ none
    | some r ↦ r.snapshot_payload
  ]
