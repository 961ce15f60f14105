-- ===== src/Runtime.antt =====
-- backend/beast_market/symbol_runtime.py: the runtime of one symbol, and the state of `SymbolRuntimeManager`.
-- `T` is the type of the monotonic clock. The latencies of hydrations are left out. A snapshot is a dict, and
-- `degraded_reasons` in its freshness a list where it is present.
pub mod Manager
pub mod Action
pub mod Hydrate
pub mod Lifecycle
pub mod Eviction
pub mod Messages
pub mod RawEvents
pub mod Frame
pub mod Kept
pub mod Attached
pub mod Evicted
pub mod Stuck
pub mod Threads
pub mod Capacity
pub mod Accounting
use lynx_monitor.Prelude.{
  ℕ, ◌+◌, ◌-◌, Text, Bool, true, false, not, ◌&&◌, ◌||◌, Option, none, some, List, [], ◌∷◌, ◌++◌,
  length, select, if◌then◌else◌, text_eq, text_equality, codes,
}
use lynx_monitor.Prelude.Dict.{Dict, get, put}
use lynx_monitor.Value.{
  Value, null, bool, str, list, dict, Items, nil, cons, Fields, field, end, find, get_value, truthy,
  items_of, fields_of, int, pos, float, Float, finite, ℤ,
}
pub use lynx_monitor.Contracts.{text_of}
use lynx_monitor.Contracts.{Python}
use lynx_monitor.Contracts.Events.{is_text}
use lynx_monitor.Pool.{contains, add_once, sorted}
use lynx_monitor.Hydration.{HydrationKey}

pub data SymbolRuntimeState : Type 0 where
  cold hydrating warm live degraded evicting : SymbolRuntimeState

abbrev pub state_value : SymbolRuntimeState → Text
state_value cold = codes "COLD"
state_value hydrating = codes "HYDRATING"
state_value warm = codes "WARM"
state_value live = codes "LIVE"
state_value degraded = codes "DEGRADED"
state_value evicting = codes "EVICTING"

abbrev pub is_cold : SymbolRuntimeState → Bool
is_cold cold = true
is_cold _ = false

abbrev pub is_hydrating : SymbolRuntimeState → Bool
is_hydrating hydrating = true
is_hydrating _ = false

abbrev pub is_degraded : SymbolRuntimeState → Bool
is_degraded degraded = true
is_degraded _ = false

abbrev pub is_evicting : SymbolRuntimeState → Bool
is_evicting evicting = true
is_evicting _ = false

pub record SymbolRuntime (T : Type 0) : Type 0 where
  pub symbol : Text
  pub state : SymbolRuntimeState
  pub subscribers : List Text
  pub hydrate_count : ℕ
  pub hydration_failures : ℕ
  pub last_hydration_error : Text
  pub degraded_reasons : List Text
  pub eviction_started_at : Option T
  pub realtime_attached : Bool
  pub snapshot_payload : Option Fields
  pub delta_emitted : ℕ
  pub mailbox_depth : ℕ

abbrev pub new_runtime : {T : Type 0} → Text → SymbolRuntime T
new_runtime symbol = record {
  symbol = symbol;
  state = cold;
  subscribers = [];
  hydrate_count = 0;
  hydration_failures = 0;
  last_hydration_error = [];
  degraded_reasons = [];
  eviction_started_at = none;
  realtime_attached = false;
  snapshot_payload = none;
  delta_emitted = 0;
  mailbox_depth = 0;
}

abbrev pub texts_of : Python → Items → List Text
texts_of py nil = []
texts_of py (cons v vs) = text_of py v ∷ texts_of py vs

-- str(value or other)
unfoldable pub text_or : Python → Value → Text → Text
unfolding truthy
text_or py v other = if truthy v then text_of py v else other

abbrev pub no_texts : List Text → Bool
no_texts [] = true
no_texts (t ∷ ts) = false

abbrev pub is_true : Value → Bool
is_true (bool b) = b
is_true _ = false

-- A test that a value is a dict, with the dict.
abbrev pub as_dict : Value → Option Fields
as_dict (dict fs) = some fs
as_dict _ = none

-- The reasons of a snapshot's freshness, in `_sync_degraded_from_snapshot`
unfoldable pub snapshot_reasons : Python → Fields → List Text
unfolding find
snapshot_reasons py freshness =
    let listed = texts_of py (items_of (get_value freshness "degraded_reasons")) in
    if is_true (get_value freshness "degraded") && no_texts listed
    then codes "freshness_degraded" ∷ []
    else listed

-- The value of `runtime_state` that a snapshot may put its runtime into. It is taken to be neither a list nor a dict,
-- which cannot be hashed.
unfoldable pub stated : Fields → Option SymbolRuntimeState
unfolding find text_eq
stated freshness =
    let v = get_value freshness "runtime_state" in
    if is_text (codes "WARM") v
    then some warm
    else if is_text (codes "LIVE") v
    then some live
    else none

module _ {T : Type 0} (py : Python) where
  -- `_sync_degraded_from_snapshot`, of a freshness that is a dict
  unfoldable pub sync_degraded_from : Fields → SymbolRuntime T → SymbolRuntime T
  unfolding snapshot_reasons stated
  sync_degraded_from freshness r =
      let reasons = snapshot_reasons py freshness in
      if not (no_texts reasons)
      then record r { state = degraded; degraded_reasons = reasons }
      else let r' : SymbolRuntime T =
          if is_degraded r.state then record r { degraded_reasons = [] } else r in
        elim (stated freshness) [
          | none ↦ r'
          | some s ↦
              if is_evicting r.state || is_hydrating r.state then r' else record r' { state = s }
        ]

  unfoldable pub sync_degraded_from_snapshot : SymbolRuntime T → SymbolRuntime T
  unfolding sync_degraded_from find
  sync_degraded_from_snapshot r = elim (r.snapshot_payload) [
    | none ↦ r
    | some payload ↦ elim (as_dict (get_value payload "freshness")) [
      | none ↦ r
      | some freshness ↦ sync_degraded_from freshness r
    ]
  ]

-- The payload that `_runtime_state_payload_locked` makes, but for its constants and latencies.
pub record RuntimeStatePayload (T : Type 0) : Type 0 where
  pub symbol : Text
  pub requested_trade_date : Text
  pub effective_trade_date : Text
  pub source_dates : Fields
  pub updated_at : Text
  pub version : Text
  pub freshness : Fields
  pub degraded_reasons : List Text
  pub runtime_state : Text
  pub ref_count : ℕ
  pub subscribers : List Text
  pub hydrate_count : ℕ
  pub hydration_failures : ℕ
  pub last_hydration_error : Text
  pub realtime_attached : Bool
  pub eviction_started_at : Option T
  pub capacity_rejections : ℕ
  pub has_snapshot_payload : Bool
  pub delta_emitted : ℕ
  pub mailbox_depth : ℕ

abbrev pub freshness_of : {T : Type 0} → SymbolRuntime T → Fields
freshness_of r = elim (r.snapshot_payload) [
  | none ↦ end
  | some payload ↦ fields_of (get_value payload "freshness")
]

abbrev pub is_present : {A : Type 0} → Option A → Bool
is_present none = false
is_present (some a) = true

unfoldable pub runtime_state_payload_locked :
    {T : Type 0}
    → Python
    → (trade_date timestamp : Text) (capacity_rejections : ℕ) → SymbolRuntime T
    → RuntimeStatePayload T
unfolding text_or find sorted
runtime_state_payload_locked py trade_date timestamp capacity_rejections r =
    let freshness = freshness_of r in
    let requested = text_or py (get_value freshness "requested_trade_date") trade_date in
    let last_event_id = text_or py (get_value freshness "last_event_id") [] in
    record {
      symbol = r.symbol;
      requested_trade_date = requested;
      effective_trade_date = text_or py (get_value freshness "effective_trade_date") requested;
      source_dates = fields_of (get_value freshness "source_dates");
      updated_at = text_or py (get_value freshness "updated_at") timestamp;
      version = text_or py (get_value freshness "version") last_event_id;
      freshness = freshness;
      degraded_reasons = r.degraded_reasons;
      runtime_state = state_value r.state;
      ref_count = length r.subscribers;
      subscribers = sorted r.subscribers;
      hydrate_count = r.hydrate_count;
      hydration_failures = r.hydration_failures;
      last_hydration_error = r.last_hydration_error;
      realtime_attached = r.realtime_attached;
      eviction_started_at = r.eviction_started_at;
      capacity_rejections = capacity_rejections;
      has_snapshot_payload = is_present r.snapshot_payload;
      delta_emitted = r.delta_emitted;
      mailbox_depth = r.mailbox_depth;
    }

-- `_hydration_key`
unfoldable pub hydration_key : {T : Type 0} → Python → Text → SymbolRuntime T → HydrationKey
unfolding text_or find
hydration_key py trade_date r = record {
  symbol = r.symbol;
  data_type = codes "snapshot";
  effective_trade_date = text_or py (get_value (freshness_of r) "effective_trade_date") trade_date;
}

-- 0.0
abbrev pub zero_float : Value
zero_float = float (finite (pos 0) 0)

unfoldable pub degraded_snapshot_payload : (symbol trade_date timestamp reason : Text) → Fields
degraded_snapshot_payload symbol trade_date timestamp reason =
    field "snapshot"
      (dict (
        field "symbol" (str symbol) (
          field "name" (str symbol) (
            field "currency" (str (codes "HKD")) (
              field "tradeDate" (str trade_date) (
                field "requestedTradeDate" (str trade_date) (
                  field "isHistoricalSession" (bool false) (
                    field "price" zero_float (
                      field "previousClose" zero_float (
                        field "open" zero_float (
                          field "high" zero_float (
                            field "low" zero_float (
                              field "volume" (int (pos 0)) (
                                field "turnover" zero_float (
                                  field "change" zero_float (
                                    field "changePercent" zero_float
                                      (field "updatedAt" (str timestamp) end)))))))))))))))))
      (field "minute_bars" (list nil) (
        field "alerts" (list nil) (
          field "broker_queue" (dict (field "ask" (list nil) (field "bid" (list nil) end))) (
            field "ccass_holdings" (list nil) (
              field "freshness"
                (dict (
                  field "updated_at" (str timestamp) (
                    field "requested_trade_date" (str trade_date) (
                      field "effective_trade_date" (str trade_date) (
                        field "runtime_state" (str (codes "DEGRADED")) (
                          field "source_dates" (dict end) (
                            field "degraded" (bool true)
                              (field "degraded_reasons" (list (cons (str reason) nil)) end))))))))
                end)))))
