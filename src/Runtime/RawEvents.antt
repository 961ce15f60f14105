-- ===== src/Runtime/RawEvents.antt =====
-- backend/beast_market/symbol_runtime.py: `apply_raw_event`, the terminal messages it makes, and
-- `mark_deltas_delivered`. The processor, `OctopusProcessor.process` of the application, changes the snapshot
-- that it is given, so it returns it; `fresh_id` is the id that is made for an event.
use lynx_monitor.Prelude.{
  ℕ, ◌+◌, ◌-◌, String, Text, ◌||◌, Option, none, some, List, [], ◌∷◌, ◌++◌, length, if◌then◌else◌,
  codes, text_eq, text_equality, Result, ok, raise, fail, runtime_error,
}
use lynx_monitor.Prelude.Dict.{Dict, get, put}
use lynx_monitor.Value.{
  Value, list, dict, Items, nil, cons, Fields, field, end, find, get_value, fields_of,
}
use lynx_monitor.Contracts.{Python}
use lynx_monitor.Contracts.Events.{validate_processed_market_event, make_terminal_message}
use lynx_monitor.Runtime.{
  SymbolRuntime, live, text_of, text_or, as_dict, is_degraded, is_evicting,
  sync_degraded_from_snapshot,
}
use lynx_monitor.Runtime.Manager.{
  SymbolRuntimeManager, Hooks, Machine, adjust, flush_runtime_state, publish_snapshot,
  snapshot_payload,
}
use lynx_monitor.Runtime.Action.{Action, ◌>>=◌, go_on, block}
use lynx_monitor.Runtime.Lifecycle.{present}
use lynx_monitor.Runtime.Hydrate.{ensure_hydrated}

-- seq_by_symbol[symbol] of a defaultdict(int)
abbrev pub number_at : Dict Text ℕ → Text → ℕ
number_at d symbol = elim (get d symbol) [ none ↦ 0 | some n ↦ n ]

-- What the methods with a counter do: they return or raise, and the counters stay.
abbrev pub Counted : Type 0 → Type 0
Counted A = Dict Text ℕ → Result A × Dict Text ℕ

abbrev pub last_item : Items → Value
last_item nil = dict end
last_item (cons v nil) = v
last_item (cons v (cons w vs)) = last_item (cons w vs)

-- minute_bars[-1] if isinstance(minute_bars, list) and minute_bars else {}
abbrev pub last_bar : Value → Value
last_bar (list vs) = last_item vs
last_bar _ = dict end

-- payload.get(key, {})
abbrev pub get_or_empty : Fields → String → Value
get_or_empty fs k = elim (find k fs) [ none ↦ dict end | some v ↦ v ]

abbrev pub tick_of : Fields → Value
tick_of payload = elim (as_dict (get_value payload "last_tick")) [
  | some tick ↦ dict tick
  | none ↦ last_bar (get_value payload "minute_bars")
]

abbrev pub tick_payload : Fields → Fields
tick_payload payload = field "tick" (tick_of payload) (
    field "snapshot" (get_or_empty payload "snapshot")
      (field "freshness" (get_or_empty payload "freshness") end))

-- The type and the payload of the message of a processed event
unfoldable pub message_of : Text → Fields → Option (Text × Fields)
unfolding find text_eq
message_of result_type payload =
    if text_eq result_type (codes "snapshot")
    then some (codes "tick_realtime", tick_payload payload)
    else if text_eq result_type (codes "l2_order_book")
    then some (codes "snapshot", payload)
    else if text_eq result_type (codes "big_trade_alert")
    then some (codes "alert_realtime", payload)
    else if text_eq result_type (codes "broker_queue")
    then some (codes "queue_realtime", payload)
    else none

module _ (py : Python) (fresh_id : Text → Text → ℕ → Text) (now_iso : Text) where
  -- `_terminal`
  unfoldable pub terminal : (message_type symbol : Text) → Fields → Text → Counted Fields
  unfolding get put make_terminal_message text_eq
  terminal message_type symbol payload source_ts seqs =
      let seq = number_at seqs symbol + 1 in
      (
        make_terminal_message py (fresh_id message_type symbol seq) now_iso message_type symbol
            (codes "symbol-runtime") payload seq (some source_ts) none none,
        put seqs symbol seq,
      )

  abbrev pub made : Result Fields × Dict Text ℕ → Counted (List Fields)
  made (ok message, seqs) _ = (ok (message ∷ []), seqs)
  made (raise e, seqs) _ = (raise e, seqs)

  abbrev pub message_for : Fields → Option (Text × Fields) → Counted (List Fields)
  message_for processed none seqs = (ok [], seqs)
  message_for processed (some (message_type, payload)) seqs =
      made
        (terminal message_type (text_of py (get_value processed "symbol")) payload
          (text_of py (get_value processed "source_ts")) seqs)
        seqs

  -- A round of the loop in `_terminal_messages_from_processed`
  unfoldable pub messages_of : Fields → Counted (List Fields)
  unfolding validate_processed_market_event message_of terminal find
  messages_of processed seqs = elim (validate_processed_market_event py processed) [
    | raise e ↦ (raise e, seqs)
    | ok _ ↦
        message_for processed
          (message_of (text_of py (get_value processed "result_type"))
            (fields_of (get_value processed "payload")))
          seqs
  ]

  abbrev pub and_messages :
      Result (List Fields) × Dict Text ℕ
      → Counted (List Fields)
      → Result (List Fields) × Dict Text ℕ
  and_messages (raise e, seqs) later = (raise e, seqs)
  and_messages (ok ms, seqs) later = elim (later seqs).0 [
    | ok rest ↦ (ok (ms ++ rest), (later seqs).1)
    | raise e ↦ (raise e, (later seqs).1)
  ]

  unfoldable pub terminal_messages_from_processed : List Fields → Counted (List Fields)
  unfolding messages_of
  terminal_messages_from_processed [] seqs = (ok [], seqs)
  terminal_messages_from_processed (p ∷ ps) seqs =
      and_messages (messages_of p seqs) (terminal_messages_from_processed ps)

-- The processor of raw events, on an event, the trade date and the snapshot
abbrev pub RawEventProcessor : Type 0 → Type 0
RawEventProcessor W = Fields → Text → Fields → W → Result (List Fields) × (Fields × W)

module _ {T W M : Type 0} (py : Python) (fresh_id : Text → Text → ℕ → Text)
    (hooks : Hooks T W M) where
  -- The runtime after `n` deltas, in the last block of `apply_raw_event`
  unfoldable pub processed_runtime : Fields → ℕ → SymbolRuntime T → SymbolRuntime T
  unfolding sync_degraded_from_snapshot
  processed_runtime state n r =
      let s : SymbolRuntime T =
        sync_degraded_from_snapshot py (record r { snapshot_payload = some state }) in
      let s' : SymbolRuntime T =
        if is_degraded s.state || is_evicting s.state then s else record s { state = live } in
      record s' { delta_emitted = s'.delta_emitted + n; mailbox_depth = s'.mailbox_depth + n }

  -- The runtime is there, since the calls before it did not remove it: the test for that is left out.
  unfoldable pub count_deltas : Text → Fields → ℕ → SymbolRuntimeManager T → SymbolRuntimeManager T
  unfolding adjust processed_runtime
  count_deltas symbol state n m = adjust symbol (processed_runtime state n) (record m {
    raw_events_applied = m.raw_events_applied + 1;
    runtime_delta_emitted = m.runtime_delta_emitted + n;
  })

  -- The last block of `apply_raw_event` and the writes after it
  unfoldable pub emit :
      Text → Fields → List Fields → List Fields → Action T W (List Fields × List Fields)
  unfolding count_deltas flush_runtime_state publish_snapshot snapshot_payload
  emit symbol state processed messages x =
      let x' : Machine T W = record x {
        manager = count_deltas symbol state (length messages) x.manager;
      } in
      (
        ok (processed, messages),
        publish_snapshot py hooks symbol (snapshot_payload py hooks symbol x')
            (flush_runtime_state py hooks symbol x'),
      )

  -- The snapshot that the processor changed is the runtime's own.
  abbrev kept_state : Text → Fields → Machine T W → Machine T W
  kept_state symbol state x = record x {
    manager = adjust symbol (λ r. record r { snapshot_payload = some state }) x.manager;
  }

  -- The call of the processor, and the messages of its events
  abbrev pub process_answered :
      Text → Result (List Fields) × (Fields × W) → Action T W (List Fields × List Fields)
  process_answered symbol (raise e, (state, world)) x =
      (raise e, kept_state symbol state (record x { world = world }))
  process_answered symbol (ok processed, (state, world)) x =
      let (messages, seqs) =
        terminal_messages_from_processed py fresh_id (hooks.now_iso world) processed
          x.manager.seq_by_symbol in
      let x' : Machine T W =
        kept_state symbol state
          (record { manager = record x.manager { seq_by_symbol = seqs }; world = world }) in
      elim messages [ raise e ↦ (raise e, x') | ok ms ↦ emit symbol state processed ms x' ]

  unfoldable pub process_hydrated :
      RawEventProcessor W → Fields → Text → Text → Action T W (List Fields × List Fields)
  unfolding snapshot_payload terminal_messages_from_processed adjust emit
  process_hydrated processor raw_event symbol trade_date x =
      elim (snapshot_payload py hooks symbol x) [
        | none ↦ (
          fail runtime_error
              (codes "runtime snapshot must be hydrated before raw processing: " ++ symbol),
          x,
        )
        | some state ↦ process_answered symbol (processor raw_event trade_date state x.world) x
      ]

  abbrev hydrate_if_needed : Text → Action T W (Unit {0})
  hydrate_if_needed symbol x = elim (snapshot_payload py hooks symbol x) [
    | none ↦ ensure_hydrated py hooks symbol x
    | some _ ↦ (ok tt, x)
  ]

  -- `processor` is `processor or self.raw_event_processor`
  unfoldable pub apply_raw_event :
      Fields → Text → Option (RawEventProcessor W) → Action T W (List Fields × List Fields)
  unfolding go_on text_or find present snapshot_payload ensure_hydrated process_hydrated
  apply_raw_event raw_event trade_date processor x =
      let symbol = text_or py (get_value raw_event "symbol") [] in
      elim processor [
        | none ↦ (fail runtime_error (codes "runtime raw event processor is not configured"), x)
        | some p ↦
            (do
              _ ← block (λ y. present symbol y.manager)
              _ ← hydrate_if_needed symbol
              process_hydrated p raw_event symbol trade_date)
              x
      ]

module _ (py : Python) where
  abbrev pub count_by_symbol : List Fields → Dict Text ℕ → Dict Text ℕ
  count_by_symbol [] counts = counts
  count_by_symbol (m ∷ ms) counts =
      let symbol = text_or py (get_value m "symbol") [] in
      count_by_symbol ms (put counts symbol (number_at counts symbol + 1))

module _ {T : Type 0} (py : Python) where
  abbrev pub take_from_mailboxes : Dict Text ℕ → SymbolRuntimeManager T → SymbolRuntimeManager T
  take_from_mailboxes [] m = m
  take_from_mailboxes ((symbol, count) ∷ counts) m =
      take_from_mailboxes counts
        (adjust symbol (λ r. record r { mailbox_depth = r.mailbox_depth - count }) m)

  -- Without messages and deliveries nothing changes.
  unfoldable pub mark_deltas_delivered :
      List Fields → ℕ → SymbolRuntimeManager T → SymbolRuntimeManager T
  unfolding text_or find get put adjust text_eq
  mark_deltas_delivered messages delivered m =
      take_from_mailboxes (count_by_symbol py messages [])
        (record m { runtime_delta_delivered = m.runtime_delta_delivered + delivered })
