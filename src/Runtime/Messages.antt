-- ===== src/Runtime/Messages.antt =====
-- backend/beast_market/symbol_runtime.py: what a terminal message or a processed event changes in the runtime
-- of its symbol. A change under the lock may raise half-way; the runtime keeps what was written until then.
use lynx_monitor.Prelude.{
  ℕ, suc, String, Text, Bool, true, false, ◌||◌, Option, none, some, List, [], ◌∷◌, take,
  if◌then◌else◌, codes, text_eq, text_equality, Result, ok, raise,
}
use lynx_monitor.Prelude.Dict.{get}
use lynx_monitor.Value.{
  Value, list, dict, Items, nil, cons, Fields, field, end, find, assign, get_value, is_list,
  fields_of,
}
use lynx_monitor.Contracts.{Python}
use lynx_monitor.Contracts.Events.{validate_processed_market_event}
use lynx_monitor.Runtime.{SymbolRuntime, text_or, as_dict, is_present, sync_degraded_from_snapshot}
use lynx_monitor.Runtime.Manager.{Hooks, Machine, adjust, runtime_at, flush_runtime_state}
use lynx_monitor.Runtime.Action.{Action, ◌>>=◌}
use lynx_monitor.Session.{Datetimes}
use lynx_monitor.Bars.{
  Numbers, max_alerts, values_of, items, upsert_minute_bar, prepend_unique_alert,
  terminal_payload_trade_date,
}

-- What a change of a runtime gives: whether it was applied, or what it raised, and the runtime.
abbrev pub Change : Type 0 → Type 0
Change T = Result Bool × SymbolRuntime T

abbrev pub bar_values : List Fields → Items
bar_values [] = nil
bar_values (bar ∷ bars) = cons (dict bar) (bar_values bars)

-- list(alerts) if isinstance(alerts, list) else []
abbrev pub alerts_of : Value → List Value
alerts_of (list vs) = values_of vs
alerts_of _ = []

-- for side in ("ask", "bid"): …
abbrev pub with_side : String → Fields → Fields → Fields
with_side side broker_queue merged =
    if is_list (get_value broker_queue side)
    then assign side (get_value broker_queue side) merged
    else merged

-- The broker queue of a snapshot with the sides of a message
unfoldable pub merged_queue : Fields → Value → Fields
unfolding assign find
merged_queue broker_queue current =
    let start : Fields = elim (as_dict current) [
      | some fs ↦ fs
      | none ↦ field "ask" (list nil) (field "bid" (list nil) end)
    ] in
    with_side "bid" broker_queue (with_side "ask" broker_queue start)

module _ {T : Type 0} where
  abbrev pub payload_of : SymbolRuntime T → Fields
  payload_of r = elim (r.snapshot_payload) [ none ↦ end | some payload ↦ payload ]

  -- runtime.snapshot_payload[key] = value
  unfoldable pub set_payload : String → Value → SymbolRuntime T → SymbolRuntime T
  unfolding assign
  set_payload key value r = record r { snapshot_payload = some (assign key value (payload_of r)) }

  -- if isinstance(value, dict): …
  abbrev pub if_dict :
      Value → (Fields → SymbolRuntime T → SymbolRuntime T) → SymbolRuntime T → SymbolRuntime T
  if_dict value f r = elim (as_dict value) [ none ↦ r | some fs ↦ f fs r ]

module _ {T D : Type 0} (py : Python) (numbers : Numbers) (datetimes : Datetimes D)
    (trade_date : Text) where
  -- `_update_freshness`
  unfoldable pub update_freshness : Fields → SymbolRuntime T → SymbolRuntime T
  unfolding set_payload sync_degraded_from_snapshot find
  update_freshness payload r =
      if_dict (get_value payload "freshness")
        (λ freshness s. sync_degraded_from_snapshot py (set_payload "freshness" (dict freshness) s))
        r

  unfoldable pub replace_snapshot : Fields → SymbolRuntime T → Change T
  unfolding sync_degraded_from_snapshot
  replace_snapshot payload r =
      (ok true, sync_degraded_from_snapshot py (record r { snapshot_payload = some payload }))

  -- The bars with a tick, or what `upsert_minute_bar` raises
  abbrev with_bars : Fields → SymbolRuntime T → Result (List Fields) → Change T
  with_bars payload r (ok bars) =
      (ok true, update_freshness payload (set_payload "minute_bars" (list (bar_values bars)) r))
  with_bars payload r (raise e) = (raise e, r)

  unfoldable pub apply_tick : Fields → SymbolRuntime T → Change T
  unfolding set_payload update_freshness upsert_minute_bar terminal_payload_trade_date find
  apply_tick payload r =
      let r' =
        if_dict (get_value payload "snapshot") (λ snapshot. set_payload "snapshot" (dict snapshot))
          r in
      elim (as_dict (get_value payload "tick")) [
        | none ↦ (ok true, update_freshness payload r')
        | some tick ↦ with_bars payload r' (
            upsert_minute_bar py numbers datetimes (get_value (payload_of r') "minute_bars") tick
              (some (terminal_payload_trade_date payload (payload_of r') trade_date)))
      ]

  unfoldable pub apply_alert : Fields → SymbolRuntime T → Change T
  unfolding set_payload update_freshness find
  apply_alert payload r =
      let add : Fields → SymbolRuntime T → SymbolRuntime T = λ alert s.
        set_payload "alerts"
          (list
            (items (take max_alerts (dict alert ∷ alerts_of (get_value (payload_of s) "alerts")))))
          s in
      (ok true, update_freshness payload (if_dict (get_value payload "alert") add r))

  abbrev with_alerts : Fields → SymbolRuntime T → Result (List Value) → Change T
  with_alerts payload r (ok alerts) =
      (ok true, update_freshness payload (set_payload "alerts" (list (items alerts)) r))
  with_alerts payload r (raise e) = (raise e, r)

  unfoldable pub apply_unique_alert : Fields → SymbolRuntime T → Change T
  unfolding set_payload update_freshness prepend_unique_alert find
  apply_unique_alert payload r = elim (as_dict (get_value payload "alert")) [
    | none ↦ (ok true, update_freshness payload r)
    | some alert ↦
        with_alerts payload r
          (prepend_unique_alert py numbers alert (alerts_of (get_value (payload_of r) "alerts")))
  ]

  unfoldable pub apply_broker_queue : Fields → SymbolRuntime T → Change T
  unfolding set_payload merged_queue update_freshness find
  apply_broker_queue payload r =
      let merge : Fields → SymbolRuntime T → SymbolRuntime T = λ broker_queue s.
        set_payload "broker_queue"
          (dict (merged_queue broker_queue (get_value (payload_of s) "broker_queue"))) s in
      (ok true, update_freshness payload (if_dict (get_value payload "broker_queue") merge r))

  unfoldable pub apply_message : Text → Fields → SymbolRuntime T → Change T
  unfolding replace_snapshot apply_tick apply_alert apply_broker_queue text_eq
  apply_message message_type payload r =
      if text_eq message_type (codes "snapshot")
      then replace_snapshot payload r
      else if text_eq message_type (codes "tick_realtime")
      then apply_tick payload r
      else if text_eq message_type (codes "alert_realtime")
      then apply_alert payload r
      else if text_eq message_type (codes "queue_realtime")
      then apply_broker_queue payload r
      else (ok false, r)

  unfoldable pub apply_result : Text → Fields → SymbolRuntime T → Change T
  unfolding replace_snapshot apply_unique_alert apply_broker_queue text_eq
  apply_result result_type payload r =
      if text_eq result_type (codes "snapshot") || text_eq result_type (codes "l2_order_book")
      then replace_snapshot payload r
      else if text_eq result_type (codes "big_trade_alert")
      then apply_unique_alert payload r
      else if text_eq result_type (codes "broker_queue")
      then apply_broker_queue payload r
      else (ok false, r)

module _ {T W M D : Type 0} (py : Python) (numbers : Numbers) (datetimes : Datetimes D)
    (hooks : Hooks T W M) where
  -- A change of a symbol's runtime under the lock, published where it was applied.
  unfoldable pub change_applied : Text → Change T → Action T W Bool
  unfolding adjust flush_runtime_state
  change_applied symbol (result, r) x =
      let x' : Machine T W = record x { manager = adjust symbol (λ _. r) x.manager } in
      (
        result,
        elim result [
          | ok applied ↦ if applied then flush_runtime_state py hooks symbol x' else x'
          | raise _ ↦ x'
        ],
      )

  -- `runtime is None or runtime.snapshot_payload is None`
  abbrev pub with_snapshot : Option (SymbolRuntime T) → Option (SymbolRuntime T)
  with_snapshot none = none
  with_snapshot (some r) = if is_present r.snapshot_payload then some r else none

  unfoldable pub apply_terminal_message : Fields → Action T W Bool
  unfolding text_or find get apply_message change_applied
  apply_terminal_message message x =
      let symbol = text_or py (get_value message "symbol") [] in
      elim (with_snapshot (runtime_at symbol x.manager)) [
        | none ↦ (ok false, x)
        | some r ↦ elim (as_dict (get_value message "payload")) [
          | none ↦ (ok false, x)
          | some payload ↦
              change_applied symbol
                (apply_message py numbers datetimes hooks.trade_date
                  (text_or py (get_value message "type") []) payload r)
                x
        ]
      ]

  abbrev event_validated : Fields → Result (Unit {0}) → Action T W Bool
  event_validated event (raise e) x = (raise e, x)
  event_validated event (ok _) x =
      let symbol = text_or py (get_value event "symbol") [] in
      elim (with_snapshot (runtime_at symbol x.manager)) [
        | none ↦ (ok false, x)
        | some r ↦
            change_applied symbol
              (apply_result py numbers datetimes hooks.trade_date
                (text_or py (get_value event "result_type") [])
                (fields_of (get_value event "payload")) r)
              x
      ]

  unfoldable pub apply_processed_event : Fields → Action T W Bool
  unfolding text_or find get apply_result change_applied validate_processed_market_event
  apply_processed_event event = event_validated event (validate_processed_market_event py event)

  abbrev count_from : Bool → Action T W ℕ → Action T W ℕ
  count_from applied rest x = elim (rest x).0 [
    | ok n ↦ (ok (if applied then suc n else n), (rest x).1)
    | raise e ↦ (raise e, (rest x).1)
  ]

  -- sum(1 for message in messages if apply(message))
  abbrev pub count_applied : (Fields → Action T W Bool) → List Fields → Action T W ℕ
  count_applied apply [] x = (ok 0, x)
  count_applied apply (m ∷ ms) x =
      (apply m >>= (λ applied. count_from applied (count_applied apply ms))) x

  unfoldable pub apply_terminal_messages : List Fields → Action T W ℕ
  unfolding apply_terminal_message
  apply_terminal_messages = count_applied apply_terminal_message

  unfoldable pub apply_processed_events : List Fields → Action T W ℕ
  unfolding apply_processed_event
  apply_processed_events = count_applied apply_processed_event
