-- ===== src/Compute/Stage/Handled.antt =====
-- The handlers of the compute stage: what they return is what they published, in the order of its numbers.
use lynx_monitor.Prelude.{
  ◌+◌, Text, false, Option, none, some, List, [], ◌∷◌, ◌++◌, ◌≡◌, refl, length, length-append,
  codes, text_eq, text_equality, Result, ok, raise, arith, ◌≤◌, Bool-cases, inl, inr, ◌∙◌,
}
use lynx_monitor.Prelude.Dict.{get}
use lynx_monitor.Value.{Value, Fields}
use lynx_monitor.Contracts.{Python}
use lynx_monitor.Contracts.Events.{is_text}
use lynx_monitor.Runtime.RawEvents.{number_at}
use lynx_monitor.Compute.Confirmed.{Arithmetic}
use lynx_monitor.Compute.Alerts.{is_minute_bar_source, is_trade_tick_alert_source}
use lynx_monitor.Compute.Stage.{OctopusComputeV2, Job, Handler}
use lynx_monitor.Compute.Stage.Handlers.{
  Services, symbol_of, process_broker_queue, process_l2_order_book, process_minute_bar_event,
}
use lynx_monitor.Compute.Stage.Ticks.{
  process_tick, process_trade_tick_alert_event, process_kind, process_raw_event_with_state,
  process_raw_event, process_found, stored,
}
use lynx_monitor.Compute.Stage.Emission.{
  returned, raised, Ends-proceed, Emitted, After, edit-Ends, next_number-Ends,
}
use lynx_monitor.Compute.Stage.Numbering.{
  HasEmitted, taken, deliver-HasEmitted, number_alert-Ends, publish_alert-Ends, publish_state-Ends,
  note-Ends, cache_state-Ends, cache_if_any-Ends, publish_latest_bar-Ends,
  should_publish_latest_bar-Ends,
}

module _ {B K D : Type 0} (py : Python) (arithmetic : Arithmetic) (services : Services B K D)
    (start : OctopusComputeV2 B K) (raw_event : Fields) (trade_date : Text) where
  abbrev own : Text
  own = symbol_of py arithmetic services raw_event

  abbrev Handles : Handler B K (List Fields) → Type 0
  Handles handler =
      (j : Job B K)
      → After services.bus own start [] 0 j
      → HasEmitted py arithmetic services start own (handler j)

  process_broker_queue-Handles :
      Handles (process_broker_queue py arithmetic services raw_event trade_date)
  unfolding process_broker_queue
  process_broker_queue-Handles j h =
      Ends-proceed _ _ (edit-Ends services.bus own start _ [] 0 j h) λ queue j1 h1.
        deliver-HasEmitted py arithmetic services start (codes "broker_queue") own _ trade_date _ j1
          h1

  process_l2_order_book-Handles :
      Handles (process_l2_order_book py arithmetic services raw_event trade_date)
  unfolding process_l2_order_book
  process_l2_order_book-Handles j h =
      Ends-proceed _ _ (edit-Ends services.bus own start _ [] 0 j h) λ u j1 h1.
        deliver-HasEmitted py arithmetic services start (codes "l2_order_book") own _ trade_date _
          j1 h1

  process_minute_bar_event-Handles :
      Handles (process_minute_bar_event py arithmetic services raw_event trade_date)
  unfolding process_minute_bar_event
  process_minute_bar_event-Handles j h =
      Ends-proceed _ _ (edit-Ends services.bus own start _ [] 0 j h) λ u j1 h1.
        deliver-HasEmitted py arithmetic services start (codes "snapshot") own _ trade_date _ j1 h1

  process_tick-Handles : Handles (process_tick py arithmetic services raw_event trade_date)
  unfolding process_tick
  process_tick-Handles j h =
      Ends-proceed _ _ (next_number-Ends services.bus own start [] 0 j h) λ seq j1 q.
        Ends-proceed _ _ (edit-Ends services.bus own start _ [] 1 j1 q.1) λ u j2 h2.
          Ends-proceed _ _ (number_alert-Ends py arithmetic services start own [] 1 u.1 j2 h2)
            λ numbered j3 h3.
              Ends-proceed _ _
                (cache_state-Ends py arithmetic services start own trade_date []
                  (1 + taken py arithmetic services start numbered) j3 h3.1)
                λ v j4 h4.
                  Ends-proceed _ _
                    (publish_state-Ends py arithmetic services start own _ seq
                      (1 + taken py arithmetic services start numbered) j4 (omega (arith, q.0)) h4)
                    λ event j5 h5.
                      Ends-proceed _ _
                        (publish_alert-Ends py arithmetic services start own _ (event ∷ [])
                          (1 + taken py arithmetic services start numbered) numbered j5 h3.0 h5)
                        λ alerts j6 h6.
                          Ends-proceed _ _
                            (note-Ends py arithmetic services start own _ (event ∷ alerts)
                              (1 + taken py arithmetic services start numbered) j6 h6.1)
                            λ w j7 h7. returned (h7.0, (h7.1.0 ∙ omega (arith, h6.0), h7.1.1))

  process_trade_tick_alert_event-Handles :
      Handles (process_trade_tick_alert_event py arithmetic services raw_event trade_date)
  unfolding process_trade_tick_alert_event
  process_trade_tick_alert_event-Handles j h =
      Ends-proceed _ _ (edit-Ends services.bus own start _ [] 0 j h) λ u j1 h1.
        Ends-proceed _ _ (should_publish_latest_bar-Ends py arithmetic services start own _ j1 h1)
          λ due j2 h2.
            Ends-proceed _ _ (publish_latest_bar-Ends py arithmetic services start own _ due j2 h2)
              λ snapshots j3 h3.
                Ends-proceed _ _
                  (number_alert-Ends py arithmetic services start own snapshots (length snapshots)
                    u.1 j3 h3)
                  λ numbered j4 h4.
                    Ends-proceed _ _
                      (publish_alert-Ends py arithmetic services start own _ snapshots
                        (length snapshots + taken py arithmetic services start numbered) numbered j4
                        h4.0 h4.1)
                      λ alerts j5 h5.
                        Ends-proceed _ _
                          (cache_if_any-Ends py arithmetic services start own trade_date
                            (snapshots ++ alerts) (snapshots ++ alerts)
                            (length snapshots + taken py arithmetic services start numbered) j5
                            h5.1)
                          λ v j6 h6.
                            Ends-proceed _ _
                              (note-Ends py arithmetic services start own _ (snapshots ++ alerts)
                                (length snapshots + taken py arithmetic services start numbered) j6
                                h6)
                              λ w j7 h7. returned (
                                h7.0,
                                (
                                  h7.1.0 ∙ omega (arith, h5.0, length-append snapshots alerts),
                                  h7.1.1,
                                ),
                              )

  process_kind-Handles :
      (kind : Value) → Handles (process_kind py arithmetic services kind raw_event trade_date)
  unfolding process_kind
  process_kind-Handles kind j h = elim (Bool-cases (is_text (codes "broker_queue") kind)) [
    | inl q ↦ rw q (process_broker_queue-Handles j h)
    | inr nq ↦ rw nq (elim (Bool-cases (is_text (codes "l2_order_book") kind)) [
      | inl l ↦ rw l (process_l2_order_book-Handles j h)
      | inr nl ↦ rw nl (elim (Bool-cases (is_text (codes "tick") kind)) [
        | inr nt ↦ rw nt (returned h)
        | inl t ↦ rw t (elim (Bool-cases (is_minute_bar_source py raw_event)) [
          | inl m ↦ rw m (process_minute_bar_event-Handles j h)
          | inr nm ↦ rw nm (elim (Bool-cases (is_trade_tick_alert_source py raw_event)) [
            | inl a ↦ rw a (process_trade_tick_alert_event-Handles j h)
            | inr na ↦ rw na (process_tick-Handles j h)
          ])
        ])
      ])
    ])
  ]

  process_raw_event_with_state-Handles :
      Handles (process_raw_event_with_state py arithmetic services raw_event trade_date)
  unfolding process_raw_event_with_state
  process_raw_event_with_state-Handles j h =
      Ends-proceed _ _ (edit-Ends services.bus own start _ [] 0 j h)
        λ kind j1 h1. process_kind-Handles kind j1 h1

  -- The stage after a raw event: the events that are returned are those that were published to the processed topic since, in
  -- order and each without an error, and they carry the next numbers of the symbol, all of which were taken for them; where
  -- the call raises no number is given back. No other symbol's number changes.
  abbrev pub IsProcessed : Result (List Fields) × OctopusComputeV2 B K → Type 0
  IsProcessed (result, after) =
      ((t : Text)
        → text_eq own t ≡ false
        → number_at after.seq_by_symbol t ≡ number_at start.seq_by_symbol t)
      × elim result [
        | ok events ↦
            Emitted services.bus own events (number_at start.seq_by_symbol own) start.bus after.bus
            × (number_at after.seq_by_symbol own
                ≡ number_at start.seq_by_symbol own + length events)
        | raise e ↦ number_at start.seq_by_symbol own ≤ number_at after.seq_by_symbol own
      ]

  stored-IsProcessed :
      {r : Result (List Fields) × Job B K}
      → HasEmitted py arithmetic services start own r
      → IsProcessed (stored py arithmetic services own r)
  stored-IsProcessed (returned h) = (h.1.1, (h.0, h.1.0))
  stored-IsProcessed (raised h) = (h.1, h.0)

  process_found-IsProcessed :
      (found : Option Fields)
      → IsProcessed (process_found py arithmetic services raw_event trade_date found start)
  process_found-IsProcessed none = (λ t ne. refl, omega arith)
  process_found-IsProcessed (some state) = stored-IsProcessed (
      process_raw_event_with_state-Handles (record { state = state; stage = start })
        (refl, (omega arith, λ t ne. refl)))

  -- The compute stage publishes what it returns. Whatever the kind of a raw event: the processed events that are returned
  -- are exactly those that were published since, in this order and each without an error; their numbers are the next ones of the symbol, without
  -- a gap, and as many as there are events; and no other symbol's number changes. Where the call raises, the symbol's number
  -- does not go back.
  pub process_raw_event-IsProcessed :
      IsProcessed (process_raw_event py arithmetic services raw_event trade_date start)
  unfolding process_raw_event
  process_raw_event-IsProcessed = process_found-IsProcessed (get start.state_by_symbol own)
