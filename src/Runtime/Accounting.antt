-- ===== src/Runtime/Accounting.antt =====
-- The counters of `apply_raw_event`, and the numbers of the messages.
use lynx_monitor.Prelude.{
  ℕ, ◌+◌, Text, Option, some, List, ◌≡◌, refl, ap, ◌∙◌, length, text_equality, Result, ok, raise,
  Error, inl, inr, arith, Option-cases,
}
use lynx_monitor.Prelude.Dict.{Dict}
use lynx_monitor.Value.{Fields}
use lynx_monitor.Contracts.{Python}
use lynx_monitor.Runtime.{SymbolRuntime, RuntimeStatePayload}
use lynx_monitor.Runtime.Manager.{
  SymbolRuntimeManager, after_write, Hooks, Machine, adjust, runtime_at, note_state_failure,
  note_snapshot_failure, publish_state, publish_snapshot, snapshot_payload, runtime_state_payload,
  flush_runtime_state,
}
use lynx_monitor.Runtime.RawEvents.{
  RawEventProcessor, emit, count_deltas, processed_runtime, process_answered, process_hydrated,
  terminal_messages_from_processed,
}

-- The counters of raw events and of deltas
record SameCounts {T : Type 0} (m n : SymbolRuntimeManager T) : Type 0 where
  events : m.raw_events_applied ≡ n.raw_events_applied
  deltas : m.runtime_delta_emitted ≡ n.runtime_delta_emitted

module _ {T : Type 0} where
  adjust-SameCounts :
      (symbol : Text) (f : SymbolRuntime T → SymbolRuntime T) (m : SymbolRuntimeManager T)
      → SameCounts (adjust symbol f m) m
  unfolding adjust
  adjust-SameCounts symbol f m = elim (Option-cases (runtime_at symbol m)) [
    | inl e ↦ record { events = ground (arith, e); deltas = ground (arith, e) }
    | inr (r, e) ↦ record { events = ground (arith, e); deltas = ground (arith, e) }
  ]

module _ {T W M : Type 0} (py : Python) (fresh_id : Text → Text → ℕ → Text)
    (hooks : Hooks T W M) where
  after_write-SameCounts :
      (note : Error → SymbolRuntimeManager T → SymbolRuntimeManager T)
      → ((e : Error) (m : SymbolRuntimeManager T) → SameCounts (note e m) m)
      → (r : Result (Unit {0}) × W) (x : Machine T W)
      → SameCounts (after_write py hooks note r x).manager x.manager
  after_write-SameCounts note h (ok _, w) x = record { events = refl; deltas = refl }
  after_write-SameCounts note h (raise e, w) x = h e x.manager

  note_state-SameCounts :
      (symbol : Text) (e : Error) (m : SymbolRuntimeManager T)
      → SameCounts (note_state_failure symbol e m) m
  unfolding note_state_failure
  note_state-SameCounts symbol e m =
      let h = adjust-SameCounts symbol _ _ in record { events = h.events; deltas = h.deltas }

  note_snapshot-SameCounts :
      (symbol : Text) (e : Error) (m : SymbolRuntimeManager T)
      → SameCounts (note_snapshot_failure symbol e m) m
  unfolding note_snapshot_failure
  note_snapshot-SameCounts symbol e m =
      let h = adjust-SameCounts symbol _ _ in record { events = h.events; deltas = h.deltas }

  publish_state-SameCounts :
      (symbol : Text) (payload : Option (RuntimeStatePayload T)) (x : Machine T W)
      → SameCounts (publish_state py hooks symbol payload x).manager x.manager
  unfolding publish_state
  publish_state-SameCounts symbol payload x = elim (Option-cases (hooks.state_sink)) [
    | inl e ↦ rw (publish_state, e) (record { events = refl; deltas = refl })
    | inr (sink, e) ↦ elim (Option-cases payload) [
      | inl n ↦ rw (publish_state, e, n) (record { events = refl; deltas = refl })
      | inr (p, n) ↦
          rw (publish_state, e, n)
            (after_write-SameCounts (note_state_failure symbol) (note_state-SameCounts symbol)
              (sink symbol p x.world) x)
    ]
  ]

  publish_snapshot-SameCounts :
      (symbol : Text) (payload : Option Fields) (x : Machine T W)
      → SameCounts (publish_snapshot py hooks symbol payload x).manager x.manager
  unfolding publish_snapshot
  publish_snapshot-SameCounts symbol payload x = elim (Option-cases (hooks.snapshot_sink)) [
    | inl e ↦ rw (publish_snapshot, e) (record { events = refl; deltas = refl })
    | inr (sink, e) ↦ elim (Option-cases payload) [
      | inl n ↦ rw (publish_snapshot, e, n) (record { events = refl; deltas = refl })
      | inr (p, n) ↦
          rw (publish_snapshot, e, n)
            (after_write-SameCounts (note_snapshot_failure symbol) (note_snapshot-SameCounts symbol)
              (sink symbol p x.world) x)
    ]
  ]

  -- The counters after the processor was called in a machine: one event more and a delta for each message where
  -- it returned messages, and none where it raised.
  abbrev pub IsCounted : Machine T W → Result (List Fields × List Fields) × Machine T W → Type 0
  IsCounted x (result, y) = elim result [
    | ok (processed, messages) ↦
        (y.manager.raw_events_applied ≡ x.manager.raw_events_applied + 1)
        × (y.manager.runtime_delta_emitted ≡ x.manager.runtime_delta_emitted + length messages)
    | raise e ↦
        (y.manager.raw_events_applied ≡ x.manager.raw_events_applied)
        × (y.manager.runtime_delta_emitted ≡ x.manager.runtime_delta_emitted)
  ]

  emit-IsCounted :
      (symbol : Text) (state : Fields) (processed messages : List Fields) (x y : Machine T W)
      → SameCounts x.manager y.manager
      → IsCounted y (emit py fresh_id hooks symbol state processed messages x)
  unfolding emit flush_runtime_state count_deltas
  emit-IsCounted symbol state processed messages x y same =
      let m : SymbolRuntimeManager T = record x.manager {
        raw_events_applied = x.manager.raw_events_applied + 1;
        runtime_delta_emitted = x.manager.runtime_delta_emitted + length messages;
      } in
      let counted : Machine T W = record x {
        manager = count_deltas py fresh_id hooks symbol state (length messages) x.manager;
      } in
      let h1 =
        adjust-SameCounts symbol (processed_runtime py fresh_id hooks state (length messages)) m in
      let h2 =
        publish_state-SameCounts symbol (runtime_state_payload py hooks symbol counted) counted in
      let h3 =
        publish_snapshot-SameCounts symbol (snapshot_payload py hooks symbol counted)
          (flush_runtime_state py hooks symbol counted) in
      (
        h3.events ∙ h2.events ∙ h1.events ∙ ap (λ n. n + 1) same.events,
        h3.deltas ∙ h2.deltas ∙ h1.deltas ∙ ap (λ n. n + length messages) same.deltas,
      )

  -- The machine after the processor, with its snapshot kept and the numbers of the messages counted
  after_processor : Text → Fields → Dict Text ℕ → W → Machine T W → Machine T W
  after_processor symbol state seqs world x = record {
    manager =
        adjust symbol (λ r. record r { snapshot_payload = some state })
          (record x.manager { seq_by_symbol = seqs });
    world = world;
  }

  after_processor-SameCounts :
      (symbol : Text) (state : Fields) (seqs : Dict Text ℕ) (world : W) (x : Machine T W)
      → SameCounts (after_processor symbol state seqs world x).manager x.manager
  unfolding after_processor
  after_processor-SameCounts symbol state seqs world x =
      let h =
        adjust-SameCounts symbol (λ r. record r { snapshot_payload = some state })
          (record x.manager { seq_by_symbol = seqs }) in
      record { events = h.events; deltas = h.deltas }

  messages-IsCounted :
      (symbol : Text) (state : Fields) (processed : List Fields) (messages : Result (List Fields))
      (x y : Machine T W)
      → SameCounts x.manager y.manager
      → IsCounted y (elim messages [
        | raise e ↦ (raise e, x)
        | ok ms ↦ emit py fresh_id hooks symbol state processed ms x
      ])
  messages-IsCounted symbol state processed (ok ms) x y same =
      emit-IsCounted symbol state processed ms x y same
  messages-IsCounted symbol state processed (raise e) x y same = (same.events, same.deltas)

  process_answered-IsCounted :
      (symbol : Text) (answer : Result (List Fields) × (Fields × W)) (x : Machine T W)
      → IsCounted x (process_answered py fresh_id hooks symbol answer x)
  unfolding after_processor
  process_answered-IsCounted symbol (raise e, (state, world)) x =
      let same = after_processor-SameCounts symbol state x.manager.seq_by_symbol world x in
      (same.events, same.deltas)
  process_answered-IsCounted symbol (ok processed, (state, world)) x =
      let run =
        terminal_messages_from_processed py fresh_id (hooks.now_iso world) processed
          x.manager.seq_by_symbol in
      messages-IsCounted symbol state processed run.0 (after_processor symbol state run.1 world x) x
        (after_processor-SameCounts symbol state run.1 world x)

  -- A raw event of a symbol that is hydrated: where its processing returns, one event more is counted and a delta
  -- for each terminal message; where the processor or the check of a message raises, none is.
  pub process_hydrated-IsCounted :
      (processor : RawEventProcessor W) (raw_event : Fields) (symbol trade_date : Text)
      (x : Machine T W)
      → IsCounted x (process_hydrated py fresh_id hooks processor raw_event symbol trade_date x)
  unfolding process_hydrated
  process_hydrated-IsCounted processor raw_event symbol trade_date x =
      elim (Option-cases (snapshot_payload py hooks symbol x)) [
        | inl e ↦ rw (process_hydrated, e) (refl, refl)
        | inr (state, e) ↦
            rw (process_hydrated, e)
              (process_answered-IsCounted symbol (processor raw_event trade_date state x.world) x)
      ]
