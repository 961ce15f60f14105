-- ===== src/TerminalGateway/Commit.antt =====
-- What the gateway commits of the records that it polls.
use lynx_monitor.Prelude.{
  inr, arith, subst, sym, ℕ, ◌+◌, String, Text, List, [], ◌∷◌, ◌≡◌, refl, length, Result, ok, raise,
}
use lynx_monitor.Value.{Fields}
use lynx_monitor.Contracts.{Python, processed_topic}
use lynx_monitor.Consumer.{PolledRecord, EventConsumer}
use lynx_monitor.TerminalGateway.Offsets.{IsBehind, next_committed_offset-IsBehind}
use lynx_monitor.TerminalGateway.{
  GatewayV2, Stamped, messages_of_records, commit_records, polled, messages_consumed,
  to_terminal_messages,
}

module _ {C : Type 0} (py : Python) (consumer : EventConsumer C) (lag : String → ℕ → C → ℕ) where
  abbrev pub committed : GatewayV2 C → ℕ
  committed g = consumer.committed_offset processed_topic g.bus

  commit_records-IsBehind :
      (records : List PolledRecord) (c : C)
      → IsBehind records
          (consumer.committed_offset processed_topic c)
          (consumer.committed_offset processed_topic (commit_records py consumer lag records c))
  unfolding commit_records
  commit_records-IsBehind [] c = (tt, inr (tt, omega arith))
  commit_records-IsBehind (r ∷ rs) c =
      subst (IsBehind (r ∷ rs) (consumer.committed_offset processed_topic c))
        (sym (consumer.committed_offset-commit processed_topic _ c))
        (next_committed_offset-IsBehind (r ∷ rs) (consumer.committed_offset processed_topic c))

  -- The gateway after a poll: the records and their messages are counted and the committed offset is directly behind them, or the
  -- bus and every count are as before.
  abbrev pub IsConsumed : GatewayV2 C → Result (List Fields) × GatewayV2 C → Type 0
  IsConsumed g (result, h) =
      let records = polled py consumer lag g.bus in
      elim result [
        | ok messages ↦
            IsBehind records (committed g) (committed h)
            × ((h.processed_records_consumed ≡ g.processed_records_consumed + length records)
                × ((h.terminal_messages_emitted ≡ g.terminal_messages_emitted + length messages)
                    × (h.last_terminal_messages ≡ messages)))
        | raise e ↦
            (h.bus ≡ g.bus)
            × ((h.processed_records_consumed ≡ g.processed_records_consumed)
                × ((h.terminal_messages_emitted ≡ g.terminal_messages_emitted)
                    × (h.last_terminal_messages ≡ g.last_terminal_messages)))
      ]

  messages_consumed-IsConsumed :
      (run : Result (List Fields) × Stamped) (g : GatewayV2 C)
      → IsConsumed g (messages_consumed py consumer lag (polled py consumer lag g.bus) run g)
  messages_consumed-IsConsumed (ok messages, s) g =
      (commit_records-IsBehind (polled py consumer lag g.bus) g.bus, (refl, (refl, refl)))
  messages_consumed-IsConsumed (raise e, s) g = (refl, (refl, (refl, refl)))

  -- A poll of the gateway for processed events is all or nothing. Either it returns messages: the offset that is
  -- then committed is above the offset of each record and follows one of them, or, where no record has an offset, is
  -- as much further as there are records, and the records are counted with their messages. Or it raises, and
  -- nothing is committed or counted. `poll`, `commit` and `lag` of the bus do not raise.
  pub to_terminal_messages-IsConsumed :
      (fresh_id : Text → Text → ℕ → Text) (now : Text) (g : GatewayV2 C)
      → IsConsumed g (to_terminal_messages py consumer lag fresh_id now g)
  unfolding to_terminal_messages
  to_terminal_messages-IsConsumed fresh_id now g =
      messages_consumed-IsConsumed
        (messages_of_records py fresh_id now (polled py consumer lag g.bus) g.stamped) g
