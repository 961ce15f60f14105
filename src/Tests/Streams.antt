-- ===== src/Tests/Streams.antt =====
-- The freshness of streams.
use lynx_monitor.Prelude.{
  ℕ, ◌-◌, ◌≡◌, refl, Text, codes, true, none, some, [], ◌∷◌, length, ltb, any, ok,
}
use lynx_monitor.Pool.{contains}
use lynx_monitor.Pool.Members.{Distinct}
use lynx_monitor.Freshness.{
  SymbolFreshnessTracker, SymbolFreshness, Clock, Report, mark_subscribed, record_event, evaluate,
  fresh_state,
}
use lynx_monitor.Freshness.Evaluation.{AllMarked, wants, evaluate_lem}
use lynx_monitor.Freshness.Streams.{IsRecorded, record_event-IsRecorded}

abbrev symbol : Text
symbol = codes "00700.HK"

-- A clock that reads the length of a text, and calls a difference of more than 2 old.
abbrev lengths : Clock ℕ
lengths = record { timestamp = λ t. ok (length t); older = λ now t. ltb 2 (now - t) }

abbrev no_streams : SymbolFreshnessTracker
no_streams = record { max_queue_backlog = 3; state_by_symbol = [] }

abbrev one_stream : SymbolFreshnessTracker
one_stream = mark_subscribed (codes "1") symbol none none no_streams

record_event-IsRecorded_example :
    IsRecorded symbol
      (codes "12")
      (some (codes "1m"))
      none
      one_stream
      (record_event (codes "12") symbol (codes "12") none (some (codes "1m")) none one_stream)
record_event-IsRecorded_example =
    record_event-IsRecorded (codes "12") symbol (codes "12") none (some (codes "1m")) none
      one_stream

-- A subscribed stream without an event, and the time 5.
abbrev stale : SymbolFreshness
stale = record (fresh_state symbol none none) {
  subscribed = true;
  subscribed_at = some (codes "1");
  degraded = true;
  degraded_reason = some (codes "no_events_after_subscribe");
  resubscribe_requested = true;
}

abbrev report : Report
report = record {
  evaluated_at = codes "12345";
  resubscribe_symbols = symbol ∷ [];
  symbol_freshness = (symbol, stale) ∷ [];
}

reported : (evaluate lengths (codes "12345") none one_stream).0 ≡ ok report
unfolding evaluate mark_subscribed
reported = refl

evaluate_lem_example :
    AllMarked lengths 3
      (codes "12345")
      one_stream.state_by_symbol
      (evaluate lengths (codes "12345") none one_stream).1.state_by_symbol
    × ((s : Text)
        → contains (symbol ∷ []) s
          ≡ any (wants s) (evaluate lengths (codes "12345") none one_stream).1.state_by_symbol)
    × Distinct (symbol ∷ [])
unfolding mark_subscribed
evaluate_lem_example = evaluate_lem lengths (codes "12345") none one_stream report reported
