-- ===== src/Tests/Threads.antt =====
-- Threads that hydrate.
use lynx_monitor.Prelude.{◌≡◌, refl, codes, List, [], ◌∷◌, text_eq}
use lynx_monitor.Hydration.{
  HydrationKey, Event, call, turn, idle, run_events, waiting, loading, is_active,
}
use lynx_monitor.Hydration.Exclusive.{loaders, as_number, run_events-IsExclusive}

abbrev minute_bars : HydrationKey
minute_bars = record {
  symbol = codes "00700.HK";
  data_type = codes "minute_bars";
  effective_trade_date = codes "20260601";
}

-- Two threads ask for the same key, and both get a turn before the first has loaded it.
abbrev schedule : List Event
schedule = call minute_bars ∷ call minute_bars ∷ turn 0 ∷ turn 1 ∷ []

second_waits : (run_events schedule idle).threads ≡ loading minute_bars ∷ waiting minute_bars ∷ []
unfolding run_events text_eq
second_waits = refl

run_events-IsExclusive_example :
    loaders minute_bars (run_events schedule idle).threads
    ≡ as_number (is_active (run_events schedule idle).active minute_bars)
run_events-IsExclusive_example = run_events-IsExclusive schedule minute_bars
