-- ===== src/Bus/Failing.antt =====
-- adapters.py: a bus whose first publishes fail.
use lynx_monitor.Prelude.{
  ℕ, ◌+◌, String, Text, leb, if◌then◌else◌, string_eq, Result, fail, runtime_error, codes,
}
use lynx_monitor.Value.{Fields}
use lynx_monitor.Bus.{EventBus}
use lynx_monitor.Bus.InMemory
use lynx_monitor.Bus.InMemory.{InMemoryEventBus}

-- `FailingEventBus`, whose first publishes fail.
pub record FailingEventBus : Type 0 where
  pub fail_for_attempts : ℕ
  pub attempts : ℕ
  pub base : InMemoryEventBus

unfoldable pub publish :
    String → Text → Fields → FailingEventBus → Result (Unit {0}) × FailingEventBus
publish topic key value b =
    if leb (b.attempts + 1) b.fail_for_attempts
    then (
      fail runtime_error (codes "simulated publish failure"),
      record b { attempts = b.attempts + 1 },
    )
    else let (r, base') = InMemory.publish topic key value b.base in
      (r, record b { attempts = b.attempts + 1; base = base' })

abbrev pub failing : EventBus FailingEventBus
failing = record {
  publish = publish;
  read = λ topic b. InMemory.read topic b.base;
  lag = λ topic offset b. InMemory.lag topic offset b.base;
  commit = λ topic offset b. record b { base = InMemory.commit topic offset b.base };
  committed_offset = λ topic b. InMemory.committed_offset topic b.base;
}
