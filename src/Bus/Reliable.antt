-- ===== src/Bus/Reliable.antt =====
-- adapters.py: retries, and the spool and dead letters for what cannot be published.
use lynx_monitor.Prelude.{
  ℕ, zero, suc, ◌+◌, String, Text, true, false, Option, none, some, List, [], ◌∷◌, ◌++◌, string_eq,
  Error, Result, ok, raise, fail, event_publish_error, codes,
}
use lynx_monitor.Value.{Fields, find}
use lynx_monitor.Contracts.{Python, text_of}
use lynx_monitor.Bus.{EventBus, PublishResult, DeadLetterRecord}

-- `ReliableEventBus` over the state of the wrapped bus. `spool` is the `LocalSpool`.
pub record ReliableEventBus (W : Type 0) : Type 0 where
  pub inner : W
  pub retries : ℕ
  pub spool : List DeadLetterRecord
  pub dead_letters : List DeadLetterRecord
  pub results : List PublishResult

-- How the retry loop of `publish` ends.
pub data Attempt (W : Type 0) : Type 0 where
  acknowledged : ℕ → W → Attempt W
  exhausted : ℕ → Option Error → W → Attempt W

module _ {W : Type 0} (bus : EventBus W) where
  -- `while attempts <= self.retries`, by recursion on the attempts left.
  unfoldable pub attempt : String → Text → Fields → ℕ → ℕ → Option Error → W → Attempt W
  attempt topic key value zero attempts last_error w = exhausted attempts last_error w
  attempt topic key value (suc left) attempts last_error w =
      let tried = bus.publish topic key value w in
      elim (tried.0) [
        | ok _ ↦ acknowledged (attempts + 1) tried.1
        | raise e ↦ attempt topic key value left (attempts + 1) (some e) tried.1
      ]

  abbrev pub reason_of : Option Error → Text
  reason_of none = codes "unknown publish failure"
  reason_of (some e) = e.message

module _ {W : Type 0} (py : Python) (bus : EventBus W) where
  -- str(value.get("event_id", ""))
  abbrev pub event_id_of : Fields → Text
  event_id_of value = elim (find "event_id" value) [ none ↦ [] | some v ↦ text_of py v ]

  -- What `publish` does after its loop. Adding to the spool does not fail.
  unfoldable pub conclude :
      String
      → Text
      → Fields
      → Attempt W
      → ReliableEventBus W
      → Result (Unit {0}) × ReliableEventBus W
  unfolding find
  conclude topic key value (acknowledged n w) b = (
    ok tt,
    record b {
      inner = w;
      results =
          b.results
          ++ record {
            topic = topic;
            key = key;
            event_id = event_id_of value;
            acknowledged = true;
            attempts = n;
            error = none;
          }
            ∷ [];
    },
  )
  conclude topic key value (exhausted n last_error w) b =
      let reason = reason_of bus last_error in
      let letter : DeadLetterRecord = record {
        topic = topic;
        key = key;
        value = value;
        reason = reason;
      } in
      (
        fail event_publish_error (
            codes "failed to publish "
            ++ (codes topic ++ (b'/' ∷ (key ++ (codes ": " ++ reason))))),
        record b {
          inner = w;
          spool = b.spool ++ letter ∷ [];
          dead_letters = b.dead_letters ++ letter ∷ [];
          results =
              b.results
              ++ record {
                topic = topic;
                key = key;
                event_id = event_id_of value;
                acknowledged = false;
                attempts = n;
                error = some reason;
              }
                ∷ [];
        },
      )

  unfoldable pub publish :
      String → Text → Fields → ReliableEventBus W → Result (Unit {0}) × ReliableEventBus W
  unfolding attempt conclude
  publish topic key value b =
      conclude topic key value (attempt bus topic key value (b.retries + 1) 0 none b.inner) b

  -- The other methods pass on to the wrapped bus.
  unfoldable pub commit : String → ℕ → ReliableEventBus W → ReliableEventBus W
  commit topic offset b = record b { inner = bus.commit topic offset b.inner }

  -- The bus is a bus again.
  abbrev pub reliable : EventBus (ReliableEventBus W)
  reliable = record {
    publish = publish;
    read = λ topic b. bus.read topic b.inner;
    lag = λ topic offset b. bus.lag topic offset b.inner;
    commit = commit;
    committed_offset = λ topic b. bus.committed_offset topic b.inner;
  }
