-- ===== src/Bus/Publish.antt =====
-- What becomes of a published event: it is acknowledged by the wrapped bus, or it is spooled, kept as a
-- dead letter and reported by an exception.
use lynx_monitor.Prelude.{
  ℕ, zero, suc, ◌+◌, ◌-◌, ◌≤◌, ◌<◌, ◌≡◌, ◌⊎◌, inl, inr, refl, String, Text, true, false, Option,
  none, some, [], ◌∷◌, ◌++◌, leb, if◌then◌else◌, ◌==◌, Error, Result, ok, raise,
  event_publish_error, codes, arith, Bool-cases, ap, subst, string_eq, eq_refl, runtime_error,
}
use text.Mathlib.TextEquality.{eq_iff}
use lynx_monitor.Prelude.Dict.{get-put}
use lynx_monitor.Value.{Fields}
use lynx_monitor.Bus.{EventBus, PublishResult, DeadLetterRecord, validate_event_bus_publish_inputs}
use lynx_monitor.Bus.InMemory
use lynx_monitor.Bus.InMemory.{InMemoryEventBus}
use lynx_monitor.Bus.Failing
use lynx_monitor.Bus.Failing.{FailingEventBus, failing}
use lynx_monitor.Contracts.{Python}
use lynx_monitor.Bus.Attempts.{after, HasRaised, Ended, attempt-Ended}
use lynx_monitor.Bus.Reliable.{
  ReliableEventBus, event_id_of, reason_of, Attempt, acknowledged, exhausted, attempt, conclude,
  publish,
}

module _ {W : Type 0} (py : Python) (bus : EventBus W) (topic : String) (key : Text)
    (value : Fields) where
  -- What a publish that returns has done: the wrapped bus raised at the first attempts, however many, and returned at
  -- the next, which was the last. The result is acknowledged, and nothing is spooled.
  pub record IsAcknowledged (r : Result (Unit {0})) (b b' : ReliableEventBus W)
      (result : PublishResult) : Type 0 where
    pub returned : r ≡ ok tt
    pub failures : ℕ
    pub few : failures ≤ b.retries
    pub raised : HasRaised bus topic key value failures b.inner
    pub accepted :
        bus.publish topic key value (after bus topic key value failures b.inner) ≡ (ok tt, b'.inner)
    pub attempts : result.attempts ≡ failures + 1
    pub acknowledged : result.acknowledged ≡ true
    pub no_error : result.error ≡ none
    pub spool : b'.spool ≡ b.spool
    pub dead_letters : b'.dead_letters ≡ b.dead_letters

  -- What a publish that raises has done: the wrapped bus raised at every attempt, one more than there are retries, and
  -- the last error is the reason in the result, and in the record of the event in the spool and in the dead letters.
  pub record IsGivenUp (r : Result (Unit {0})) (b b' : ReliableEventBus W) (result : PublishResult)
      : Type 0 where
    pub error : Error
    pub reported : r ≡ raise error
    pub of_kind : error.kind ≡ event_publish_error
    pub raised : HasRaised bus topic key value (suc b.retries) b.inner
    pub last_error : Error
    pub refused :
        bus.publish topic key value (after bus topic key value b.retries b.inner)
        ≡ (raise last_error, b'.inner)
    pub attempts : result.attempts ≡ b.retries + 1
    pub acknowledged : result.acknowledged ≡ false
    pub reason : result.error ≡ some last_error.message
    pub spool :
        b'.spool
        ≡ b.spool
          ++ record { topic = topic; key = key; value = value; reason = last_error.message } ∷ []
    pub dead_letters :
        b'.dead_letters
        ≡ b.dead_letters
          ++ record { topic = topic; key = key; value = value; reason = last_error.message } ∷ []

  -- What a publish adds to the records of the bus, and did with the wrapped bus.
  pub record Accounted (r : Result (Unit {0})) (b b' : ReliableEventBus W) : Type 0 where
    pub result : PublishResult
    pub results : b'.results ≡ b.results ++ result ∷ []
    pub of_event :
        (result.topic ≡ topic) × (result.key ≡ key) × (result.event_id ≡ event_id_of py bus value)
    pub outcome : IsAcknowledged r b b' result ⊎ IsGivenUp r b b' result

  given_up-Accounted :
      (n : ℕ) (e : Option Error) (w : W) (b : ReliableEventBus W)
      → Ended bus topic key value (suc b.retries) 0 none b.inner (exhausted n e w)
      → Accounted
          (conclude py bus topic key value (exhausted n e w) b).0
          b
          (conclude py bus topic key value (exhausted n e w) b).1
  unfolding conclude
  given_up-Accounted n e w b (counted, (raised, (x, (refused, last)))) =
      let letter : Option Error → DeadLetterRecord =
        λ o. record { topic = topic; key = key; value = value; reason = reason_of bus o } in
      record {
        result = _;
        results = refl;
        of_event = (refl, refl, refl);
        outcome = inr (record {
          error = _;
          reported = refl;
          of_kind = refl;
          raised = raised;
          last_error = x;
          refused = refused;
          attempts = omega (arith, counted);
          acknowledged = refl;
          reason = ap (λ o. some (reason_of bus o)) last;
          spool = ap (λ o. b.spool ++ letter o ∷ []) last;
          dead_letters = ap (λ o. b.dead_letters ++ letter o ∷ []) last;
        });
      }

  conclude-Accounted :
      (a : Attempt W) (b : ReliableEventBus W)
      → Ended bus topic key value (suc b.retries) 0 none b.inner a
      → Accounted (conclude py bus topic key value a b).0 b (conclude py bus topic key value a b).1
  unfolding conclude
  conclude-Accounted (acknowledged n w) b h = record {
    result = _;
    results = refl;
    of_event = (refl, refl, refl);
    outcome = inl (record {
      returned = refl;
      failures = h.failures;
      few = omega (arith, h.few);
      raised = h.raised;
      accepted = h.accepted;
      attempts = omega (arith, h.attempts);
      acknowledged = refl;
      no_error = refl;
      spool = refl;
      dead_letters = refl;
    });
  }
  conclude-Accounted (exhausted n e w) b h = given_up-Accounted n e w b h

  -- Over any bus, a publish adds one result, of this event. Either the wrapped bus raised at some attempts, no more than
  -- there are retries, and then returned: the publish returns, the wrapped bus is as that attempt left it, the result is
  -- acknowledged and counts the attempts, and spool and dead letters are as before. Or the wrapped bus raised at every
  -- attempt, one more than there are retries: the publish raises a publish error, the wrapped bus is as the last attempt
  -- left it, the result is a failure, and the event is added to the spool and to the dead letters with the message of
  -- the last attempt's error.
  pub publish-Accounted :
      (b : ReliableEventBus W)
      → Accounted (publish py bus topic key value b).0 b (publish py bus topic key value b).1
  unfolding publish
  publish-Accounted b =
      let budget : b.retries + 1 ≡ suc b.retries = omega arith in
      conclude-Accounted (attempt bus topic key value (b.retries + 1) 0 none b.inner) b (
        subst
          (λ k.
            Ended bus topic key value k 0 none b.inner
              (attempt bus topic key value (b.retries + 1) 0 none b.inner))
          budget (attempt-Ended bus topic key value (b.retries + 1) 0 none b.inner))

-- Over a bus whose first publishes fail.
module _ (topic : String) (key : Text) (value : Fields) where
  published : InMemoryEventBus → InMemoryEventBus
  published base = (InMemory.publish topic key value base).1

  attempt-failing :
      (left n : ℕ) (e : Option Error) (w : FailingEventBus)
      → validate_event_bus_publish_inputs topic key value ≡ ok tt
      → w.fail_for_attempts < w.attempts + left
      → w.attempts ≤ w.fail_for_attempts
      → attempt failing topic key value left n e w
        ≡ acknowledged
            (n + (w.fail_for_attempts - w.attempts) + 1)
            (record w { attempts = w.fail_for_attempts + 1; base = published (w.base) })
  unfolding attempt Failing.publish InMemory.publish published
  attempt-failing zero n e w valid enough early = absurd (omega arith)
  attempt-failing (suc left) n e w valid enough early =
      elim (Bool-cases (leb (w.attempts + 1) w.fail_for_attempts)) [
        | inl more ↦ ground (
          arith,
          attempt-failing left (n + 1)
              (some (record { kind = runtime_error; message = codes "simulated publish failure" }))
              (record w { attempts = w.attempts + 1 }) valid,
        )
        | inr last ↦ ground arith
      ]

  -- In memory, an event that passes validation is read last from its topic, and every other topic
  -- reads as before.
  pub read-publish :
      (b : InMemoryEventBus) (t : String)
      → validate_event_bus_publish_inputs topic key value ≡ ok tt
      → InMemory.read t (InMemory.publish topic key value b).1 ≡ (
          if topic == t
          then InMemory.read t b ++ record { key = key; value = value } ∷ []
          else InMemory.read t b)
  unfolding InMemory.read InMemory.publish
  read-publish b t valid = ground (
    arith,
    eq_iff topic t,
    get-put b.records topic t (InMemory.read topic b ++ record { key = key; value = value } ∷ []),
  )

module _ (py : Python) (topic : String) (key : Text) (value : Fields) where
  -- Over a fresh bus whose first publishes fail, no more of them than there are retries, publishing a
  -- valid event returns after one attempt more than the failures, and the event is added to its topic
  -- once.
  pub publish-failing :
      (b : ReliableEventBus FailingEventBus)
      → validate_event_bus_publish_inputs topic key value ≡ ok tt
      → b.inner.attempts ≡ 0
      → b.inner.fail_for_attempts ≤ b.retries
      → ((publish py failing topic key value b).0 ≡ ok tt)
        × ((publish py failing topic key value b).1.inner.attempts ≡ b.inner.fail_for_attempts + 1)
        × (InMemory.read topic (publish py failing topic key value b).1.inner.base
            ≡ InMemory.read topic b.inner.base ++ record { key = key; value = value } ∷ [])
  unfolding publish conclude published
  publish-failing b valid fresh few =
      let ends =
        attempt-failing topic key value (b.retries + 1) 0 none b.inner valid (omega arith)
          (omega arith) in
      ground (arith, ends, read-publish topic key value b.inner.base topic valid, eq_refl topic)
