-- ===== src/Bus/Attempts.antt =====
-- The attempts of a publish, one after the other, and what each did to the wrapped bus.
use lynx_monitor.Prelude.{
  ℕ, zero, suc, ◌+◌, ◌<◌, ◌≡◌, refl, String, Text, Option, some, Error, Result, ok, raise, arith,
  sym,
}
use lynx_monitor.Value.{Fields}
use lynx_monitor.Bus.{EventBus}
use lynx_monitor.Bus.Reliable.{Attempt, acknowledged, exhausted, attempt}

module _ {W : Type 0} (bus : EventBus W) (topic : String) (key : Text) (value : Fields) where
  -- The wrapped bus after so many publishes of the event
  abbrev pub after : ℕ → W → W
  after zero w = w
  after (suc n) w = after n (bus.publish topic key value w).1

  -- Each of so many publishes of the event raises.
  abbrev pub HasRaised : ℕ → W → Type 0
  HasRaised zero w = Unit
  HasRaised (suc n) w =
      ((e : Error) × ((bus.publish topic key value w).0 ≡ raise e))
      × HasRaised n (bus.publish topic key value w).1

  -- The loop ended by an attempt that returned, after attempts that raised.
  pub record IsAccepted (left n : ℕ) (w : W) (tried : ℕ) (w' : W) : Type 0 where
    pub failures : ℕ
    pub few : failures < left
    pub raised : HasRaised failures w
    pub accepted : bus.publish topic key value (after failures w) ≡ (ok tt, w')
    pub attempts : tried ≡ n + failures + 1

  -- The error that is left by the last attempt, if there was one
  abbrev pub IsLastError : (left : ℕ) → Option Error → W → Option Error → W → Type 0
  IsLastError zero e w e' w' = (e' ≡ e) × (w' ≡ w)
  IsLastError (suc left) e w e' w' =
      (x : Error) × ((bus.publish topic key value (after left w) ≡ (raise x, w')) × (e' ≡ some x))

  -- How the loop ends, from a number of attempts left
  abbrev pub Ended : (left n : ℕ) → Option Error → W → Attempt W → Type 0
  Ended left n e w (acknowledged m w') = IsAccepted left n w m w'
  Ended left n e w (exhausted m e' w') =
      (m ≡ n + left) × (HasRaised left w × IsLastError left e w e' w')

  last_after :
      (left : ℕ) (e : Option Error) (x : Error) (w : W) (e' : Option Error) (w' : W)
      → (bus.publish topic key value w).0 ≡ raise x
      → IsLastError left (some x) (bus.publish topic key value w).1 e' w'
      → IsLastError (suc left) e w e' w'
  last_after zero e x w e' w' r h = (x, (λ i. (r i, sym h.1 i), h.0))
  last_after (suc left) e x w e' w' r h = h

  attempt_after :
      (left n : ℕ) (e : Option Error) (x : Error) (w : W) (a : Attempt W)
      → (bus.publish topic key value w).0 ≡ raise x
      → Ended left (n + 1) (some x) (bus.publish topic key value w).1 a
      → Ended (suc left) n e w a
  attempt_after left n e x w (acknowledged m w') r h = record {
    failures = suc h.failures;
    few = omega (arith, h.few);
    raised = ((x, r), h.raised);
    accepted = h.accepted;
    attempts = omega (arith, h.attempts);
  }
  attempt_after left n e x w (exhausted m e' w') r h =
      (omega (arith, h.0), (((x, r), h.1.0), last_after left e x w e' w' r h.1.1))

  round-Ended :
      (left n : ℕ) (e : Option Error) (w : W) (tried : Result (Unit {0}))
      → (bus.publish topic key value w).0 ≡ tried
      → ((x : Error)
          → Ended left
              (n + 1)
              (some x)
              (bus.publish topic key value w).1
              (attempt bus topic key value left (n + 1) (some x) (bus.publish topic key value w).1))
      → Ended (suc left) n e w (elim tried [
        | ok _ ↦ acknowledged (n + 1) (bus.publish topic key value w).1
        | raise x ↦
            attempt bus topic key value left (n + 1) (some x) (bus.publish topic key value w).1
      ])
  round-Ended left n e w (ok u) r later = record {
    failures = 0;
    few = omega arith;
    raised = tt;
    accepted = λ i. (r i, (bus.publish topic key value w).1);
    attempts = omega arith;
  }
  round-Ended left n e w (raise x) r later = attempt_after left n e x w _ r (later x)

  pub attempt-Ended :
      (left n : ℕ) (e : Option Error) (w : W)
      → Ended left n e w (attempt bus topic key value left n e w)
  unfolding attempt
  attempt-Ended zero n e w = (omega arith, (tt, (refl, refl)))
  attempt-Ended (suc left) n e w =
      round-Ended left n e w (bus.publish topic key value w).0 refl
        (λ x. attempt-Ended left (n + 1) (some x) (bus.publish topic key value w).1)
