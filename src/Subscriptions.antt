-- ===== src/Subscriptions.antt =====
-- backend/beast_market/runtime.py: `XtQuantSubscriptionManager`. The client of xtquant and the collector are
-- parameters: a call of them returns or raises, and leaves another world `W`; `now` reads the monotonic clock, and
-- `cooling now previous` is the test that a resubscription at `previous` was too short a time ago.
pub mod Cooldown
use lynx_monitor.Prelude.{
  ℕ, ◌+◌, Text, Bool, true, false, not, ◌&&◌, Option, none, some, List, [], ◌∷◌, ◌++◌, any, select,
  if◌then◌else◌, codes, text_eq, text_equality, Result, ok, raise, Error,
}
use lynx_monitor.Prelude.Dict.{Dict, get, put}
use lynx_monitor.Symbols.{normalize_subscription_symbol}
use lynx_monitor.Pool.{contains, add_once}
use lynx_monitor.Freshness.{SymbolFreshness, Report}

pub record SubscriptionStats : Type 0 where
  pub starts : ℕ
  pub stops : ℕ
  pub subscribes : ℕ
  pub unsubscribes : ℕ
  pub resubscribes : ℕ
  pub failed : ℕ
  pub errors : List Text

pub record XtQuantSubscriptionManager (T : Type 0) : Type 0 where
  pub last_resubscribe_at_by_symbol : Dict Text T
  pub stats : SubscriptionStats
  pub running : Bool
  pub subscribed_symbols : List Text

-- What the manager calls. `set_process` writes `collector.health.process`.
pub record Feed (T W : Type 0) : Type 0 where
  pub start : W → Result (Unit {0}) × W
  pub stop : W → Result (Unit {0}) × W
  pub subscribe : Text → W → Result (Unit {0}) × W
  pub unsubscribe : Text → W → Result (Unit {0}) × W
  pub subscribe_symbol : Text → W → Result (Unit {0}) × W
  pub unsubscribe_symbol : Text → W → Result (Unit {0}) × W
  pub evaluate_freshness : W → Result Report × W
  pub set_process : Text → W → W
  pub now : W → T
  pub cooling : T → T → Bool

pub record Managed (T W : Type 0) : Type 0 where
  pub manager : XtQuantSubscriptionManager T
  pub world : W

abbrev pub no_subscription_stats : SubscriptionStats
no_subscription_stats = record {
  starts = 0;
  stops = 0;
  subscribes = 0;
  unsubscribes = 0;
  resubscribes = 0;
  failed = 0;
  errors = [];
}

module _ {T W : Type 0} where
  -- A call of the feed, and what follows where it returns
  abbrev pub called :
      Managed T W
      → Result (Unit {0}) × W
      → (Managed T W → Result (Unit {0}) × Managed T W)
      → Result (Unit {0}) × Managed T W
  called x (ok _, w) f = f (record x { world = w })
  called x (raise e, w) f = (raise e, record x { world = w })

  abbrev pub with_stats : (SubscriptionStats → SubscriptionStats) → Managed T W → Managed T W
  with_stats f x = record x { manager = record x.manager { stats = f x.manager.stats } }

module _ {T W : Type 0} (feed : Feed T W) where
  -- `_record_failure`
  unfoldable pub record_failure : Error → Managed T W → Managed T W
  record_failure e x = record {
    manager = record x.manager {
      stats = record x.manager.stats {
        failed = x.manager.stats.failed + 1;
        errors = x.manager.stats.errors ++ e.message ∷ [];
      };
    };
    world = feed.set_process (codes "degraded") x.world;
  }

  -- except Exception as error: self._record_failure(error); raise
  unfoldable pub or_failure : Result (Unit {0}) × Managed T W → Result (Unit {0}) × Managed T W
  unfolding record_failure
  or_failure (ok _, x) = (ok tt, x)
  or_failure (raise e, x) = (raise e, record_failure e x)

  unfoldable pub start : Managed T W → Result (Unit {0}) × Managed T W
  unfolding or_failure
  start x = or_failure (
      called x (feed.start x.world) (λ y. (
        ok tt,
        record {
          manager = record y.manager {
            running = true;
            stats = record y.manager.stats { starts = y.manager.stats.starts + 1 };
          };
          world = feed.set_process (codes "running") y.world;
        },
      )))

  unfoldable pub stop : Managed T W → Result (Unit {0}) × Managed T W
  unfolding or_failure
  stop x = or_failure (
      called x (feed.stop x.world) (λ y. (
        ok tt,
        record {
          manager = record y.manager {
            subscribed_symbols = [];
            running = false;
            stats = record y.manager.stats { stops = y.manager.stats.stops + 1 };
          };
          world = feed.set_process (codes "stopped") y.world;
        },
      )))

  -- `subscribe` and `unsubscribe` of a symbol that is normalised already
  unfoldable pub subscribe_normalized : Text → Managed T W → Result (Unit {0}) × Managed T W
  unfolding or_failure add_once
  subscribe_normalized symbol x = or_failure (
      called x (feed.subscribe symbol x.world) (λ y.
        called
          (record y {
            manager = record y.manager {
              subscribed_symbols = add_once y.manager.subscribed_symbols symbol;
            };
          })
          (feed.subscribe_symbol symbol y.world)
          (λ z. (ok tt, with_stats (λ s. record s { subscribes = s.subscribes + 1 }) z))))

  unfoldable pub unsubscribe_normalized : Text → Managed T W → Result (Unit {0}) × Managed T W
  unfolding or_failure text_eq
  unsubscribe_normalized symbol x = or_failure (
      called x (feed.unsubscribe symbol x.world) (λ y.
        called
          (record y {
            manager = record y.manager {
              subscribed_symbols =
                  select (λ s. not (text_eq s symbol)) y.manager.subscribed_symbols;
            };
          })
          (feed.unsubscribe_symbol symbol y.world)
          (λ z. (ok tt, with_stats (λ s. record s { unsubscribes = s.unsubscribes + 1 }) z))))

  abbrev pub of_symbol :
      (Text → Managed T W → Result (Unit {0}) × Managed T W)
      → Result Text
      → Managed T W
      → Result (Unit {0}) × Managed T W
  of_symbol f (ok symbol) x = f symbol x
  of_symbol f (raise e) x = (raise e, x)

  unfoldable pub subscribe : Text → Managed T W → Result (Unit {0}) × Managed T W
  unfolding normalize_subscription_symbol subscribe_normalized
  subscribe raw_symbol = of_symbol subscribe_normalized (normalize_subscription_symbol raw_symbol)

  unfoldable pub unsubscribe : Text → Managed T W → Result (Unit {0}) × Managed T W
  unfolding normalize_subscription_symbol unsubscribe_normalized
  unsubscribe raw_symbol =
      of_symbol unsubscribe_normalized (normalize_subscription_symbol raw_symbol)

  -- A stream of the symbol whose queue is too long
  unfoldable pub is_backlogged : Text → Text × SymbolFreshness → Bool
  unfolding text_eq
  is_backlogged symbol (stream, state) =
      text_eq state.symbol symbol && elim (state.degraded_reason) [
        | none ↦ false
        | some reason ↦ text_eq reason (codes "queue_backlog_exceeded")
      ]

  abbrev pub is_cooling : Option T → T → Bool
  is_cooling none now = false
  is_cooling (some previous) now = feed.cooling now previous

  -- `_should_resubscribe`
  unfoldable pub should_resubscribe :
      Text → Report → T → XtQuantSubscriptionManager T → Bool × XtQuantSubscriptionManager T
  unfolding is_backlogged get put
  should_resubscribe symbol report now m =
      if any (is_backlogged symbol) report.symbol_freshness
      then (false, m)
      else if is_cooling (get m.last_resubscribe_at_by_symbol symbol) now
      then (false, m)
      else (
        true,
        record m { last_resubscribe_at_by_symbol = put m.last_resubscribe_at_by_symbol symbol now },
      )

  -- `_resubscribe`
  unfoldable pub resubscribe : Text → Managed T W → Result (Unit {0}) × Managed T W
  unfolding or_failure
  resubscribe symbol x = or_failure (
      called x (feed.unsubscribe symbol x.world) (λ y.
        called y (feed.subscribe symbol y.world) (λ z.
          called z (feed.subscribe_symbol symbol z.world)
            (λ v. (ok tt, with_stats (λ s. record s { resubscribes = s.resubscribes + 1 }) v)))))

  abbrev pub and_then :
      Result (Unit {0}) × Managed T W
      → (Managed T W → Result (Unit {0}) × Managed T W)
      → Result (Unit {0}) × Managed T W
  and_then (ok _, x) f = f x
  and_then (raise e, x) f = (raise e, x)

  -- A round of the loop of `check_freshness_and_resubscribe`
  unfoldable pub resubscribe_round : Report → Text → Managed T W → Result (Unit {0}) × Managed T W
  unfolding text_eq should_resubscribe resubscribe
  resubscribe_round report symbol x =
      let (due, m) = should_resubscribe symbol report (feed.now x.world) x.manager in
      if not (contains x.manager.subscribed_symbols symbol)
      then (ok tt, x)
      else if due
      then resubscribe symbol (record x { manager = m })
      else (ok tt, record x { manager = m })

  unfoldable pub resubscribe_rounds :
      Report → List Text → Managed T W → Result (Unit {0}) × Managed T W
  unfolding resubscribe_round
  resubscribe_rounds report [] x = (ok tt, x)
  resubscribe_rounds report (s ∷ ss) x =
      and_then (resubscribe_round report s x) (resubscribe_rounds report ss)

  abbrev evaluated : Result Report × W → Managed T W → Result Report × Managed T W
  evaluated (raise e, w) x = (raise e, record x { world = w })
  evaluated (ok report, w) x =
      let (result, y) =
        resubscribe_rounds report report.resubscribe_symbols (record x { world = w }) in
      (elim result [ ok _ ↦ ok report | raise e ↦ raise e ], y)

  unfoldable pub check_freshness_and_resubscribe : Managed T W → Result Report × Managed T W
  unfolding resubscribe_rounds
  check_freshness_and_resubscribe x = evaluated (feed.evaluate_freshness x.world) x
