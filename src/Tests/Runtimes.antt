-- ===== src/Tests/Runtimes.antt =====
-- The runtimes of symbols: hydration, subscription, eviction and raw events. The world is a clock.
use lynx_monitor.Prelude.{
  ℕ, ◌+◌, ◌-◌, ◌≡◌, refl, Text, codes, true, none, some, List, [], ◌∷◌, leb, text_equality, text_eq,
  Result, ok, raise, Error, other_error,
}
use lynx_monitor.Prelude.Dict.{get}
use lynx_monitor.Value.{Fields, field, end, str}
use lynx_monitor.Contracts.{Python}
use lynx_monitor.Runtime.{SymbolRuntime, new_runtime, evicting, warm, RuntimeStatePayload}
use lynx_monitor.Runtime.Manager.{Hooks, Machine, fresh_manager, runtime_at}
use lynx_monitor.Runtime.Lifecycle.{attach, detach}
use lynx_monitor.Runtime.Eviction.{evict_expired, evict_round}
use lynx_monitor.Runtime.RawEvents.{RawEventProcessor, process_hydrated}
use lynx_monitor.Runtime.Attached.{Subscribed, attach-Subscribed}
use lynx_monitor.Runtime.Evicted.{evict_expired-kept}
use lynx_monitor.Runtime.Stuck.{Ended, evict_round-Ended, unwritten, detach-stuck}
use lynx_monitor.Runtime.Threads.{HydrationEvent, begin, finish, others_change, run_hydrations}
use lynx_monitor.Runtime.Capacity.{IsWithinCapacity, run_hydrations-IsWithinCapacity}
use lynx_monitor.Runtime.Accounting.{IsCounted, process_hydrated-IsCounted}

abbrev tencent : Text
tencent = codes "00700.HK"

abbrev desk : Text
desk = codes "desk"

abbrev python : Python
python = record { format = λ v. []; fromisoformat = λ t. true }

abbrev failure : Error
failure = record { kind = other_error; message = codes "disk full" }

abbrev releasing : Text → ℕ → Result (Unit {0}) × ℕ
releasing symbol w = (ok tt, w)

abbrev failing_sink : Text → RuntimeStatePayload ℕ → ℕ → Result (Unit {0}) × ℕ
failing_sink symbol payload w = (raise failure, w)

abbrev payload : Fields
payload = field "freshness" (str []) end

-- Hooks that succeed, in a grace period of five ticks
abbrev hooks : Hooks ℕ ℕ Text
hooks = record {
  trade_date = codes "20260601";
  now = λ w. w;
  now_iso = λ w. codes "2026-06-01T10:00:00+08:00";
  expired = λ now started. leb 5 (now - started);
  hydrate_symbol = λ symbol w. (ok (some payload), w + 1);
  attach_realtime = some (λ symbol w. (ok true, w + 1));
  release_symbol = some releasing;
  state_sink = none;
  snapshot_sink = none;
  note_query = λ symbol w. (ok [], w);
  release_temporary = λ symbol w. (ok tt, w);
  snapshot_message = λ symbol fields w. (ok symbol, w);
  subscribe = λ symbol trade_date w. (ok symbol, w);
}

abbrev failing_hooks : Hooks ℕ ℕ Text
failing_hooks = record hooks { state_sink = some failing_sink }

abbrev no_runtimes : Machine ℕ ℕ
no_runtimes = record { manager = fresh_manager 2; world = 0 }

abbrev with_runtime : SymbolRuntime ℕ → Machine ℕ ℕ
with_runtime r = record {
  manager = record (fresh_manager 2) { runtimes = (tencent, r) ∷ [] };
  world = 9;
}

-- A runtime that a desk watches, and one that nobody does since time 0
abbrev watched : SymbolRuntime ℕ
watched = record (new_runtime tencent) {
  state = warm;
  subscribers = desk ∷ [];
  realtime_attached = true;
  snapshot_payload = some payload;
}

abbrev unwatched : SymbolRuntime ℕ
unwatched = record watched { state = evicting; subscribers = []; eviction_started_at = some 0 }

attach-Subscribed_example :
    Subscribed python hooks tencent desk tencent no_runtimes
      (attach python hooks tencent desk no_runtimes)
attach-Subscribed_example = attach-Subscribed python hooks tencent desk tencent no_runtimes

evict_expired-kept_example :
    runtime_at tencent (evict_expired python hooks (with_runtime watched)).1.manager ≡ some watched
unfolding get text_eq
evict_expired-kept_example =
    evict_expired-kept python hooks tencent watched (with_runtime watched) refl refl

evict_round-Ended_example :
    Ended python hooks tencent unwatched
      (ok tt)
      (evict_round python hooks tencent (with_runtime unwatched)).1.manager
unfolding get text_eq evict_round
evict_round-Ended_example =
    evict_round-Ended python hooks tencent unwatched releasing (with_runtime unwatched) refl refl
      refl refl refl

detach-stuck_example :
    (runtime_at tencent (detach python failing_hooks tencent desk (with_runtime watched)).manager
      ≡ some (unwritten python failing_hooks desk 9 failure watched))
    × (runtime_at tencent
          (evict_expired python failing_hooks
            (record (detach python failing_hooks tencent desk (with_runtime watched)) {
              world = 20;
            })).1.manager
        ≡ some (unwritten python failing_hooks desk 9 failure watched))
unfolding get text_eq
detach-stuck_example =
    detach-stuck python failing_hooks tencent desk watched failing_sink failure
      (with_runtime watched) 20 refl refl refl refl (λ p w. refl)

abbrev hydrations : List (HydrationEvent ℕ)
hydrations =
    others_change ((tencent, new_runtime tencent) ∷ [])
    ∷ begin tencent (codes "2026-06-01T10:00:00+08:00")
    ∷ finish
        (record {
          symbol = tencent;
          data_type = codes "snapshot";
          effective_trade_date = codes "20260601";
        })
        (ok none)
    ∷ []

run_hydrations-IsWithinCapacity_example : IsWithinCapacity 2 (
    run_hydrations python
      (codes "20260601")
      (codes "full")
      hydrations
      (record { manager = fresh_manager 2; loads = [] }))
run_hydrations-IsWithinCapacity_example =
    run_hydrations-IsWithinCapacity python (codes "20260601") (codes "full") 2 hydrations

-- A processor that finds nothing to say
abbrev silent : RawEventProcessor ℕ
silent raw_event trade_date state w = (ok [], (state, w))

abbrev ids : Text → Text → ℕ → Text
ids message_type symbol seq = codes "id"

process_hydrated-IsCounted_example :
    IsCounted python ids hooks (with_runtime watched) (
      process_hydrated python ids hooks silent end tencent
        (codes "20260601")
        (with_runtime watched))
process_hydrated-IsCounted_example =
    process_hydrated-IsCounted python ids hooks silent end tencent (codes "20260601")
      (with_runtime watched)

evicted : (evict_expired python hooks (with_runtime unwatched)).0 ≡ ok (tencent ∷ [])
unfolding evict_expired get text_eq
evicted = refl
