-- ===== src/Runtime/Stuck.antt =====
-- What becomes of a runtime whose grace period is over, and of one whose state could not be written.
use lynx_monitor.Prelude.{
  Text, true, false, none, some, ◌++◌, ◌≡◌, refl, ◌∙◌, text_eq_iff, text_equality, Result, ok,
  raise, Error, arith, codes,
}
use lynx_monitor.Prelude.Dict.{get-remove, set_default}
use lynx_monitor.Contracts.{Python}
use lynx_monitor.Runtime.{
  SymbolRuntime, RuntimeStatePayload, evicting, is_cold, no_texts, runtime_state_payload_locked,
}
use lynx_monitor.Runtime.Manager.{
  SymbolRuntimeManager, Hooks, Machine, adjust, runtime_at, degrade_for, flush_runtime_state,
  runtime_state_payload, publish_state, note_state_failure, after_write,
}
use lynx_monitor.Runtime.Action.{go_on}
use lynx_monitor.Runtime.Lifecycle.{
  discard, present, start_eviction, detach, release_realtime, release_answered,
}
use lynx_monitor.Runtime.Eviction.{
  due, is_unreferenced, candidate_of, delete, evict_released, evict_candidate, evict_round,
  evict_expired,
}
use lynx_monitor.Runtime.Frame.{runtime_at-adjust}
use lynx_monitor.Runtime.Evicted.{evict_expired-kept}

module _ {T W M : Type 0} (py : Python) (hooks : Hooks T W M) where
  release_answered-own :
      (symbol : Text) (answer : Result (Unit {0})) (r : SymbolRuntime T)
      (m : SymbolRuntimeManager T)
      → runtime_at symbol m ≡ some r
      → runtime_at symbol (release_answered py hooks symbol answer m)
        ≡ some (elim answer [
          | ok _ ↦ record r { realtime_attached = false }
          | raise e ↦ degrade_for (codes "realtime_release_failed: " ++ e.message) r
        ])
  release_answered-own symbol (ok _) r m at =
      runtime_at-adjust symbol symbol _ m ∙ ground (arith, at, text_eq_iff symbol symbol)
  release_answered-own symbol (raise e) r m at =
      runtime_at-adjust symbol symbol _ m ∙ ground (arith, at, text_eq_iff symbol symbol)

  -- What a round leaves of a runtime whose grace period is over
  abbrev pub Ended : Text → SymbolRuntime T → Result (Unit {0}) → SymbolRuntimeManager T → Type 0
  Ended symbol r answer m = runtime_at symbol m ≡ elim answer [
    | ok _ ↦ none
    | raise e ↦ some (degrade_for (codes "realtime_release_failed: " ++ e.message) r)
  ]

  evict_released-Ended :
      (symbol : Text) (r : SymbolRuntime T) (answer : Result (Unit {0})) (x : Machine T W)
      → runtime_at symbol x.manager
        ≡ some (elim answer [
          | ok _ ↦ record r { realtime_attached = false }
          | raise e ↦ degrade_for (codes "realtime_release_failed: " ++ e.message) r
        ])
      → is_unreferenced r ≡ true
      → Ended symbol r answer (evict_released py hooks symbol x).1.manager
  unfolding evict_released go_on delete degrade_for
  evict_released-Ended symbol r (ok _) x at h =
      ground (arith, at, h, text_eq_iff symbol symbol, get-remove x.manager.runtimes symbol symbol)
  evict_released-Ended symbol r (raise e) x at h = ground (arith, at)

  -- A runtime that has had no subscribers for the grace period, and whose realtime is attached: if the hook
  -- releases it, its round removes it; if the hook raises, the runtime stays, degraded for that reason.
  pub evict_round-Ended :
      (symbol : Text) (r : SymbolRuntime T) (hook : Text → W → Result (Unit {0}) × W)
      (x : Machine T W)
      → runtime_at symbol x.manager ≡ some r
      → hooks.release_symbol ≡ some hook
      → r.realtime_attached ≡ true
      → is_unreferenced r ≡ true
      → candidate_of hooks.expired (hooks.now x.world) r ≡ due
      → Ended symbol r (hook symbol x.world).0 (evict_round py hooks symbol x).1.manager
  unfolding evict_round evict_candidate release_realtime
  evict_round-Ended symbol r hook x at has attached unreferenced is_due = ground (
    arith,
    at,
    is_due,
    has,
    attached,
    evict_released-Ended symbol r (hook symbol x.world).0
        (record {
          manager = release_answered py hooks symbol (hook symbol x.world).0 x.manager;
          world = (hook symbol x.world).1;
        })
        (release_answered-own symbol (hook symbol x.world).0 r x.manager at) unreferenced,
  )

  -- The runtime of a symbol after `detach` takes its last subscriber
  detached-evicting :
      (symbol subscriber : Text) (r : SymbolRuntime T) (now : T) (m : SymbolRuntimeManager T)
      → runtime_at symbol m ≡ some r
      → no_texts (discard subscriber r.subscribers) ≡ true
      → is_cold r.state ≡ false
      → runtime_at symbol (
          adjust symbol (start_eviction now) (
            adjust symbol
              (λ s. record s { subscribers = discard subscriber s.subscribers })
              (present symbol m)))
        ≡ some (record r {
          subscribers = discard subscriber r.subscribers;
          state = evicting;
          eviction_started_at = some now;
        })
  unfolding present set_default start_eviction
  detached-evicting symbol subscriber r now m at last warm =
      runtime_at-adjust symbol symbol (start_eviction now) _
      ∙ ground (
        arith,
        at,
        last,
        warm,
        text_eq_iff symbol symbol,
        runtime_at-adjust symbol symbol
            (λ s. record s { subscribers = discard subscriber s.subscribers }) m,
      )

  -- A write of the state that fails
  failed_write-degraded :
      (symbol : Text) (payload : RuntimeStatePayload T) (r : SymbolRuntime T) (e : Error) (w : W)
      (x : Machine T W)
      → runtime_at symbol x.manager ≡ some r
      → runtime_at symbol (after_write py hooks (note_state_failure symbol) (raise e, w) x).manager
        ≡ some (degrade_for (codes "runtime_state_sink_write_failed: " ++ e.message) r)
  unfolding note_state_failure
  failed_write-degraded symbol payload r e w x at =
      runtime_at-adjust symbol symbol _ _ ∙ ground (arith, at, text_eq_iff symbol symbol)

  -- A runtime after its last subscriber has left and its state could not be written
  abbrev pub unwritten : Text → T → Error → SymbolRuntime T → SymbolRuntime T
  unwritten subscriber now e r =
      degrade_for (codes "runtime_state_sink_write_failed: " ++ e.message) (record r {
        subscribers = discard subscriber r.subscribers;
        state = evicting;
        eviction_started_at = some now;
      })

  detach-unwritten :
      (symbol subscriber : Text) (r : SymbolRuntime T)
      (sink : Text → RuntimeStatePayload T → W → Result (Unit {0}) × W) (e : Error)
      (x : Machine T W)
      → runtime_at symbol x.manager ≡ some r
      → no_texts (discard subscriber r.subscribers) ≡ true
      → is_cold r.state ≡ false
      → hooks.state_sink ≡ some sink
      → ((p : RuntimeStatePayload T) (w : W) → (sink symbol p w).0 ≡ raise e)
      → runtime_at symbol (detach py hooks symbol subscriber x).manager
        ≡ some (unwritten subscriber (hooks.now x.world) e r)
  unfolding detach flush_runtime_state publish_state runtime_state_payload
  detach-unwritten symbol subscriber r sink e x at last warm has fails =
      let m = adjust symbol (start_eviction (hooks.now x.world)) (
        adjust symbol (λ s. record s { subscribers = discard subscriber s.subscribers })
          (present symbol x.manager)) in
      let r' : SymbolRuntime T = record r {
        subscribers = discard subscriber r.subscribers;
        state = evicting;
        eviction_started_at = some (hooks.now x.world);
      } in
      let payload =
        runtime_state_payload_locked py hooks.trade_date (hooks.now_iso x.world)
          m.capacity_rejections r' in
      ground (
        arith,
        has,
        fails payload x.world,
        detached-evicting symbol subscriber r (hooks.now x.world) x.manager at last warm,
        failed_write-degraded symbol payload r' e (sink symbol payload x.world).1
            (record { manager = m; world = x.world })
            (detached-evicting symbol subscriber r (hooks.now x.world) x.manager at last warm),
      )

  unwritten-referenced :
      (subscriber : Text) (now : T) (e : Error) (r : SymbolRuntime T)
      → is_unreferenced (unwritten subscriber now e r) ≡ false
  unfolding degrade_for
  unwritten-referenced subscriber now e r = refl

  -- The last subscriber leaves a runtime that has been hydrated, and the sink of states raises, as it always does. Then
  -- the runtime is degraded, not to be evicted, and an `evict_expired` right after the detach, at any later time, keeps
  -- it as it is.
  pub detach-stuck :
      (symbol subscriber : Text) (r : SymbolRuntime T)
      (sink : Text → RuntimeStatePayload T → W → Result (Unit {0}) × W) (e : Error)
      (x : Machine T W) (later : W)
      → runtime_at symbol x.manager ≡ some r
      → no_texts (discard subscriber r.subscribers) ≡ true
      → is_cold r.state ≡ false
      → hooks.state_sink ≡ some sink
      → ((p : RuntimeStatePayload T) (w : W) → (sink symbol p w).0 ≡ raise e)
      → let left = unwritten subscriber (hooks.now x.world) e r in
        let y = detach py hooks symbol subscriber x in
        (runtime_at symbol y.manager ≡ some left)
        × (runtime_at symbol (evict_expired py hooks (record y { world = later })).1.manager
            ≡ some left)
  detach-stuck symbol subscriber r sink e x later at last warm has fails =
      let detached = detach-unwritten symbol subscriber r sink e x at last warm has fails in
      (
        detached,
        evict_expired-kept py hooks symbol _ _ detached
            (unwritten-referenced subscriber (hooks.now x.world) e r),
      )
