-- ===== src/Runtime/Lifecycle.antt =====
-- backend/beast_market/symbol_runtime.py: the subscriptions of a runtime, from `attach` to `evict_expired`.
use lynx_monitor.Prelude.{
  Text, Bool, true, false, not, ◌&&◌, Option, none, some, List, [], ◌∷◌, ◌++◌, select,
  if◌then◌else◌, codes, text_eq, text_equality, Result, ok, raise,
}
use lynx_monitor.Prelude.Dict.{set_default}
use lynx_monitor.Value.{Fields}
use lynx_monitor.Contracts.{Python}
use lynx_monitor.Pool.{contains, add_once}
use lynx_monitor.Runtime.{
  SymbolRuntime, new_runtime, warm, live, evicting, is_cold, is_hydrating, is_evicting, no_texts,
  is_present, sync_degraded_from_snapshot,
}
use lynx_monitor.Runtime.Manager.{
  SymbolRuntimeManager, Hooks, Machine, adjust, runtime_at, degrade_for, publish_snapshot,
  snapshot_payload, flush_runtime_state,
}
use lynx_monitor.Runtime.Action.{Action, go_on, ◌>>=◌, done, ask, write, block, change, or_else}
use lynx_monitor.Runtime.Hydrate.{ensure_hydrated}

-- subscribers.discard(subscriber_id)
abbrev pub discard : Text → List Text → List Text
discard s ts = select (λ t. not (text_eq t s)) ts

module _ {T : Type 0} where
  unfoldable pub subscribe_to : Text → SymbolRuntime T → SymbolRuntime T
  unfolding add_once
  subscribe_to subscriber r = record r { subscribers = add_once r.subscribers subscriber }

  -- if runtime.state == EVICTING: …
  unfoldable pub wake : SymbolRuntime T → SymbolRuntime T
  wake r = if is_evicting r.state then record r { state = warm; eviction_started_at = none } else r

  unfoldable pub settle_hydrating : SymbolRuntime T → SymbolRuntime T
  settle_hydrating r = if is_hydrating r.state then record r { state = warm } else r

  unfoldable pub leave : Text → T → SymbolRuntime T → SymbolRuntime T
  unfolding text_eq
  leave subscriber now r =
      let subscribers = discard subscriber r.subscribers in
      let r' : SymbolRuntime T = record r { subscribers = subscribers } in
      if no_texts subscribers then record r' { eviction_started_at = some now } else r'

  -- if runtime.ref_count == 0 and runtime.state != COLD: …
  unfoldable pub start_eviction : T → SymbolRuntime T → SymbolRuntime T
  start_eviction now r =
      if no_texts r.subscribers && not (is_cold r.state)
      then record r { state = evicting; eviction_started_at = some now }
      else r

  unfoldable pub realtime_attached_to : SymbolRuntime T → SymbolRuntime T
  realtime_attached_to r =
      let r' : SymbolRuntime T = record r { realtime_attached = true } in
      if no_texts r.degraded_reasons then record r' { state = live } else r'

  -- self.runtimes.setdefault(symbol, SymbolRuntime(symbol=symbol))
  unfoldable pub present : Text → SymbolRuntimeManager T → SymbolRuntimeManager T
  unfolding set_default
  present symbol m = record m { runtimes = set_default m.runtimes symbol (new_runtime symbol) }

  abbrev pub is_attached : Option (SymbolRuntime T) → Bool
  is_attached none = false
  is_attached (some r) = r.realtime_attached

  abbrev pub subscribers_in : Option (SymbolRuntime T) → List Text
  subscribers_in none = []
  subscribers_in (some r) = r.subscribers

  abbrev pub subscribers_at : Text → SymbolRuntimeManager T → List Text
  subscribers_at symbol m = subscribers_in (runtime_at symbol m)

module _ {T W M : Type 0} (py : Python) (hooks : Hooks T W M) where
  -- What `_attach_realtime` does with the answer of the hook.
  abbrev pub realtime_answered : Text → Bool → Result Bool → Action T W (Unit {0})
  realtime_answered symbol strict (ok attached) x =
      if attached then change symbol realtime_attached_to x else (ok tt, x)
  realtime_answered symbol strict (raise e) x =
      let x' : Machine T W = record x {
        manager =
            adjust symbol (degrade_for (codes "realtime_attach_failed: " ++ e.message)) x.manager;
      } in
      (if strict then raise e else ok tt, x')

  -- `_attach_realtime`; the hook's answer is false where it returns False
  unfoldable pub attach_realtime : Text → Bool → Action T W (Unit {0})
  unfolding adjust realtime_attached_to degrade_for
  attach_realtime symbol strict x = elim (hooks.attach_realtime) [
    | none ↦ (ok tt, x)
    | some hook ↦
        if is_attached (runtime_at symbol x.manager)
        then (ok tt, x)
        else let (answer, world) = hook symbol x.world in
          realtime_answered symbol strict answer (record x { world = world })
  ]

  abbrev pub release_answered :
      Text → Result (Unit {0}) → SymbolRuntimeManager T → SymbolRuntimeManager T
  release_answered symbol (ok _) m = adjust symbol (λ r. record r { realtime_attached = false }) m
  release_answered symbol (raise e) m =
      adjust symbol (degrade_for (codes "realtime_release_failed: " ++ e.message)) m

  -- `_release_realtime`
  unfoldable pub release_realtime : Text → Machine T W → Machine T W
  unfolding adjust degrade_for
  release_realtime symbol x = elim (hooks.release_symbol) [
    | none ↦ x
    | some hook ↦
        if is_attached (runtime_at symbol x.manager)
        then (let (answer, world) = hook symbol x.world in
            record { manager = release_answered symbol answer x.manager; world = world })
        else x
  ]

  -- `_snapshot_message`
  unfoldable pub snapshot_message : Text → Action T W M
  unfolding snapshot_payload
  snapshot_message symbol x = elim (snapshot_payload py hooks symbol x) [
    | some payload ↦ ask (hooks.snapshot_message symbol payload) x
    | none ↦ ask (hooks.subscribe symbol hooks.trade_date) x
  ]

  unfoldable pub publish_both : Text → Machine T W → Machine T W
  unfolding publish_snapshot flush_runtime_state snapshot_payload
  publish_both symbol x =
      publish_snapshot py hooks symbol (snapshot_payload py hooks symbol x)
        (flush_runtime_state py hooks symbol x)

  unfoldable pub deactivate_symbol : Text → Machine T W → Machine T W
  unfolding adjust start_eviction flush_runtime_state
  deactivate_symbol symbol x =
      let x' : Machine T W = record x {
        manager = adjust symbol (start_eviction (hooks.now x.world)) x.manager;
      } in
      flush_runtime_state py hooks symbol x'

  -- `_deactivate_pool_evictions`
  unfoldable pub deactivate_pool_evictions : List Text → Machine T W → Machine T W
  unfolding deactivate_symbol
  deactivate_pool_evictions [] x = x
  deactivate_pool_evictions (s ∷ ss) x = deactivate_pool_evictions ss (deactivate_symbol s x)

  -- The `try` of `attach`, from the last block to its first
  unfoldable pub attach_end : Text → List Text → M → Action T W M
  unfolding go_on adjust settle_hydrating publish_both deactivate_pool_evictions
  attach_end symbol pool_evictions snapshot = do
    _ ← change symbol settle_hydrating
    _ ← write (publish_both symbol)
    _ ← write (deactivate_pool_evictions pool_evictions)
    done snapshot

  unfoldable pub attach_answer : Text → List Text → Unit {0} → Action T W M
  unfolding go_on snapshot_message attach_end
  attach_answer symbol pool_evictions _ = do
    snapshot ← snapshot_message symbol
    attach_end symbol pool_evictions snapshot

  unfoldable pub attach_hydrated : Text → Bool → List Text → Unit {0} → Action T W M
  unfolding go_on adjust wake attach_realtime attach_answer
  attach_hydrated symbol was_unreferenced pool_evictions _ = do
    _ ← change symbol wake
    answer ← if was_unreferenced then attach_realtime symbol false else done tt
    attach_answer symbol pool_evictions answer

  unfoldable pub attach_attempt : Text → Bool → List Text → Action T W M
  unfolding go_on ensure_hydrated attach_hydrated
  attach_attempt symbol was_unreferenced pool_evictions = do
    hydrated ← ensure_hydrated py hooks symbol
    attach_hydrated symbol was_unreferenced pool_evictions hydrated

  -- The `except` of `attach`
  unfoldable pub attach_failed : Text → Text → Bool → Action T W (Unit {0})
  unfolding go_on adjust leave flush_runtime_state
  attach_failed symbol subscriber was_subscribed = do
    _ ← block (λ x.
        if was_subscribed
        then x.manager
        else adjust symbol (leave subscriber (hooks.now x.world)) x.manager)
    write (flush_runtime_state py hooks symbol)

  -- `attach` after the note of the query
  unfoldable pub attach_noted : Text → Text → List Text → Action T W M
  unfolding present subscribe_to attach_attempt attach_failed
  attach_noted symbol subscriber pool_evictions x =
      let before = subscribers_at symbol x.manager in
      let entered : Machine T W = record x {
        manager = adjust symbol (subscribe_to subscriber) (present symbol x.manager);
      } in
      or_else (attach_attempt symbol (no_texts before) pool_evictions)
        (attach_failed symbol subscriber (contains before subscriber)) entered

  unfoldable pub attach : Text → Text → Action T W M
  unfolding go_on attach_noted
  attach symbol subscriber = do
    pool_evictions ← ask (hooks.note_query symbol)
    attach_noted symbol subscriber pool_evictions

  unfoldable pub detach : Text → Text → Machine T W → Machine T W
  unfolding present adjust start_eviction flush_runtime_state
  detach symbol subscriber x =
      let m =
        adjust symbol (λ r. record r { subscribers = discard subscriber r.subscribers })
          (present symbol x.manager) in
      let m' = adjust symbol (start_eviction (hooks.now x.world)) m in
      flush_runtime_state py hooks symbol (record x { manager = m' })

  unfoldable pub activate_symbol : Text → Bool → Action T W (Unit {0})
  unfolding go_on present ensure_hydrated wake attach_realtime publish_both
  activate_symbol symbol strict_realtime = do
    _ ← block (λ x. present symbol x.manager)
    _ ← ensure_hydrated py hooks symbol
    _ ← change symbol wake
    _ ← attach_realtime symbol strict_realtime
    write (publish_both symbol)

  unfoldable pub seed_snapshot : Text → Fields → Machine T W → Machine T W
  unfolding present adjust sync_degraded_from_snapshot flush_runtime_state
  seed_snapshot symbol payload x =
      let seeded : SymbolRuntime T → SymbolRuntime T = λ r.
        sync_degraded_from_snapshot py (record r {
          snapshot_payload = some payload;
          state = if is_cold r.state then warm else r.state;
        }) in
      flush_runtime_state py hooks symbol
        (record x { manager = adjust symbol seeded (present symbol x.manager) })

  unfoldable pub can_retain : Option (SymbolRuntime T) → Bool
  can_retain none = false
  can_retain (some r) = is_present r.snapshot_payload && r.realtime_attached

  unfoldable pub retain_existing_runtime : Text → Text → Machine T W → Bool × Machine T W
  unfolding can_retain adjust subscribe_to flush_runtime_state
  retain_existing_runtime symbol subscriber x =
      let revived : SymbolRuntime T → SymbolRuntime T = λ r.
        if is_evicting r.state
        then record r {
          state = if r.realtime_attached then live else warm;
          eviction_started_at = none;
        }
        else r in
      if can_retain (runtime_at symbol x.manager)
      then (
        true,
        flush_runtime_state py hooks symbol (record x {
          manager = adjust symbol (λ r. revived (subscribe_to subscriber r)) x.manager;
        }),
      )
      else (false, x)
