-- ===== src/Runtime/Kept.antt =====
-- What hydration and the attachment of realtime keep: the subscribers of every symbol.
use lynx_monitor.Prelude.{
  ◌+◌, Text, Bool, Option, ◌∷◌, ◌≡◌, refl, ◌∙◌, text_equality, Result, ok, raise, inl, inr, arith,
  Option-cases,
}
use lynx_monitor.Value.{Fields}
use lynx_monitor.Contracts.{Python}
use lynx_monitor.Hydration.{HydrationKey}
use lynx_monitor.Runtime.{SymbolRuntime, hydrating, hydration_key}
use lynx_monitor.Runtime.Manager.{
  SymbolRuntimeManager, Hooks, Machine, runtime_at, degrade_for, flush_runtime_state,
}
use lynx_monitor.Runtime.Action.{Action, go_on, change}
use lynx_monitor.Runtime.Hydrate.{
  begin_hydration, over_capacity, finish_hydration, hydrated, hydrate_begun, hydrate_once,
  ensure_hydrated, hydrate_answered, Begun, waits, settled, rejected, started, capacity_reason,
}
use lynx_monitor.Runtime.Lifecycle.{
  subscribers_at, attach_realtime, realtime_answered, realtime_attached_to,
}
use lynx_monitor.Runtime.Frame.{subscribers_at-adjust, sync_degraded-subscribers, flush-Quiet}

-- An action that keeps the subscribers of every symbol, whether it returns or raises
abbrev pub Keeps : {T W A : Type 0} → Action T W A → Type 0
Keeps m =
    (other : Text) (x : Machine _ _)
    → subscribers_at other (m x).1.manager ≡ subscribers_at other x.manager

module _ {T W : Type 0} where
  pub go_on-Keeps :
      {A B : Type 0} (other : Text) (f : A → Action T W B)
      → ((a : A) → Keeps (f a))
      → (r : Result A × Machine T W) (x : Machine T W)
      → subscribers_at other r.1.manager ≡ subscribers_at other x.manager
      → subscribers_at other (go_on f r).1.manager ≡ subscribers_at other x.manager
  unfolding go_on
  go_on-Keeps other f h (ok a, y) x k = h a other y ∙ k
  go_on-Keeps other f h (raise e, y) x k = k

  pub change-Keeps :
      (symbol : Text) (f : SymbolRuntime T → SymbolRuntime T)
      → ((r : SymbolRuntime T) → (f r).subscribers ≡ r.subscribers)
      → Keeps {W = W} (change symbol f)
  change-Keeps symbol f h other x = subscribers_at-adjust symbol other f x.manager h

module _ {T W M : Type 0} (py : Python) (hooks : Hooks T W M) where
  realtime_answered-subscribers :
      (symbol other : Text) (strict : Bool) (answer : Result Bool) (x : Machine T W)
      → subscribers_at other (realtime_answered py hooks symbol strict answer x).1.manager
        ≡ subscribers_at other x.manager
  unfolding realtime_attached_to degrade_for
  realtime_answered-subscribers symbol other strict (ok attached) x =
      ground (
        arith,
        subscribers_at-adjust symbol other realtime_attached_to x.manager (λ r. ground arith),
      )
  realtime_answered-subscribers symbol other strict (raise e) x =
      subscribers_at-adjust symbol other _ x.manager (λ r. refl)

  pub attach_realtime-Keeps :
      (symbol : Text) (strict : Bool) → Keeps (attach_realtime py hooks symbol strict)
  unfolding attach_realtime
  attach_realtime-Keeps symbol strict other x = elim (Option-cases (hooks.attach_realtime)) [
    | inl e ↦ ground (arith, e)
    | inr (hook, e) ↦ ground (
      arith,
      e,
      realtime_answered-subscribers symbol other strict (hook symbol x.world).0
          (record x { world = (hook symbol x.world).1 }),
    )
  ]

  begin_hydration-subscribers :
      (key : HydrationKey) (reason trade_date timestamp other : Text) (r : SymbolRuntime T)
      (m : SymbolRuntimeManager T)
      → subscribers_at other (begin_hydration key reason trade_date timestamp r m).1
        ≡ subscribers_at other m
  unfolding begin_hydration over_capacity
  begin_hydration-subscribers key reason trade_date timestamp other r m = ground (
    arith,
    subscribers_at-adjust r.symbol other (over_capacity reason trade_date timestamp)
        (record m { capacity_rejections = m.capacity_rejections + 1 }) (λ s. refl),
    subscribers_at-adjust r.symbol other (λ s. record s { state = hydrating })
        (record m { hydrating = key ∷ m.hydrating; active_hydrations = m.active_hydrations + 1 })
        (λ s. refl),
  )

  hydrated-subscribers :
      (result : Result (Option Fields)) (r : SymbolRuntime T)
      → (hydrated py result r).subscribers ≡ r.subscribers
  unfolding hydrated
  hydrated-subscribers (ok payload) r = search sync_degraded-subscribers
  hydrated-subscribers (raise e) r = search sync_degraded-subscribers

  finish_hydration-subscribers :
      (key : HydrationKey) (symbol other : Text) (result : Result (Option Fields))
      (m : SymbolRuntimeManager T)
      → subscribers_at other (finish_hydration py key symbol result m) ≡ subscribers_at other m
  unfolding finish_hydration
  finish_hydration-subscribers key symbol other result m =
      subscribers_at-adjust symbol other (hydrated py result) m (hydrated-subscribers result)

  loaded-subscribers :
      (symbol other : Text) (r : Result (Option Fields)) (x : Machine T W)
      → subscribers_at other
          (hydrate_answered py hooks r (flush_runtime_state py hooks symbol x)).1.manager
        ≡ subscribers_at other x.manager
  loaded-subscribers symbol other (ok p) x = flush-Quiet py hooks symbol other x
  loaded-subscribers symbol other (raise e) x = flush-Quiet py hooks symbol other x

  hydrate_begun-Keeps :
      (key : HydrationKey) (symbol : Text) (begun : Begun)
      → Keeps (hydrate_begun py hooks key symbol begun)
  unfolding hydrate_begun
  hydrate_begun-Keeps key symbol waits other x = refl
  hydrate_begun-Keeps key symbol settled other x = refl
  hydrate_begun-Keeps key symbol rejected other x = flush-Quiet py hooks symbol other x
  hydrate_begun-Keeps key symbol started other x =
      loaded-subscribers symbol other (hooks.hydrate_symbol symbol x.world).0 _
      ∙ finish_hydration-subscribers key symbol other (hooks.hydrate_symbol symbol x.world).0
          x.manager

  pub ensure_hydrated-Keeps : (symbol : Text) → Keeps (ensure_hydrated py hooks symbol)
  unfolding ensure_hydrated hydrate_once
  ensure_hydrated-Keeps symbol other x = elim (Option-cases (runtime_at symbol x.manager)) [
    | inl e ↦ ground (arith, e)
    | inr (r, e) ↦ ground (
      arith,
      e,
      hydrate_begun-Keeps (hydration_key py hooks.trade_date r) r.symbol
          (begin_hydration (hydration_key py hooks.trade_date r)
            (capacity_reason py hooks x.manager) hooks.trade_date (hooks.now_iso x.world) r
            x.manager).0
          other
          (record x {
            manager =
                (begin_hydration (hydration_key py hooks.trade_date r)
                  (capacity_reason py hooks x.manager) hooks.trade_date (hooks.now_iso x.world) r
                  x.manager).1;
          }),
      begin_hydration-subscribers (hydration_key py hooks.trade_date r)
          (capacity_reason py hooks x.manager) hooks.trade_date (hooks.now_iso x.world) other r
          x.manager,
    )
  ]
