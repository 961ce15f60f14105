-- ===== src/Runtime/Frame.antt =====
-- What the actions of a manager leave as it is: the subscribers of every symbol, but for what the action does to its own.
use lynx_monitor.Prelude.{
  Text, Option, none, some, List, [], ◌∷◌, ◌≡◌, refl, ◌∙◌, if◌then◌else◌, text_eq_iff,
  text_equality, Result, ok, raise, Error, inl, inr, arith, Option-cases, ◌==◌,
}
use lynx_monitor.Prelude.Dict.{set_default, get-put}
use lynx_monitor.Value.{Fields}
use lynx_monitor.Contracts.{Python}
use lynx_monitor.Runtime.{
  SymbolRuntime, new_runtime, RuntimeStatePayload, sync_degraded_from, sync_degraded_from_snapshot,
}
use lynx_monitor.Runtime.Manager.{
  SymbolRuntimeManager, Hooks, Machine, adjust, after_write, runtime_at, degrade_for,
  note_state_failure, note_snapshot_failure, publish_state, publish_snapshot, flush_runtime_state,
}
use lynx_monitor.Runtime.Lifecycle.{
  present, subscribers_at, publish_both, deactivate_symbol, start_eviction,
  deactivate_pool_evictions,
}

abbrev pub mapped : {A B : Type 0} → (A → B) → Option A → Option B
mapped f none = none
mapped f (some a) = some (f a)

module _ {T : Type 0} where
  pub runtime_at-adjust :
      (symbol other : Text) (f : SymbolRuntime T → SymbolRuntime T) (m : SymbolRuntimeManager T)
      → runtime_at other (adjust symbol f m)
        ≡ (if symbol == other then mapped f (runtime_at other m) else runtime_at other m)
  unfolding adjust
  runtime_at-adjust symbol other f m = elim (Option-cases (runtime_at symbol m)) [
    | inl e ↦ ground (arith, e, text_eq_iff symbol other)
    | inr (r, e) ↦
        ground (arith, e, text_eq_iff symbol other, get-put m.runtimes symbol other (f r))
  ]

  pub runtime_at-present :
      (symbol other : Text) (m : SymbolRuntimeManager T)
      → subscribers_at other (present symbol m) ≡ subscribers_at other m
  unfolding present set_default
  runtime_at-present symbol other m = elim (Option-cases (runtime_at symbol m)) [
    | inl e ↦
        ground
          (arith, e, text_eq_iff symbol other, get-put m.runtimes symbol other (new_runtime symbol))
    | inr (r, e) ↦ ground (arith, e)
  ]

  -- A change that keeps the subscribers of a runtime keeps those of all.
  pub subscribers_at-adjust :
      (symbol other : Text) (f : SymbolRuntime T → SymbolRuntime T) (m : SymbolRuntimeManager T)
      → ((r : SymbolRuntime T) → (f r).subscribers ≡ r.subscribers)
      → subscribers_at other (adjust symbol f m) ≡ subscribers_at other m
  subscribers_at-adjust symbol other f m keeps = elim (Option-cases (runtime_at other m)) [
    | inl e ↦ ground (arith, e, runtime_at-adjust symbol other f m)
    | inr (r, e) ↦ ground (arith, e, runtime_at-adjust symbol other f m, keeps r)
  ]

  pub sync_degraded-subscribers :
      (py : Python) (r : SymbolRuntime T)
      → (sync_degraded_from_snapshot py r).subscribers ≡ r.subscribers
  unfolding sync_degraded_from_snapshot sync_degraded_from
  sync_degraded-subscribers py r = ground arith

  note_state_failure-subscribers :
      (symbol other : Text) (e : Error) (m : SymbolRuntimeManager T)
      → subscribers_at other (note_state_failure symbol e m) ≡ subscribers_at other m
  unfolding note_state_failure degrade_for
  note_state_failure-subscribers symbol other e m =
      subscribers_at-adjust symbol other _ _ (λ r. refl)

  note_snapshot_failure-subscribers :
      (symbol other : Text) (e : Error) (m : SymbolRuntimeManager T)
      → subscribers_at other (note_snapshot_failure symbol e m) ≡ subscribers_at other m
  unfolding note_snapshot_failure degrade_for
  note_snapshot_failure-subscribers symbol other e m =
      subscribers_at-adjust symbol other _ _ (λ r. refl)

-- A write, which cannot raise, that keeps the subscribers of every symbol
abbrev pub Quiet : {T W : Type 0} → (Machine T W → Machine T W) → Type 0
Quiet f =
    (other : Text) (x : Machine _ _)
    → subscribers_at other (f x).manager ≡ subscribers_at other x.manager

module _ {T W M : Type 0} (py : Python) (hooks : Hooks T W M) where
  after_write-subscribers :
      (note : Error → SymbolRuntimeManager T → SymbolRuntimeManager T) (other : Text)
      → ((e : Error) (m : SymbolRuntimeManager T)
          → subscribers_at other (note e m) ≡ subscribers_at other m)
      → (r : Result (Unit {0}) × W) (x : Machine T W)
      → subscribers_at other (after_write py hooks note r x).manager
        ≡ subscribers_at other x.manager
  after_write-subscribers note other h (ok _, w) x = refl
  after_write-subscribers note other h (raise e, w) x = h e x.manager

  pub publish_state-Quiet :
      (symbol : Text) (payload : Option (RuntimeStatePayload T))
      → Quiet (publish_state py hooks symbol payload)
  unfolding publish_state
  publish_state-Quiet symbol payload other x = elim (Option-cases (hooks.state_sink)) [
    | inl e ↦ ground (arith, e)
    | inr (sink, e) ↦ elim (Option-cases payload) [
      | inl n ↦ ground (arith, e, n)
      | inr (p, n) ↦ ground (
        arith,
        e,
        n,
        after_write-subscribers (note_state_failure symbol) other
            (note_state_failure-subscribers symbol other) (sink symbol p x.world) x,
      )
    ]
  ]

  pub publish_snapshot-Quiet :
      (symbol : Text) (payload : Option Fields) → Quiet (publish_snapshot py hooks symbol payload)
  unfolding publish_snapshot
  publish_snapshot-Quiet symbol payload other x = elim (Option-cases (hooks.snapshot_sink)) [
    | inl e ↦ ground (arith, e)
    | inr (sink, e) ↦ elim (Option-cases payload) [
      | inl n ↦ ground (arith, e, n)
      | inr (p, n) ↦ ground (
        arith,
        e,
        n,
        after_write-subscribers (note_snapshot_failure symbol) other
            (note_snapshot_failure-subscribers symbol other) (sink symbol p x.world) x,
      )
    ]
  ]

  pub flush-Quiet : (symbol : Text) → Quiet (flush_runtime_state py hooks symbol)
  unfolding flush_runtime_state
  flush-Quiet symbol other x = publish_state-Quiet symbol _ other x

  pub publish_both-Quiet : (symbol : Text) → Quiet (publish_both py hooks symbol)
  unfolding publish_both
  publish_both-Quiet symbol other x =
      publish_snapshot-Quiet symbol _ other _ ∙ flush-Quiet symbol other x

  deactivate-Quiet : (symbol : Text) → Quiet (deactivate_symbol py hooks symbol)
  unfolding deactivate_symbol start_eviction
  deactivate-Quiet symbol other x =
      flush-Quiet symbol other _
      ∙ subscribers_at-adjust symbol other (start_eviction (hooks.now x.world)) x.manager
          (λ r. ground arith)

  pub deactivate_pool_evictions-Quiet :
      (ss : List Text) → Quiet (deactivate_pool_evictions py hooks ss)
  unfolding deactivate_pool_evictions
  deactivate_pool_evictions-Quiet [] other x = refl
  deactivate_pool_evictions-Quiet (s ∷ ss) other x =
      deactivate_pool_evictions-Quiet ss other _ ∙ deactivate-Quiet s other x
