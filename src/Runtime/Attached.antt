-- ===== src/Runtime/Attached.antt =====
-- Who subscribes to a symbol after `attach` and `detach`.
use lynx_monitor.Prelude.{
  Text, Bool, true, false, List, [], ◌∷◌, ◌++◌, ◌≡◌, refl, ◌∙◌, if◌then◌else◌, text_eq_iff,
  text_equality, ◌==◌, Result, ok, raise, inl, inr, arith, Option-cases, Bool-cases,
}
use lynx_monitor.Prelude.Dict.{set_default, get-put}
use lynx_monitor.Contracts.{Python}
use lynx_monitor.Pool.{contains, add_once}
use lynx_monitor.Runtime.{SymbolRuntime, new_runtime, no_texts}
use lynx_monitor.Runtime.Manager.{
  SymbolRuntimeManager, Hooks, Machine, adjust, runtime_at, snapshot_payload,
}
use lynx_monitor.Runtime.Action.{done, go_on, change, undone}
use lynx_monitor.Runtime.Hydrate.{ensure_hydrated}
use lynx_monitor.Runtime.Lifecycle.{
  attach_end, attach_answer, attach_hydrated, discard, subscribe_to, present, subscribers_at, wake,
  settle_hydrating, leave, attach_realtime, snapshot_message, attach_attempt, attach_failed,
  attach_noted, attach,
}
use lynx_monitor.Runtime.Frame.{
  runtime_at-adjust, subscribers_at-adjust, flush-Quiet, publish_both-Quiet,
  deactivate_pool_evictions-Quiet,
}
use lynx_monitor.Runtime.Kept.{Keeps, go_on-Keeps, attach_realtime-Keeps, ensure_hydrated-Keeps}

discard-absent : (s : Text) (ts : List Text) → contains ts s ≡ false → discard s ts ≡ ts
discard-absent s [] h = refl
discard-absent s (t ∷ ts) h = ground (arith, discard-absent s ts)

discard-added : (s : Text) (ts : List Text) → contains ts s ≡ false → discard s (ts ++ s ∷ []) ≡ ts
discard-added s [] h = ground (arith, text_eq_iff s s)
discard-added s (t ∷ ts) h = ground (arith, discard-added s ts)

-- A subscriber added and discarded again
discard-add_once :
    (s : Text) (ts : List Text) → contains ts s ≡ false → discard s (add_once ts s) ≡ ts
unfolding add_once
discard-add_once s ts h = ground (arith, discard-added s ts)

module _ {T : Type 0} where
  subscribers_at-through :
      (symbol other : Text) (f : SymbolRuntime T → SymbolRuntime T) (g : List Text → List Text)
      (m : SymbolRuntimeManager T)
      → ((r : SymbolRuntime T) → (f r).subscribers ≡ g r.subscribers)
      → g [] ≡ []
      → subscribers_at other (adjust symbol f m)
        ≡ (if symbol == other then g (subscribers_at other m) else subscribers_at other m)
  subscribers_at-through symbol other f g m h none_left = elim (Option-cases (runtime_at other m)) [
    | inl e ↦ ground (arith, e, runtime_at-adjust symbol other f m)
    | inr (r, e) ↦ ground (arith, e, runtime_at-adjust symbol other f m, h r)
  ]

  leave-subscribers :
      (s : Text) (now : T) (r : SymbolRuntime T)
      → (leave s now r).subscribers ≡ discard s r.subscribers
  unfolding leave
  leave-subscribers s now r = ground arith

  -- The first block of `attach`
  entered-subscribers :
      (symbol subscriber other : Text) (m : SymbolRuntimeManager T)
      → subscribers_at other (adjust symbol (subscribe_to subscriber) (present symbol m)) ≡ (
          if symbol == other
          then add_once (subscribers_at other m) subscriber
          else subscribers_at other m)
  unfolding present set_default subscribe_to
  entered-subscribers symbol subscriber other m = elim (Option-cases (runtime_at symbol m)) [
    | inl e ↦ ground (
      arith,
      e,
      text_eq_iff symbol other,
      runtime_at-adjust symbol other (subscribe_to subscriber) (present symbol m),
      get-put m.runtimes symbol other (new_runtime symbol),
    )
    | inr (r, e) ↦ elim (Bool-cases (symbol == other)) [
      | inl s ↦ ground (
        arith,
        e,
        s,
        text_eq_iff symbol other,
        runtime_at-adjust symbol other (subscribe_to subscriber) m,
      )
      | inr s ↦ ground (arith, e, s, runtime_at-adjust symbol other (subscribe_to subscriber) m)
    ]
  ]

  wake-subscribers : (r : SymbolRuntime T) → (wake r).subscribers ≡ r.subscribers
  unfolding wake
  wake-subscribers r = ground arith

  settle-subscribers : (r : SymbolRuntime T) → (settle_hydrating r).subscribers ≡ r.subscribers
  unfolding settle_hydrating
  settle-subscribers r = ground arith

module _ {T W M : Type 0} (py : Python) (hooks : Hooks T W M) where
  realtime-Keeps :
      (symbol : Text) (b : Bool)
      → Keeps (if b then attach_realtime py hooks symbol false else done tt)
  realtime-Keeps symbol true = attach_realtime-Keeps py hooks symbol false
  realtime-Keeps symbol false = λ other x. refl

  snapshot_message-Keeps : (symbol : Text) → Keeps (snapshot_message py hooks symbol)
  unfolding snapshot_message
  snapshot_message-Keeps symbol other x = elim (Option-cases (snapshot_payload py hooks symbol x)) [
    | inl e ↦ ground (arith, e)
    | inr (p, e) ↦ ground (arith, e)
  ]

  attach_end-Keeps :
      (symbol : Text) (evictions : List Text) (snapshot : M)
      → Keeps (attach_end py hooks symbol evictions snapshot)
  unfolding attach_end go_on
  attach_end-Keeps symbol evictions snapshot other x =
      deactivate_pool_evictions-Quiet py hooks evictions other _
      ∙ publish_both-Quiet py hooks symbol other _
      ∙ subscribers_at-adjust symbol other settle_hydrating x.manager settle-subscribers

  attach_answer-Keeps :
      (symbol : Text) (evictions : List Text) (answer : Unit {0})
      → Keeps (attach_answer py hooks symbol evictions answer)
  unfolding attach_answer
  attach_answer-Keeps symbol evictions answer other x =
      go_on-Keeps other (attach_end py hooks symbol evictions) (attach_end-Keeps symbol evictions)
        (snapshot_message py hooks symbol x) x (snapshot_message-Keeps symbol other x)

  attach_hydrated-Keeps :
      (symbol : Text) (was_unreferenced : Bool) (evictions : List Text) (hydrated : Unit {0})
      → Keeps (attach_hydrated py hooks symbol was_unreferenced evictions hydrated)
  unfolding attach_hydrated go_on
  attach_hydrated-Keeps symbol was_unreferenced evictions hydrated other x =
      let woken = (change symbol wake x).1 in
      go_on-Keeps other (attach_answer py hooks symbol evictions)
        (attach_answer-Keeps symbol evictions)
        ((if was_unreferenced then attach_realtime py hooks symbol false else done tt) woken) woken
        (realtime-Keeps symbol was_unreferenced other woken)
      ∙ subscribers_at-adjust symbol other wake x.manager wake-subscribers

  attach_attempt-Keeps :
      (symbol : Text) (was_unreferenced : Bool) (evictions : List Text)
      → Keeps (attach_attempt py hooks symbol was_unreferenced evictions)
  unfolding attach_attempt
  attach_attempt-Keeps symbol was_unreferenced evictions other x =
      go_on-Keeps other (attach_hydrated py hooks symbol was_unreferenced evictions)
        (attach_hydrated-Keeps symbol was_unreferenced evictions)
        (ensure_hydrated py hooks symbol x) x (ensure_hydrated-Keeps py hooks symbol other x)

  attach_failed-subscribers :
      (symbol subscriber other : Text) (was_subscribed : Bool) (x : Machine T W)
      → subscribers_at other (attach_failed py hooks symbol subscriber was_subscribed x).1.manager
        ≡ (if was_subscribed
            then subscribers_at other x.manager
            else if symbol == other
            then discard subscriber (subscribers_at other x.manager)
            else subscribers_at other x.manager)
  unfolding attach_failed go_on
  attach_failed-subscribers symbol subscriber other true x = flush-Quiet py hooks symbol other x
  attach_failed-subscribers symbol subscriber other false x =
      flush-Quiet py hooks symbol other _
      ∙ subscribers_at-through symbol other _ (discard subscriber) x.manager
          (leave-subscribers subscriber (hooks.now x.world)) refl

  -- The subscribers of a symbol after `attach`, which returned or raised
  abbrev pub Subscribed :
      (symbol subscriber other : Text) → Machine T W → Result M × Machine T W → Type 0
  Subscribed symbol subscriber other x (result, y) =
      let before = subscribers_at other x.manager in
      subscribers_at other y.manager ≡ elim result [
        | ok _ ↦ if symbol == other then add_once before subscriber else before
        | raise _ ↦ before
      ]

  undone-Subscribed :
      (symbol subscriber other : Text) (x : Machine T W) (r : Result M × Machine T W)
      → subscribers_at other r.1.manager ≡ (
          if symbol == other
          then add_once (subscribers_at other x.manager) subscriber
          else subscribers_at other x.manager)
      → Subscribed symbol subscriber other x (
          undone
            (attach_failed py hooks symbol subscriber
              (contains (subscribers_at symbol x.manager) subscriber))
            r)
  unfolding add_once
  undone-Subscribed symbol subscriber other x (ok message, y) h = h
  undone-Subscribed symbol subscriber other x (raise e, y) h = ground (
    arith,
    h,
    text_eq_iff symbol other,
    attach_failed-subscribers symbol subscriber other
        (contains (subscribers_at symbol x.manager) subscriber) y,
    discard-add_once subscriber (subscribers_at other x.manager),
  )

  attach_noted-Subscribed :
      (symbol subscriber other : Text) (evictions : List Text) (x : Machine T W)
      → Subscribed symbol subscriber other x (attach_noted py hooks symbol subscriber evictions x)
  unfolding attach_noted
  attach_noted-Subscribed symbol subscriber other evictions x =
      undone-Subscribed symbol subscriber other x _ (
        attach_attempt-Keeps symbol (no_texts (subscribers_at symbol x.manager)) evictions other _
        ∙ entered-subscribers symbol subscriber other x.manager)

  noted-Subscribed :
      (symbol subscriber other : Text) (x : Machine T W) (r : Result (List Text) × W)
      → Subscribed symbol subscriber other x (
          go_on
            (attach_noted py hooks symbol subscriber)
            (r.0, record { manager = x.manager; world = r.1 }))
  unfolding go_on
  noted-Subscribed symbol subscriber other x (ok evictions, w) =
      attach_noted-Subscribed symbol subscriber other evictions (record x { world = w })
  noted-Subscribed symbol subscriber other x (raise e, w) = refl

  -- An `attach` that returns has added its subscriber to the subscribers of its symbol, once; one that raises
  -- leaves them as they were, at whatever call of a hook it failed. The subscribers of the other symbols stay.
  pub attach-Subscribed :
      (symbol subscriber other : Text) (x : Machine T W)
      → Subscribed symbol subscriber other x (attach py hooks symbol subscriber x)
  unfolding attach
  attach-Subscribed symbol subscriber other x =
      noted-Subscribed symbol subscriber other x (hooks.note_query symbol x.world)
