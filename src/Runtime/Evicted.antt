-- ===== src/Runtime/Evicted.antt =====
-- Which runtimes `evict_expired` removes.
use lynx_monitor.Prelude.{
  Text, Bool, false, some, List, [], ◌∷◌, ◌≡◌, refl, ap, ◌∙◌, text_eq_iff, text_equality, ◌==◌,
  Result, ok, raise, inl, inr, arith, Option-cases, Bool-cases, map,
}
use lynx_monitor.Prelude.Dict.{get-remove}
use lynx_monitor.Contracts.{Python}
use lynx_monitor.Runtime.{SymbolRuntime}
use lynx_monitor.Runtime.Manager.{SymbolRuntimeManager, Hooks, Machine, runtime_at}
use lynx_monitor.Runtime.Action.{go_on}
use lynx_monitor.Runtime.Lifecycle.{release_realtime, release_answered}
use lynx_monitor.Runtime.Eviction.{
  Candidate, retained, unstamped, due, is_unreferenced, candidate_of, delete, evict_released,
  evict_candidate, evict_round, evict_rounds, evict_expired, with_evicted, and_rounds,
}
use lynx_monitor.Runtime.Frame.{runtime_at-adjust}

module _ {T W M : Type 0} (py : Python) (hooks : Hooks T W M) where
  release_answered-others :
      (symbol other : Text) (answer : Result (Unit {0})) (m : SymbolRuntimeManager T)
      → (symbol == other) ≡ false
      → runtime_at other (release_answered py hooks symbol answer m) ≡ runtime_at other m
  release_answered-others symbol other (ok _) m h =
      ground
        (arith, h, runtime_at-adjust symbol other (λ r. record r { realtime_attached = false }) m)
  release_answered-others symbol other (raise e) m h =
      runtime_at-adjust symbol other _ m ∙ ground (arith, h)

  release_realtime-others :
      (symbol other : Text) (x : Machine T W)
      → (symbol == other) ≡ false
      → runtime_at other (release_realtime py hooks symbol x).manager ≡ runtime_at other x.manager
  unfolding release_realtime
  release_realtime-others symbol other x h = elim (Option-cases (hooks.release_symbol)) [
    | inl e ↦ ground (arith, e)
    | inr (hook, e) ↦
        ground (arith, e, release_answered-others symbol other (hook symbol x.world).0 x.manager h)
  ]

  evict_released-others :
      (symbol other : Text) (x : Machine T W)
      → (symbol == other) ≡ false
      → runtime_at other (evict_released py hooks symbol x).1.manager ≡ runtime_at other x.manager
  unfolding evict_released go_on delete
  evict_released-others symbol other x h = elim (Option-cases (runtime_at symbol x.manager)) [
    | inl e ↦ ground (arith, e)
    | inr (r, e) ↦ ground (arith, e, h, get-remove x.manager.runtimes symbol other)
  ]

  evict_candidate-others :
      (symbol other : Text) (c : Candidate) (x : Machine T W)
      → (symbol == other) ≡ false
      → runtime_at other (evict_candidate py hooks symbol c x).1.manager
        ≡ runtime_at other x.manager
  unfolding evict_candidate go_on
  evict_candidate-others symbol other retained x h = refl
  evict_candidate-others symbol other unstamped x h =
      runtime_at-adjust symbol other _ x.manager ∙ ground (arith, h)
  evict_candidate-others symbol other due x h =
      evict_released-others symbol other _ h ∙ release_realtime-others symbol other x h

  evict_round-others :
      (symbol other : Text) (x : Machine T W)
      → (symbol == other) ≡ false
      → runtime_at other (evict_round py hooks symbol x).1.manager ≡ runtime_at other x.manager
  unfolding evict_round
  evict_round-others symbol other x h = elim (Option-cases (runtime_at symbol x.manager)) [
    | inl e ↦ ground (arith, e)
    | inr (r, e) ↦ ground (
      arith,
      e,
      evict_candidate-others symbol other (candidate_of hooks.expired (hooks.now x.world) r) x h,
    )
  ]

  candidate_of-retained :
      (now : T) (r : SymbolRuntime T)
      → is_unreferenced r ≡ false
      → candidate_of hooks.expired now r ≡ retained
  unfolding candidate_of
  candidate_of-retained now r h = ground (arith, h)

  evict_round-kept :
      (symbol other : Text) (r : SymbolRuntime T) (x : Machine T W)
      → runtime_at other x.manager ≡ some r
      → is_unreferenced r ≡ false
      → runtime_at other (evict_round py hooks symbol x).1.manager ≡ some r
  unfolding evict_round evict_candidate
  evict_round-kept symbol other r x at h = elim (Bool-cases (symbol == other)) [
    | inl s ↦
        ground (arith, at, text_eq_iff symbol other, candidate_of-retained (hooks.now x.world) r h)
    | inr s ↦ evict_round-others symbol other x s ∙ at
  ]

  with_evicted-machine :
      (s : Text) (gone : Bool) (r : Result (List Text) × Machine T W)
      → (with_evicted py hooks s gone r).1 ≡ r.1
  with_evicted-machine s gone (ok later, x) = refl
  with_evicted-machine s gone (raise e, x) = refl

  and_rounds-kept :
      (s : Text) (ss : List Text) (other : Text) (r : SymbolRuntime T)
      (round : Result Bool × Machine T W)
      → ((x : Machine T W)
          → runtime_at other x.manager ≡ some r
          → runtime_at other (evict_rounds py hooks ss x).1.manager ≡ some r)
      → runtime_at other round.1.manager ≡ some r
      → runtime_at other (and_rounds py hooks s (evict_rounds py hooks ss) round).1.manager ≡ some r
  and_rounds-kept s ss other r (ok gone, x) later h =
      ap (λ y. runtime_at other y.manager)
        (with_evicted-machine s gone (evict_rounds py hooks ss x))
      ∙ later x h
  and_rounds-kept s ss other r (raise e, x) later h = h

  evict_rounds-kept :
      (ss : List Text) (other : Text) (r : SymbolRuntime T) (x : Machine T W)
      → is_unreferenced r ≡ false
      → runtime_at other x.manager ≡ some r
      → runtime_at other (evict_rounds py hooks ss x).1.manager ≡ some r
  unfolding evict_rounds
  evict_rounds-kept [] other r x h at = at
  evict_rounds-kept (s ∷ ss) other r x h at =
      and_rounds-kept s ss other r (evict_round py hooks s x)
        (λ y. evict_rounds-kept ss other r y h) (evict_round-kept s other r x at h)

  -- A runtime that has subscribers, or is not to be evicted, is the same after `evict_expired`, whether that
  -- returns or raises and whatever it does with the others.
  pub evict_expired-kept :
      (other : Text) (r : SymbolRuntime T) (x : Machine T W)
      → runtime_at other x.manager ≡ some r
      → is_unreferenced r ≡ false
      → runtime_at other (evict_expired py hooks x).1.manager ≡ some r
  unfolding evict_expired
  evict_expired-kept other r x at h =
      evict_rounds-kept (map (λ e. e.0) x.manager.runtimes) other r x h at
