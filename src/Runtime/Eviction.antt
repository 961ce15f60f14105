-- ===== src/Runtime/Eviction.antt =====
-- backend/beast_market/symbol_runtime.py: `evict_expired`. The runtimes of a manager have different symbols,
-- so a candidate is the runtime that the dict has for its symbol.
use lynx_monitor.Prelude.{
  Text, Bool, true, false, not, ◌&&◌, none, some, List, [], ◌∷◌, map, Result, ok, raise,
  if◌then◌else◌, text_equality,
}
use lynx_monitor.Prelude.Dict.{get, remove}
use lynx_monitor.Contracts.{Python}
use lynx_monitor.Runtime.{SymbolRuntime, is_evicting, no_texts}
use lynx_monitor.Runtime.Manager.{SymbolRuntimeManager, Hooks, Machine, runtime_at}
use lynx_monitor.Runtime.Action.{Action, go_on, ◌>>=◌, done, ask, block, change}
use lynx_monitor.Runtime.Lifecycle.{release_realtime}

-- What the first block of a round finds.
pub data Candidate : Type 0 where
  retained unstamped due : Candidate

module _ {T : Type 0} where
  abbrev pub is_unreferenced : SymbolRuntime T → Bool
  is_unreferenced r = is_evicting r.state && no_texts r.subscribers

  unfoldable pub candidate_of : (T → T → Bool) → T → SymbolRuntime T → Candidate
  candidate_of expired now r =
      if not (is_unreferenced r) then retained else elim (r.eviction_started_at) [
        | none ↦ unstamped
        | some started ↦ if expired now started then due else retained
      ]

  -- del self.runtimes[symbol]
  unfoldable pub delete : Text → SymbolRuntimeManager T → SymbolRuntimeManager T
  unfolding remove
  delete symbol m = record m { runtimes = remove m.runtimes symbol }

module _ {T W M : Type 0} (py : Python) (hooks : Hooks T W M) where
  -- The last block of a round
  unfoldable pub evict_released : Text → Action T W Bool
  unfolding go_on delete
  evict_released symbol x = elim (runtime_at symbol x.manager) [
    | none ↦ (ok false, x)
    | some r ↦
        if is_unreferenced r
        then (do
          _ ← block (λ y. delete symbol y.manager)
          _ ← ask (hooks.release_temporary symbol)
          done true)
            x
        else (ok false, x)
  ]

  unfoldable pub evict_candidate : Text → Candidate → Action T W Bool
  unfolding go_on evict_released release_realtime
  evict_candidate symbol retained x = (ok false, x)
  evict_candidate symbol unstamped x =
      (do
        _ ← change symbol (λ r. record r { eviction_started_at = some (hooks.now x.world) })
        done false)
        x
  evict_candidate symbol due x = evict_released symbol (release_realtime py hooks symbol x)

  unfoldable pub evict_round : Text → Action T W Bool
  unfolding candidate_of evict_candidate get
  evict_round symbol x = elim (runtime_at symbol x.manager) [
    | none ↦ (ok false, x)
    | some r ↦ evict_candidate symbol (candidate_of hooks.expired (hooks.now x.world) r) x
  ]

  -- evicted.append(symbol), of the rounds from a symbol's on
  abbrev pub with_evicted :
      Text → Bool → Result (List Text) × Machine T W → Result (List Text) × Machine T W
  with_evicted s gone (ok later, x) = (ok (if gone then s ∷ later else later), x)
  with_evicted s gone (raise e, x) = (raise e, x)

  abbrev pub and_rounds :
      Text → Action T W (List Text) → Result Bool × Machine T W → Result (List Text) × Machine T W
  and_rounds s later (ok gone, x) = with_evicted s gone (later x)
  and_rounds s later (raise e, x) = (raise e, x)

  unfoldable pub evict_rounds : List Text → Action T W (List Text)
  unfolding evict_round
  evict_rounds [] x = (ok [], x)
  evict_rounds (s ∷ ss) x = and_rounds s (evict_rounds ss) (evict_round s x)

  unfoldable pub evict_expired : Action T W (List Text)
  unfolding evict_rounds
  evict_expired x = evict_rounds (map (λ e. e.0) x.manager.runtimes) x
