-- ===== src/Runtime/Threads.antt =====
-- backend/beast_market/symbol_runtime.py: hydrations of threads at a time. A thread is named by the key that it
-- loads. Between the blocks of `_hydrate_once` other methods may change the runtimes in any way; they do not touch
-- the keys.
use lynx_monitor.Prelude.{
  Text, not, Option, none, some, List, [], ◌∷◌, if◌then◌else◌, Result, select,
}
use lynx_monitor.Prelude.Dict.{Dict}
use lynx_monitor.Value.{Fields}
use lynx_monitor.Contracts.{Python}
use lynx_monitor.Hydration.{HydrationKey, same_key}
use lynx_monitor.Runtime.{SymbolRuntime, hydration_key}
use lynx_monitor.Runtime.Manager.{SymbolRuntimeManager, runtime_at}
use lynx_monitor.Runtime.Hydrate.{
  Begun, waits, settled, rejected, started, begin_hydration, finish_hydration,
}
use lynx_monitor.Runtime.Lifecycle.{present}

-- A thread that loads
pub record Load : Type 0 where
  pub key : HydrationKey
  pub symbol : Text

pub record Hydrations (T : Type 0) : Type 0 where
  pub manager : SymbolRuntimeManager T
  pub loads : List Load

pub data HydrationEvent (T : Type 0) : Type 0 where
  begin : (symbol timestamp : Text) → HydrationEvent T
  finish : HydrationKey → Result (Option Fields) → HydrationEvent T
  others_change : Dict Text (SymbolRuntime T) → HydrationEvent T

abbrev pub load_of : List Load → HydrationKey → Option Load
load_of [] key = none
load_of (l ∷ ls) key = let rest = load_of ls key in if same_key l.key key then some l else rest

abbrev pub without : {A : Type 0} → (A → HydrationKey) → HydrationKey → List A → List A
without f key = select (λ a. not (same_key (f a) key))

module _ {T : Type 0} (py : Python) (trade_date : Text) (reason : Text) where
  abbrev pub begun : Load → List Load → Begun × SymbolRuntimeManager T → Hydrations T
  begun load loads (waits, m) = record { manager = m; loads = loads }
  begun load loads (settled, m) = record { manager = m; loads = loads }
  begun load loads (rejected, m) = record { manager = m; loads = loads }
  begun load loads (started, m) = record { manager = m; loads = load ∷ loads }

  unfoldable pub happen_hydration : HydrationEvent T → Hydrations T → Hydrations T
  unfolding begin_hydration finish_hydration hydration_key same_key present
  happen_hydration (begin symbol timestamp) s = elim (runtime_at symbol s.manager) [
    | none ↦ s
    | some r ↦
        begun (record { key = hydration_key py trade_date r; symbol = r.symbol }) s.loads
          (begin_hydration (hydration_key py trade_date r) reason trade_date timestamp r s.manager)
  ]
  happen_hydration (finish key result) s = elim (load_of s.loads key) [
    | none ↦ s
    | some l ↦ record {
      manager = finish_hydration py key l.symbol result s.manager;
      loads = without (λ l. l.key) key s.loads;
    }
  ]
  happen_hydration (others_change runtimes) s = record s {
    manager = record s.manager { runtimes = runtimes };
  }

  unfoldable pub run_hydrations : List (HydrationEvent T) → Hydrations T → Hydrations T
  unfolding happen_hydration
  run_hydrations [] s = s
  run_hydrations (e ∷ es) s = run_hydrations es (happen_hydration e s)
