-- ===== src/Runtime/Action.antt =====
-- A method of `SymbolRuntimeManager` as an action: it returns or raises, and leaves the machine as it is then.
use lynx_monitor.Prelude.{Result, ok, raise, Text}
use lynx_monitor.Runtime.{SymbolRuntime}
use lynx_monitor.Runtime.Manager.{SymbolRuntimeManager, Machine, adjust}

abbrev pub Action : (T W : Type 0) → Type 0 → Type 0
Action T W A = Machine T W → Result A × Machine T W

module _ {T W : Type 0} where
  unfoldable pub go_on :
      {A B : Type 0} → (A → Action T W B) → Result A × Machine T W → Result B × Machine T W
  go_on f (ok a, x) = f a x
  go_on f (raise e, x) = (raise e, x)

  infixl 5 ◌>>=◌
  abbrev pub ◌>>=◌ : {A B : Type 0} → Action T W A → (A → Action T W B) → Action T W B
  (m >>= f) x = go_on f (m x)

  abbrev pub done : {A : Type 0} → A → Action T W A
  done a x = (ok a, x)

  abbrev pub with_world :
      {A : Type 0} → SymbolRuntimeManager T → Result A × W → Result A × Machine T W
  with_world m r = (r.0, record { manager = m; world = r.1 })

  -- A call of a hook.
  abbrev pub ask : {A : Type 0} → (W → Result A × W) → Action T W A
  ask hook x = with_world x.manager (hook x.world)

  -- A block under the lock, which cannot raise.
  abbrev pub block : (Machine T W → SymbolRuntimeManager T) → Action T W (Unit {0})
  block f x = (ok tt, record x { manager = f x })

  -- Writes that do not raise.
  abbrev pub write : (Machine T W → Machine T W) → Action T W (Unit {0})
  write f x = (ok tt, f x)

  -- A block that changes one runtime.
  abbrev pub change : Text → (SymbolRuntime T → SymbolRuntime T) → Action T W (Unit {0})
  change symbol f = block (λ x. adjust symbol f x.manager)

  abbrev pub undone :
      {A : Type 0} → Action T W (Unit {0}) → Result A × Machine T W → Result A × Machine T W
  undone undo (ok a, x) = (ok a, x)
  undone undo (raise e, x) = (raise e, (undo x).1)

  -- try: m, except Exception: undo and raise
  abbrev pub or_else : {A : Type 0} → Action T W A → Action T W (Unit {0}) → Action T W A
  or_else m undo x = undone undo (m x)
