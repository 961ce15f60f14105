-- ===== src/Compute/Edit.antt =====
-- backend/beast_market/pipeline.py: calls that change the state of a symbol in place. They return or raise, and leave the
-- state as it is then.
use lynx_monitor.Prelude.{String, Result, ok, raise}
use lynx_monitor.Value.{Value, Fields, item, assign, fields_of}

abbrev pub Edit : Type 0 → Type 0
Edit A = Fields → Result A × Fields

unfoldable pub go_on : {A B : Type 0} → (A → Edit B) → Result A × Fields → Result B × Fields
go_on f (ok a, state) = f a state
go_on f (raise e, state) = (raise e, state)

infixl 5 ◌>>=◌
abbrev pub ◌>>=◌ : {A B : Type 0} → Edit A → (A → Edit B) → Edit B
(m >>= f) state = go_on f (m state)

abbrev pub done : {A : Type 0} → A → Edit A
done a state = (ok a, state)

-- A call that does not change the state
abbrev pub ask : {A : Type 0} → Result A → Edit A
ask r state = (r, state)

abbrev pub look : {A : Type 0} → (Fields → Result A) → Edit A
look f state = (f state, state)

-- A call that changes the state unless it raises
abbrev pub change : (Fields → Result Fields) → Edit (Unit {0})
change f state = elim (f state) [ ok changed ↦ (ok tt, changed) | raise e ↦ (raise e, state) ]

-- state[key] = value
abbrev pub write : String → (Fields → Value) → Edit (Unit {0})
write key f state = (ok tt, assign key (f state) state)

-- state["snapshot"], which is a dict
abbrev pub snapshot_of : Fields → Result Fields
snapshot_of state = elim (item state "snapshot") [ ok v ↦ ok (fields_of v) | raise e ↦ raise e ]
