-- ===== src/Value/Assign.antt =====
-- What a dict has after a key was set.
use lynx_monitor.Prelude.{String, some, ◌≡◌, refl, if◌then◌else◌, ◌==◌, string_eq, arith}
use lynx_monitor.Value.{Value, Fields, field, end, find, assign}

pub find-assign :
    (k j : String) (v : Value) (fs : Fields)
    → find j (assign k v fs) ≡ (if k == j then some v else find j fs)
unfolding find assign
find-assign k j v end = refl
find-assign k j v (field i w fs) = ground (
  arith,
  string_eq.same_iff k j,
  string_eq.same_iff i k,
  string_eq.same_iff i j,
  find-assign k j v fs,
)
