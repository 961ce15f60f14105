-- ===== src/Tests/Pools.antt =====
-- The active symbol pool.
use lynx_monitor.Prelude.{
  ℕ, ◌≡◌, refl, Text, codes, true, [], ◌∷◌, map, length, leb, not, ◌||◌, arith, text_eq,
}
use lynx_monitor.Pool.{
  contains, ActivePoolConfig, ActiveSymbolPoolManager, Ranking, init, rebuild_base_active,
  note_symbol, unpin_symbol,
}
use lynx_monitor.Pool.Members.{Distinct}
use lynx_monitor.Pool.Invariant.{
  IsValid, RanksOnce, note, unpin, rebuild, operate_all, operate_all-IsValid,
}
use lynx_monitor.Pool.Changes.{
  IsAccurate, note_symbol-IsAccurate, note_symbol-active, unpin_symbol-IsAccurate,
}

abbrev first : Text
first = codes "00700.HK"

abbrev second : Text
second = codes "09988.HK"

abbrev third : Text
third = codes "00005.HK"

abbrev config : ActivePoolConfig
config = record { target_size = 2; pinned_max_size = 1; rank_metric = codes "turnover" }

abbrev new_manager : ActiveSymbolPoolManager ℕ
new_manager = init config []

abbrev ranking : Ranking ℕ
ranking = record { ranks = (first, 1) ∷ (second, 2) ∷ []; classifications = []; excluded = [] }

abbrev ranked : ActiveSymbolPoolManager ℕ
ranked = rebuild_base_active ranking new_manager

new_manager-IsValid : IsValid new_manager
unfolding init
new_manager-IsValid = record {
  ready = record { pinned = tt; source = tt; limit = omega arith };
  layout = refl;
  base = refl;
}

ranking-Distinct : Distinct (map (λ e. e.0) ranking.ranks)
unfolding text_eq
ranking-Distinct = (refl, (refl, tt))

ranked-IsValid : IsValid ranked
unfolding RanksOnce rebuild_base_active operate_all
ranked-IsValid =
    operate_all-IsValid (rebuild ranking ∷ []) new_manager (ranking-Distinct, tt)
      new_manager-IsValid

operate_all-IsValid_example :
    IsValid
      (operate_all (rebuild ranking ∷ note (codes "5") ∷ unpin (codes "700") ∷ []) new_manager)
unfolding RanksOnce
operate_all-IsValid_example =
    operate_all-IsValid (rebuild ranking ∷ note (codes "5") ∷ unpin (codes "700") ∷ []) new_manager
      (ranking-Distinct, (tt, (tt, tt))) new_manager-IsValid

-- The third symbol is pinned in the place of the second.
pinned : (note_symbol third ranked).1.active_pool ≡ third ∷ first ∷ []
unfolding note_symbol rebuild_base_active init
pinned = refl

note_symbol-IsAccurate_example :
    IsAccurate ranked.active_pool
      (note_symbol third ranked).1.active_pool
      (note_symbol third ranked).0
note_symbol-IsAccurate_example = note_symbol-IsAccurate third ranked ranked-IsValid

note_symbol-active_example :
    (contains (note_symbol third ranked).1.active_pool third ≡ (
      contains ranked.active_pool third
      || not (leb ranked.config.pinned_max_size (length ranked.query_pinned))))
    × ((t : Text)
        → contains ranked.query_pinned t ≡ true
        → contains (note_symbol third ranked).1.active_pool t ≡ true)
note_symbol-active_example = note_symbol-active third ranked ranked-IsValid

unpin_symbol-IsAccurate_example :
    IsAccurate
      (note_symbol third ranked).1.active_pool
      (unpin_symbol third (note_symbol third ranked).1).1.active_pool
      (unpin_symbol third (note_symbol third ranked).1).0
unpin_symbol-IsAccurate_example = unpin_symbol-IsAccurate third (note_symbol third ranked).1
