-- ===== src/Compute/Policy.antt =====
-- backend/beast_market/pipeline.py: which trades are big, and the alerts of a state that are kept by that policy.
use lynx_monitor.Prelude.{
  Bool, false, ◌&&◌, ◌||◌, Option, none, some, List, [], ◌∷◌, ◌++◌, map, take, if◌then◌else◌,
  Result, ok, ◌>>=◌,
}
use lynx_monitor.Value.{Value, list, dict, Fields, find, assign, get_value}
use lynx_monitor.Bars.{or_value, items, zero_int, dicts_of, max_alerts}
use lynx_monitor.Compute.Alerts.{BodState}
use lynx_monitor.Compute.Confirmed.{Arithmetic}

-- The thresholds of `OctopusComputeV2`
pub record Thresholds : Type 0 where
  pub volume_baseline_ratio : Value
  pub min_volume : Value
  pub turnover : Value

module _ (arithmetic : Arithmetic) (thresholds : Thresholds) where
  abbrev pub positive : Value → Bool
  positive v = arithmetic.greater v zero_int

  -- The candidate of a BOD state
  abbrev pub baseline_candidates : Option BodState → List Value
  baseline_candidates none = []
  baseline_candidates (some bod) =
      if positive bod.volume_baseline && positive thresholds.volume_baseline_ratio
      then arithmetic.times bod.volume_baseline thresholds.volume_baseline_ratio ∷ []
      else []

  abbrev pub volume_candidates : Option BodState → List Value
  volume_candidates bod =
      baseline_candidates bod
      ++ (if positive thresholds.min_volume then thresholds.min_volume ∷ [] else [])

  -- bool(candidates) and volume >= max(candidates)
  abbrev pub reaches : Value → List Value → Bool
  reaches volume [] = false
  reaches volume (c ∷ []) = arithmetic.at_least volume c
  reaches volume (c ∷ d ∷ cs) = arithmetic.at_least volume (arithmetic.numbers.maximum c d)

  -- Of a tick's volume, an int, and its turnover, a float
  unfoldable pub is_big_trade : (volume turnover : Value) → Option BodState → Bool
  is_big_trade volume turnover bod =
      reaches volume (volume_candidates bod)
      || (positive thresholds.turnover && arithmetic.at_least turnover thresholds.turnover)

  unfoldable pub is_big_alert : Option BodState → Fields → Result Bool
  unfolding find or_value is_big_trade
  is_big_alert bod alert = do
    price ← arithmetic.numbers.to_float (or_value (get_value alert "price") zero_int)
    volume ← arithmetic.numbers.to_int (or_value (get_value alert "volume") zero_int)
    turnover ← arithmetic.numbers.to_float (or_value (get_value alert "turnover") zero_int)
    ok (is_big_trade volume turnover bod)

  -- The loop over the alerts
  unfoldable pub big_alerts : Option BodState → List Fields → Result (List Fields)
  unfolding is_big_alert
  big_alerts bod [] = ok []
  big_alerts bod (alert ∷ alerts) = do
    big ← is_big_alert bod alert
    rest ← big_alerts bod alerts
    ok (if big then alert ∷ rest else rest)

  abbrev pub alerts_value : List Fields → Value
  alerts_value alerts = list (items (map dict alerts))

  unfoldable pub filter_state_alerts_for_policy : Option BodState → Fields → Result Fields
  unfolding find assign big_alerts
  filter_state_alerts_for_policy bod state = elim (get_value state "alerts") [
    | list alerts ↦ (do
      filtered ← big_alerts bod (dicts_of alerts)
      ok (assign "alerts" (alerts_value (take max_alerts filtered)) state))
    | _ ↦ ok state
  ]
