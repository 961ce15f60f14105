-- ===== src/Bars/Alerts.antt =====
-- The alerts of a snapshot after a new one.
use lynx_monitor.Prelude.{
  ◌≤◌, Text, Bool, true, false, ◌&&◌, List, [], ◌∷◌, ◌≡◌, refl, take, not, select, length,
  length-take, arith, Result, ok, raise, ◌>>=◌, if◌then◌else◌, text_eq,
}
use lynx_monitor.Value.{Value, null, bool, int, float, str, list, dict, Fields, is_dict}
use lynx_monitor.Contracts.{Python}
use lynx_monitor.Symbols.{is_empty}
use lynx_monitor.Bars.{Numbers, alert_id, other_ids, prepend_unique_alert, max_alerts}

module _ (py : Python) (numbers : Numbers) where
  abbrev pub has_id : Text → Value → Bool
  has_id id (dict alert) = text_eq (alert_id py numbers alert) id
  has_id id _ = false

  abbrev pub are_dicts : List Value → Bool
  are_dicts [] = true
  are_dicts (v ∷ vs) = is_dict v && are_dicts vs

  abbrev pub has_another_id : Text → Value → Bool
  has_another_id id v = not (has_id id v)

  -- The result of the alerts with other ids: they are all there, in order; one that is no dict is an error.
  OtherIds : Text → List Value → Result (List Value) → Type 0
  OtherIds id alerts (ok rest) =
      (rest ≡ select (has_another_id id) alerts) × (are_dicts alerts ≡ true)
  OtherIds id alerts (raise e) = are_dicts alerts ≡ false

  and_alert-OtherIds :
      (id : Text) (alert : Fields) (alerts : List Value) (r : Result (List Value))
      → OtherIds id alerts r
      → OtherIds id (dict alert ∷ alerts) (
          r >>= (λ rest.
            ok (if text_eq (alert_id py numbers alert) id then rest else dict alert ∷ rest)))
  unfolding OtherIds
  and_alert-OtherIds id alert alerts (ok rest) h = ground (arith, h.0, h.1)
  and_alert-OtherIds id alert alerts (raise e) h = h

  other_ids-OtherIds :
      (id : Text) (alerts : List Value) → OtherIds id alerts (other_ids py numbers id alerts)
  unfolding other_ids OtherIds
  other_ids-OtherIds id [] = (refl, refl)
  other_ids-OtherIds id (dict alert ∷ alerts) =
      and_alert-OtherIds id alert alerts (other_ids py numbers id alerts)
        (other_ids-OtherIds id alerts)
  other_ids-OtherIds id (null ∷ alerts) = refl
  other_ids-OtherIds id (bool b ∷ alerts) = refl
  other_ids-OtherIds id (int n ∷ alerts) = refl
  other_ids-OtherIds id (float x ∷ alerts) = refl
  other_ids-OtherIds id (str s ∷ alerts) = refl
  other_ids-OtherIds id (list vs ∷ alerts) = refl

  -- The result of a new alert: it is first, and behind it are the first 499 of the alerts before that
  -- have another id, in their order. All alerts before are dicts, or it raises.
  abbrev pub IsNewest : Fields → List Value → Result (List Value) → Type 0
  IsNewest alert alerts r = elim r [
    | ok all ↦
        (all ≡ dict alert ∷ take 499 (select (has_another_id (alert_id py numbers alert)) alerts))
        × ((length all ≤ max_alerts) × (are_dicts alerts ≡ true))
    | raise e ↦ are_dicts alerts ≡ false
  ]

  kept-IsNewest :
      (alert : Fields) (alerts : List Value) (r : Result (List Value))
      → OtherIds (alert_id py numbers alert) alerts r
      → IsNewest alert alerts (r >>= (λ deduped. ok (take max_alerts (dict alert ∷ deduped))))
  unfolding OtherIds
  kept-IsNewest alert alerts (ok rest) h = (rw h.0 refl, (omega (arith, length-take 499 rest), h.1))
  kept-IsNewest alert alerts (raise e) h = h

  -- An alert with an id is put first, the alerts before with its id go, and of the others the first 499
  -- stay in their order. It raises exactly where an alert of the snapshot is no dict.
  pub prepend_unique_alert-IsNewest :
      (alert : Fields) (alerts : List Value)
      → is_empty (alert_id py numbers alert) ≡ false
      → IsNewest alert alerts (prepend_unique_alert py numbers alert alerts)
  unfolding prepend_unique_alert
  prepend_unique_alert-IsNewest alert alerts h =
      rw (prepend_unique_alert, h)
        (kept-IsNewest alert alerts (other_ids py numbers (alert_id py numbers alert) alerts)
          (other_ids-OtherIds (alert_id py numbers alert) alerts))
