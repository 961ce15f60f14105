-- ===== src/Tests/Days.antt =====
-- A state when a trading day begins.
use lynx_monitor.Prelude.{Text, ◌≡◌, refl, true, false, ok, [], ◌∷◌, ◌&&◌, not, codes, text_eq}
use lynx_monitor.Prelude.{String, some, raise}
use lynx_monitor.Value.{get_value}
use lynx_monitor.Runtime.{text_of}
use lynx_monitor.Compute.Alerts.{BodState, make_big_trade_alert}
use lynx_monitor.Value.{int, pos, str, list, dict, nil, cons, Fields, field, end}
use lynx_monitor.Contracts.{Python}
use lynx_monitor.Bars.{Numbers}
use lynx_monitor.Compute.{rolled, rollover_realtime_session}
use lynx_monitor.Compute.Rollover.{rollover_realtime_session_idem}
use lynx_monitor.Compute.Freshness.{
  is_in, is_of_minute_bars, is_confirmed, existing_reasons, freshness_degraded_reasons,
}
use lynx_monitor.Compute.Reasons.{no_repeats, freshness_degraded_reasons_lem}

abbrev python : Python
python = record { format = λ v. []; fromisoformat = λ t. true }

abbrev numbers : Numbers
numbers = record {
  to_float = λ v. ok v;
  to_int = λ v. ok v;
  plus = λ v w. v;
  maximum = λ v w. v;
  minimum = λ v w. v;
  equal = λ v w. false;
}

-- A state of the day before, whose minute bars were missing
abbrev state : Fields
state =
    field "snapshot"
      (dict (field "tradeDate" (str (codes "20260601")) (field "price" (int (pos 7)) end)))
      (field "minute_bars" (list (cons (dict end) nil)) (
        field "freshness"
          (dict (
            field "degraded_reasons"
              (list (
                cons (str (codes "missing_minute_bars"))
                  (cons (str (codes "stale")) (cons (str (codes "stale")) nil))))
              end))
          end))

abbrev today : Text
today = codes "20260602"

rolled_over :
    rollover_realtime_session python numbers state today (codes "t")
    ≡ ok (rolled today (codes "t") state (int (pos 7)))
unfolding rollover_realtime_session text_eq
rolled_over = refl

rollover_realtime_session_idem_example :
    rollover_realtime_session python numbers
      (rolled today (codes "t") state (int (pos 7)))
      today
      (codes "u")
    ≡ ok (rolled today (codes "t") state (int (pos 7)))
rollover_realtime_session_idem_example =
    rollover_realtime_session_idem python numbers state
      (rolled today (codes "t") state (int (pos 7))) today (codes "t") (codes "u") refl rolled_over

abbrev dates : Fields
dates = field "minute_bars" (str today) end

reasons_now : freshness_degraded_reasons python state dates today ≡ codes "stale" ∷ []
unfolding freshness_degraded_reasons text_eq
reasons_now = refl

freshness_degraded_reasons_lem_example :
    (is_in (codes "stale") (freshness_degraded_reasons python state dates today) ≡ (
      is_in (codes "stale") (existing_reasons python state)
      && not (is_of_minute_bars (codes "stale") && is_confirmed python state dates today)))
    × (no_repeats (freshness_degraded_reasons python state dates today) ≡ true)
freshness_degraded_reasons_lem_example =
    freshness_degraded_reasons_lem python state dates today (codes "stale")

-- A participant that is only a code is named by its mapping.
abbrev bod : BodState
bod = record {
  volume_baseline = int (pos 0);
  broker_mapping_by_code = (codes "77", field "participant_name" (str (codes "Alpha")) end) ∷ [];
  highlighted_participants = codes "Alpha" ∷ [];
}

abbrev trade_event : Fields
trade_event = field "event_id" (str (codes "e1")) (
    field "payload"
      (dict (field "broker_code" (str (codes "77")) (field "side" (str (codes "B")) end))) end)

abbrev trade_tick : Fields
trade_tick = field "timestamp" (str (codes "t")) (
    field "price" (int (pos 7))
      (field "volume" (int (pos 9)) (field "turnover" (int (pos 63)) end)))

abbrev alert_text : String → Text
alert_text key = elim (make_big_trade_alert python trade_event trade_tick (some bod)) [
  | ok alert ↦ text_of python (get_value alert key)
  | raise e ↦ []
]

alert_names :
    (alert_text "participantName" ≡ codes "Alpha")
    × ((alert_text "side" ≡ codes "buy") × (alert_text "id" ≡ codes "alert-e1"))
unfolding make_big_trade_alert text_eq
alert_names = (refl, (refl, refl))
