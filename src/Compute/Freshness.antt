-- ===== src/Compute/Freshness.antt =====
-- backend/beast_market/pipeline.py: the freshness of a state after a raw event. The reasons that a freshness has are a list, and
-- its source dates a dict.
use lynx_monitor.Prelude.{
  Text, String, Bool, true, false, List, [], ◌∷◌, ◌++◌, ◌&&◌, ◌||◌, not, any, if◌then◌else◌, codes,
  text_eq, text_equality, Result, ok, ◌>>=◌,
}
use lynx_monitor.Value.{
  bool, str, list, dict, Items, nil, cons, Fields, field, end, find, item, assign, fields_of,
  items_of, truthy, get_value, is_list,
}
use lynx_monitor.Contracts.{Python}
use lynx_monitor.Contracts.Events.{is_text}
use lynx_monitor.Runtime.{texts_of}
use lynx_monitor.Bars.{or_value, merge}
use lynx_monitor.Compute.{dict_at}

unfoldable pub is_full_tick_seed_event : Fields → Bool
unfolding find text_eq
is_full_tick_seed_event raw_event =
    is_text (codes "full_tick") (get_value raw_event "period")
    || is_text (codes "xtquant_full_tick") (get_value raw_event "source")

-- reason in {"missing_minute_bars", "intraday_gap_before_attach"}
abbrev pub is_of_minute_bars : Text → Bool
is_of_minute_bars reason =
    text_eq reason (codes "missing_minute_bars")
    || text_eq reason (codes "intraday_gap_before_attach")

abbrev pub is_in : Text → List Text → Bool
is_in reason reasons = any (text_eq reason) reasons

-- The loop over the reasons before, with the `reasons` that it has so far
unfoldable pub remaining_reasons :
    (has_confirmed_minute_bars : Bool) → List Text → List Text → List Text
unfolding text_eq
remaining_reasons confirmed [] reasons = reasons
remaining_reasons confirmed (reason ∷ existing) reasons = remaining_reasons confirmed existing (
    if (is_of_minute_bars reason && confirmed) || is_in reason reasons
    then reasons
    else reasons ++ (reason ∷ []))

abbrev pub with_missing : (has_confirmed_minute_bars : Bool) → List Text → List Text → List Text
with_missing confirmed existing reasons =
    if not confirmed
      && (is_in (codes "missing_minute_bars") existing
          && not (is_in (codes "missing_minute_bars") reasons))
    then reasons ++ (codes "missing_minute_bars" ∷ [])
    else reasons

module _ (py : Python) where
  abbrev pub existing_reasons : Fields → List Text
  existing_reasons state =
      texts_of py
        (items_of (or_value (get_value (dict_at state "freshness") "degraded_reasons") (list nil)))

  abbrev pub is_confirmed : (state source_dates : Fields) → Text → Bool
  is_confirmed state source_dates trade_date =
      let minute_bars = get_value state "minute_bars" in
      (is_list minute_bars && truthy minute_bars)
      && is_text trade_date (get_value source_dates "minute_bars")

  unfoldable pub freshness_degraded_reasons : (state source_dates : Fields) → Text → List Text
  unfolding find truthy or_value text_eq remaining_reasons
  freshness_degraded_reasons state source_dates trade_date =
      let confirmed = is_confirmed state source_dates trade_date in
      with_missing confirmed (existing_reasons state)
        (remaining_reasons confirmed (existing_reasons state) [])

-- The keys of `source_dates` that an event sets, each to the day
unfoldable pub dated : Text → List String → Fields → Fields
unfolding assign
dated trade_date [] dates = dates
dated trade_date (k ∷ ks) dates = dated trade_date ks (assign k (str trade_date) dates)

-- `updates_minute_bars` and `updates_latest_bar` matter for a tick only.
unfoldable pub dated_keys : (updates_minute_bars updates_latest_bar : Bool) → Fields → List String
unfolding find text_eq is_full_tick_seed_event
dated_keys updates_minute_bars updates_latest_bar raw_event =
    let kind = get_value raw_event "kind" in
    if is_text (codes "tick") kind
    then (if updates_minute_bars then "minute_bars" ∷ [] else [])
      ++ ((if updates_latest_bar then "latest_bar" ∷ [] else [])
          ++ ((if is_full_tick_seed_event raw_event then "full_tick" ∷ [] else [])
              ++ ("realtime" ∷ [])))
    else if is_text (codes "broker_queue") kind
    then "broker_queue" ∷ "realtime" ∷ []
    else if is_text (codes "l2_order_book") kind
    then "l2_order_book" ∷ "realtime" ∷ []
    else []

abbrev pub texts : List Text → Items
texts [] = nil
texts (t ∷ ts) = cons (str t) (texts ts)

abbrev pub is_some_reason : List Text → Bool
is_some_reason [] = false
is_some_reason (r ∷ rs) = true

module _ (py : Python) where
  unfoldable pub realtime_freshness :
      (state raw_event : Fields)
      → Text
      → (updates_minute_bars updates_latest_bar : Bool) → Result Fields
  unfolding find or_value dated dated_keys freshness_degraded_reasons merge
  realtime_freshness state raw_event trade_date updates_minute_bars updates_latest_bar =
      let existing = dict_at state "freshness" in
      let source_dates =
        dated trade_date (dated_keys updates_minute_bars updates_latest_bar raw_event)
          (fields_of (or_value (get_value existing "source_dates") (dict end))) in
      let reasons = freshness_degraded_reasons py state source_dates trade_date in
      (do
        ingest_ts ← item raw_event "ingest_ts"
        source_ts ← item raw_event "source_ts"
        ok (
            merge existing (
              field "updated_at" ingest_ts (
                field "source_ts" source_ts (
                  field "ingest_ts" ingest_ts (
                    field "requested_trade_date" (str trade_date) (
                      field "effective_trade_date" (str trade_date) (
                        field "runtime_state" (str (codes "LIVE")) (
                          field "source_dates" (dict source_dates) (
                            field "degraded" (bool (is_some_reason reasons))
                              (field "degraded_reasons" (list (texts reasons)) end)))))))))))
