-- ===== src/Compute/Minutes.antt =====
-- backend/beast_market/pipeline.py: minute bars. `minute_bucket` of this file raises on what is no timestamp. `now` is what
-- `datetime.now` gives, `is_after` the order of datetimes; `float` of a float is that float.
use lynx_monitor.Prelude.{
  Text, String, Bool, true, not, ◌||◌, none, some, List, [], ◌∷◌, map, if◌then◌else◌, text_eq,
  codes, Result, ok, raise, ◌>>=◌, fail, value_error, string_eq,
}
use lynx_monitor.Symbols.{is_empty}
use lynx_monitor.Freshness.{replace_z}
use lynx_monitor.Value.{Value, str, list, dict, Fields, field, end, find, item, get_value}
use lynx_monitor.Contracts.{Python}
use lynx_monitor.Pool.{text_le}
use lynx_monitor.Runtime.{text_of, text_or}
use lynx_monitor.Session.{Datetimes, is_regular_hk_trading_minute}
use lynx_monitor.Bars.{
  Numbers, or_value, merge, dicts_of, items, last_of, max_minute_bars, zero_int,
}

-- The `tick` that is made of a raw event
pub record Tick : Type 0 where
  pub timestamp : Text
  pub price : Value
  pub volume : Value
  pub turnover : Value
  pub direction : Text

abbrev pub fields_of_tick : Tick → Fields
fields_of_tick t = field "timestamp" (str t.timestamp) (
    field "price" t.price (
      field "volume" t.volume
        (field "turnover" t.turnover (field "direction" (str t.direction) end))))

-- d.get(key, default)
abbrev pub get_default : Fields → String → Value → Value
get_default fs k v = elim (find k fs) [ none ↦ v | some w ↦ w ]

abbrev pub bars_value : List Fields → Value
bars_value bars = list (items (map dict bars))

-- bars.sort(key=…), which is stable; the keys are made first
unfoldable pub insert_keyed : {A : Type 0} → Text → A → List (Text × A) → List (Text × A)
unfolding text_le
insert_keyed k a [] = (k, a) ∷ []
insert_keyed k a ((j, b) ∷ rest) =
    let later = insert_keyed k a rest in
    if text_le k j then (k, a) ∷ (j, b) ∷ rest else (j, b) ∷ later

unfoldable pub sort_keyed : {A : Type 0} → List (Text × A) → List (Text × A)
unfolding insert_keyed
sort_keyed [] = []
sort_keyed ((k, a) ∷ rest) = insert_keyed k a (sort_keyed rest)

abbrev pub with_keys : {A : Type 0} → (A → Result Text) → List A → Result (List (Text × A))
with_keys key [] = ok []
with_keys key (a ∷ rest) = do k ← key a; later ← with_keys key rest; ok ((k, a) ∷ later)

unfoldable pub sort_by_key : {A : Type 0} → (A → Result Text) → List A → Result (List A)
unfolding sort_keyed
sort_by_key key rows = do
  keyed ← with_keys key rows
  ok (map (λ (p : Text × _). p.1) (sort_keyed keyed))

module _ {D : Type 0} (datetimes : Datetimes D) (is_after : D → D → Bool) where
  -- parsed, in Hong Kong's zone where it names none
  unfoldable pub parse_timestamp : Text → Result D
  unfolding replace_z
  parse_timestamp timestamp = elim (datetimes.fromisoformat (replace_z timestamp)) [
    | none ↦ fail value_error (codes "Invalid isoformat string")
    | some parsed ↦
        ok (if datetimes.has_tzinfo parsed then parsed else datetimes.replace_tzinfo parsed)
  ]

  abbrev pub minute_of : D → D
  minute_of d = datetimes.start_of_minute (datetimes.astimezone d)

  unfoldable pub minute_bucket : Text → Result Text
  unfolding parse_timestamp
  minute_bucket timestamp = do
    parsed ← parse_timestamp timestamp
    ok (datetimes.isoformat (minute_of parsed))

  unfoldable pub is_future_minute_bar : D → Text → Result Bool
  unfolding parse_timestamp
  is_future_minute_bar now timestamp = do
    parsed ← parse_timestamp timestamp
    ok (is_after (minute_of parsed) (minute_of now))

  -- bar_minute >= current_minute
  unfoldable pub is_current_or_future_minute_bar : D → Text → Result Bool
  unfolding parse_timestamp
  is_current_or_future_minute_bar now timestamp = do
    parsed ← parse_timestamp timestamp
    ok (not (is_after (minute_of now) (minute_of parsed)))

  unfoldable pub iso_timestamp_seconds : (D → Value) → D → Text → Value
  unfolding parse_timestamp
  iso_timestamp_seconds seconds now timestamp = elim (parse_timestamp timestamp) [
    | ok parsed ↦ seconds parsed
    | raise e ↦ seconds now
  ]

  module _ (py : Python) where
    abbrev pub is_pruned : D → Text → Bool
    is_pruned now timestamp =
        is_empty timestamp
        || elim (is_future_minute_bar now timestamp) [ ok future ↦ future | raise e ↦ true ]

    unfoldable pub past_bars : D → List Fields → List Fields
    unfolding find text_or is_future_minute_bar
    past_bars now [] = []
    past_bars now (bar ∷ bars) =
        let rest = past_bars now bars in
        if is_pruned now (text_or py (get_value bar "timestamp") []) then rest else bar ∷ rest

    abbrev pub bars_in : Value → List Fields
    bars_in (list vs) = dicts_of vs
    bars_in _ = []

    unfoldable pub prune_future_minute_bars : D → Value → List Fields
    unfolding past_bars
    prune_future_minute_bars now minute_bars =
        last_of max_minute_bars (past_bars now (bars_in minute_bars))

    -- minute_bucket(str(bar["timestamp"])), and with a default
    abbrev pub bucket_of : Fields → Result Text
    bucket_of bar = do timestamp ← item bar "timestamp"; minute_bucket (text_of py timestamp)

    abbrev pub bucket_or : Fields → Result Text
    bucket_or bar = minute_bucket (text_or py (get_value bar "timestamp") [])

    module _ (numbers : Numbers) where
      abbrev pub float_or : Value → Value → Result Value
      float_or a b = numbers.to_float (or_value a b)

      unfoldable pub merged_bar : Text → Tick → Fields → Result Fields
      unfolding find merge or_value
      merged_bar minute_ts tick previous = do
        let before = get_default previous "price" tick.price
        high ← numbers.to_float (get_default previous "high" before)
        low ← numbers.to_float (get_default previous "low" before)
        volume ← numbers.to_int (or_value (get_value previous "volume") zero_int)
        turnover ← float_or (get_value previous "turnover") zero_int
        ok (
            merge previous (
              field "timestamp" (str minute_ts) (
                field "price" tick.price (
                  field "close" tick.price (
                    field "high" (numbers.maximum high tick.price) (
                      field "low" (numbers.minimum low tick.price) (
                        field "volume" (numbers.plus volume tick.volume) (
                          field "turnover" (numbers.plus turnover tick.turnover)
                            (field "direction" (str tick.direction) end)))))))))

      abbrev pub opened_bar : Text → Tick → Fields
      opened_bar minute_ts tick = merge (fields_of_tick tick) (
          field "timestamp" (str minute_ts) (
            field "open" tick.price
              (field "high" tick.price (field "low" tick.price (field "close" tick.price end)))))

      -- The loop over the bars, and what follows it where no bar is of the minute
      unfoldable pub enter_tick : Text → Tick → List Fields → Result (List Fields)
      unfolding minute_bucket merged_bar text_eq merge
      enter_tick minute_ts tick [] = ok (opened_bar minute_ts tick ∷ [])
      enter_tick minute_ts tick (previous ∷ bars) =
          let later = enter_tick minute_ts tick bars in
          (do
            bucket ← bucket_of previous
            if text_eq bucket minute_ts
                then (do merged ← merged_bar minute_ts tick previous; ok (merged ∷ bars))
                else (do rest ← later; ok (previous ∷ rest)))

      unfoldable pub upsert_minute_bar : List Fields → Tick → Text → Result (List Fields)
      unfolding minute_bucket is_regular_hk_trading_minute enter_tick sort_by_key
      upsert_minute_bar minute_bars tick trade_date = do
        minute_ts ← minute_bucket tick.timestamp
        if not (is_regular_hk_trading_minute datetimes minute_ts (some trade_date))
            then ok (last_of max_minute_bars minute_bars)
            else (do
              entered ← enter_tick minute_ts tick minute_bars
              sorted ← sort_by_key bucket_of entered
              ok (last_of max_minute_bars sorted))
