-- ===== src/Compute/Confirmed.antt =====
-- backend/beast_market/pipeline.py: confirmed minute bars, and the snapshot that is made of the bars. The tests of numbers and
-- the operations that `Numbers` lacks are the parameter `Arithmetic`.
use lynx_monitor.Prelude.{
  Text, String, Bool, true, false, not, ◌||◌, Option, none, some, List, [], ◌∷◌, ◌++◌,
  if◌then◌else◌, text_eq, codes, Result, ok, raise, ◌>>=◌, string_eq,
}
use lynx_monitor.Symbols.{is_empty}
use lynx_monitor.Value.{Value, null, bool, str, dict, Fields, field, end, find, item, get_value}
use lynx_monitor.Contracts.{Python}
use lynx_monitor.Runtime.{text_of, text_or}
use lynx_monitor.Session.{Datetimes, is_regular_hk_trading_minute}
use lynx_monitor.Bars.{Numbers, or_value, merge, last_of, max_minute_bars, zero_int}
use lynx_monitor.Compute.{zero_float}
use lynx_monitor.Compute.Minutes.{minute_bucket, bucket_or, sort_by_key}

pub record Arithmetic : Type 0 where
  pub numbers : Numbers
  pub minus : Value → Value → Value
  pub times : Value → Value → Value
  pub percent : Value → Value → Value  -- a / b * 100
  pub greater : Value → Value → Bool
  pub at_least : Value → Value → Bool

-- value not in (None, "")
abbrev pub is_given : Value → Bool
is_given null = false
is_given (str []) = false
is_given _ = true

-- bar.get(k) or … or other
abbrev pub first_of : Fields → List String → Value → Value
first_of bar [] other = other
first_of bar (k ∷ ks) other = or_value (get_value bar k) (first_of bar ks other)

module _ (arithmetic : Arithmetic) where
  -- The value of a key as a float, if it has one
  abbrev pub float_at : Fields → String → Option Value
  float_at data_fields key =
      let value = get_value data_fields key in
      if not (is_given value)
      then none
      else elim (arithmetic.numbers.to_float value) [ ok v ↦ some v | raise e ↦ none ]

  unfoldable pub first_float : Fields → List String → Option Value
  unfolding find
  first_float data_fields [] = none
  first_float data_fields (key ∷ keys) =
      let rest = first_float data_fields keys in
      elim (float_at data_fields key) [ some v ↦ some v | none ↦ rest ]

  -- first_float(…) or other
  abbrev pub float_or_else : Option Value → Value → Value
  float_or_else none other = other
  float_or_else (some v) other = or_value v other

  -- "up", "down" or "flat"
  abbrev pub direction_of : (price previous_price : Value) → Text
  direction_of price previous_price =
      if arithmetic.greater price previous_price
      then codes "up"
      else if arithmetic.greater previous_price price
      then codes "down"
      else codes "flat"

  module _ (py : Python) where
    abbrev pub timestamp_of : (raw_event payload : Fields) → Text
    timestamp_of raw_event payload =
        text_or py
          (or_value (get_value payload "timestamp")
            (or_value (get_value payload "bar_ts") (get_value raw_event "source_ts")))
          []

    -- The bar at a close that is there
    abbrev pub bar_at : Text → Value → Fields → Result Fields
    bar_at timestamp close payload = do
      volume ←
          arithmetic.numbers.to_int
            (float_or_else (first_float payload ("volume" ∷ "qty" ∷ "quantity" ∷ [])) zero_int)
      ok (
          field "timestamp" (str timestamp) (
            field "price" close (
              field "open" (float_or_else (first_float payload ("open" ∷ [])) close) (
                field "high" (float_or_else (first_float payload ("high" ∷ [])) close) (
                  field "low" (float_or_else (first_float payload ("low" ∷ [])) close) (
                    field "close" close (
                      field "volume" volume (
                        field "turnover"
                          (float_or_else (first_float payload ("turnover" ∷ "amount" ∷ []))
                            zero_float)
                          (field "direction"
                            (str (text_or py (get_value payload "direction") (codes "flat")))
                            (field "is_confirmed_minute_bar" (bool true)
                              (field "replace" (bool true) end)))))))))))

    unfoldable pub minute_bar_from_payload : Fields → Result (Option Fields)
    unfolding find first_float or_value text_or
    minute_bar_from_payload raw_event = elim (get_value raw_event "payload") [
      | dict payload ↦
          elim (first_float payload ("close" ∷ "price" ∷ "last_price" ∷ "lastPrice" ∷ [])) [
            | none ↦ ok none
            | some close ↦
                if arithmetic.at_least zero_int close || is_empty (timestamp_of raw_event payload)
                then ok none
                else (do bar ← bar_at (timestamp_of raw_event payload) close payload; ok (some bar))
          ]
      | _ ↦ ok none
    ]

    module _ {D : Type 0} (datetimes : Datetimes D) (is_after : D → D → Bool) where
      abbrev pub float_of : Fields → List String → Result Value
      float_of bar keys = arithmetic.numbers.to_float (first_of bar keys zero_int)

      abbrev pub normalized_bar : Text → Fields → Result Fields
      normalized_bar minute_ts bar = do
        price ← float_of bar ("price" ∷ "close" ∷ [])
        start ← float_of bar ("open" ∷ "price" ∷ "close" ∷ [])
        high ← float_of bar ("high" ∷ "price" ∷ "close" ∷ [])
        low ← float_of bar ("low" ∷ "price" ∷ "close" ∷ [])
        close ← float_of bar ("close" ∷ "price" ∷ [])
        volume ← arithmetic.numbers.to_int (or_value (get_value bar "volume") zero_int)
        turnover ← arithmetic.numbers.to_float (or_value (get_value bar "turnover") zero_int)
        ok (
            merge bar (
              field "timestamp" (str minute_ts) (
                field "price" price (
                  field "open" start (
                    field "high" high (
                      field "low" low (
                        field "close" close (
                          field "volume" volume (
                            field "turnover" turnover (
                              field "is_confirmed_minute_bar" (bool true)
                                (field "replace" (bool true) end)))))))))))

      -- The loop over the bars; whether a bar was replaced comes with them
      unfoldable pub replace_bars : Text → Fields → List Fields → Result (List Fields × Bool)
      unfolding minute_bucket text_eq find text_or
      replace_bars minute_ts normalized [] = ok ([], false)
      replace_bars minute_ts normalized (previous ∷ bars) = do
        bucket ← bucket_or datetimes is_after py previous
        (rest, replaced) ← replace_bars minute_ts normalized bars
        ok (
            if text_eq bucket minute_ts
            then (normalized ∷ rest, true)
            else (previous ∷ rest, replaced))

      abbrev pub with_bar : Fields → List Fields × Bool → List Fields
      with_bar normalized (bars, replaced) = if replaced then bars else bars ++ (normalized ∷ [])

      unfoldable pub upsert_confirmed_minute_bar :
          List Fields → Fields → Text → Result (List Fields)
      unfolding minute_bucket is_regular_hk_trading_minute find or_value merge replace_bars
          sort_by_key
      upsert_confirmed_minute_bar minute_bars bar trade_date = do
        timestamp ← item bar "timestamp"
        minute_ts ← minute_bucket datetimes is_after (text_of py timestamp)
        if not (is_regular_hk_trading_minute datetimes minute_ts (some trade_date))
            then ok (last_of max_minute_bars minute_bars)
            else (do
              normalized ← normalized_bar minute_ts bar
              replaced ← replace_bars minute_ts normalized minute_bars
              sorted ← sort_by_key (bucket_or datetimes is_after py) (with_bar normalized replaced)
              ok (last_of max_minute_bars sorted))
