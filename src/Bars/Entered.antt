-- ===== src/Bars/Entered.antt =====
-- What a tick does to the bars of a snapshot.
use mathlib.Core.List.{Perm}
use lynx_monitor.Prelude.{
  ◌+◌, ◌-◌, ◌≤◌, Text, true, Option, List, [], ◌≡◌, length, length-drop, refl, arith, ok,
}
use lynx_monitor.Value.{Value, Fields, get_value}
use lynx_monitor.Contracts.{Python}
use lynx_monitor.Runtime.{text_or}
use lynx_monitor.Session.{Datetimes, minute_bucket}
use lynx_monitor.Bars.{
  Numbers, or_value, zero_int, sort_bars, last_of, bars_of, takes_tick, upsert_minute_bar,
  max_minute_bars,
}
use lynx_monitor.Bars.Converted.{
  Converted, returns, float_then, int_then, float-Converted, then-Converted,
}
use lynx_monitor.Bars.Placed.{IsPlaced, place_bar-Converted, length-placed}
use lynx_monitor.Bars.Order.{
  sort_bars-perm, IsSorted, sort_bars-IsSorted, length-sort_bars, drop-IsSorted,
}

module _ {D : Type 0} (py : Python) (numbers : Numbers) (datetimes : Datetimes D)
    (tick : Fields) where
  abbrev pub minute_of : Text
  minute_of = minute_bucket datetimes (text_or py (get_value tick "timestamp") [])

  abbrev pub price_value : Value
  price_value = or_value (or_value (get_value tick "price") (get_value tick "close")) zero_int

  -- The bars after a tick. With the tick's price as a number, the bar of the tick's minute has the tick, or a new one
  -- has it; the bars are then the last 420 of these in the order of their minutes.
  pub record IsEntered (before bars : List Fields) : Type 0 where
    pub price : Value
    pub is_price : numbers.to_float price_value ≡ ok price
    pub placed : List Fields
    pub is_placed : IsPlaced py numbers datetimes minute_of price before placed
    pub sorted : List Fields
    pub same : Perm sorted placed
    pub is_sorted : IsSorted py numbers datetimes sorted
    pub newest : bars ≡ last_of max_minute_bars sorted
    pub in_order : IsSorted py numbers datetimes bars
    pub bounded : (length bars ≤ max_minute_bars) × (length bars ≤ length before + 1)

  last_of-IsEntered :
      (price : Value) (before placed : List Fields)
      → numbers.to_float price_value ≡ ok price
      → IsPlaced py numbers datetimes minute_of price before placed
      → IsEntered before (last_of max_minute_bars (sort_bars py numbers datetimes placed))
  last_of-IsEntered price before placed e p =
      let sorted = sort_bars py numbers datetimes placed in
      let is_sorted = sort_bars-IsSorted py numbers datetimes placed in
      let extra = length sorted - max_minute_bars in
      let dropped = length-drop extra sorted in
      let grown = length-placed py numbers datetimes minute_of price before placed p in
      record {
        price = price;
        is_price = e;
        placed = placed;
        is_placed = p;
        sorted = sorted;
        same = sort_bars-perm py numbers datetimes placed;
        is_sorted = is_sorted;
        newest = refl;
        in_order = drop-IsSorted py numbers datetimes extra sorted is_sorted;
        bounded = (
          omega (arith, dropped),
          omega (arith, dropped, grown, length-sort_bars py numbers datetimes placed),
        );
      }

module _ {D : Type 0} (py : Python) (numbers : Numbers) (datetimes : Datetimes D) where
  -- A tick of a minute of the session is entered, or what a conversion to a number raised is raised. Entered means: the
  -- first bar of the tick's minute is replaced by one that has this minute as its timestamp and the tick's price as its
  -- price and close, and all other bars are kept, or, where no bar is of the minute, such a bar is added to them; of
  -- these bars, sorted by their minute, the last 420 are left.
  pub upsert_minute_bar-Converted :
      (existing : Value) (tick : Fields) (trade_date : Option Text)
      → takes_tick py numbers datetimes (text_or py (get_value tick "timestamp") []) trade_date
        ≡ true
      → Converted
          (List Fields)
          numbers
          (IsEntered py numbers datetimes tick (bars_of py numbers datetimes existing))
          (upsert_minute_bar py numbers datetimes existing tick trade_date)
  unfolding upsert_minute_bar
  upsert_minute_bar-Converted existing tick trade_date taken =
      rw (upsert_minute_bar, taken)
        (then-Converted numbers _ _ (float-Converted numbers _) (λ price e.
          int_then numbers _ _ (λ volume. float_then numbers _ _ (λ turnover.
            then-Converted numbers _ _
              (place_bar-Converted py numbers datetimes _ price volume turnover tick _)
              (λ placed p.
                returns _ (last_of-IsEntered py numbers datetimes tick price _ placed e p))))))
