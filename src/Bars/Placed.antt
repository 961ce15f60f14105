-- ===== src/Bars/Placed.antt =====
-- The loop over the minute bars: the tick changes the bar of its minute, or makes a new one.
use lynx_monitor.Prelude.{
  ◌+◌, ◌≤◌, Text, false, List, [], ◌∷◌, ◌≡◌, length, refl, ◌∙◌, any, some, String, ◌==◌, string_eq,
  Bool-cases, text_equality, inl, inr, arith, text_eq,
}
use lynx_monitor.Value.{Value, str, Fields, find, assign, get_value}
use lynx_monitor.Contracts.{Python}
use lynx_monitor.Runtime.{is_true}
use lynx_monitor.Session.{Datetimes}
use lynx_monitor.Bars.{
  Numbers, priced, with_range, merge, bucket_of, updated_bar, first_bar, place_bar,
}
use lynx_monitor.Value.Assign.{find-assign}
use lynx_monitor.Bars.Converted.{
  returns, Converted, float_then, int_then, if_Converted, then-Converted,
}

-- A bar with the tick: it has the tick's minute and its price.
pub record HasTick (minute_ts : Text) (price : Value) (bar : Fields) : Type 0 where
  pub timestamp : find "timestamp" bar ≡ some (str minute_ts)
  pub price_set : find "price" bar ≡ some price
  pub close_set : find "close" bar ≡ some price

module _ {D : Type 0} (py : Python) (numbers : Numbers) (datetimes : Datetimes D) (minute_ts : Text)
    (price : Value) where
  priced-HasTick :
      (bar : Fields) → HasTick minute_ts price (priced py numbers datetimes minute_ts price bar)
  priced-HasTick bar = record {
    timestamp =
        find-assign "close" "timestamp" _ _
        ∙ find-assign "price" "timestamp" _ _
        ∙ find-assign "timestamp" "timestamp" _ _;
    price_set = find-assign "close" "price" _ _ ∙ find-assign "price" "price" _ _;
    close_set = find-assign "close" "close" _ _;
  }

  -- A key that a bar's range and volume do not write
  find-with_range :
      (k : String) (start high low volume turnover : Value) (bar : Fields)
      → any (λ j. j == k) ("turnover" ∷ "volume" ∷ "low" ∷ "high" ∷ "open" ∷ []) ≡ false
      → find k (with_range py numbers datetimes start high low volume turnover bar) ≡ find k bar
  unfolding with_range
  find-with_range k start high low volume turnover bar h =
      let low_bar = assign "low" low (assign "high" high (assign "open" start bar)) in
      ground (
        arith,
        find-assign "turnover" k turnover (assign "volume" volume low_bar),
        find-assign "volume" k volume low_bar,
        find-assign "low" k low (assign "high" high (assign "open" start bar)),
        find-assign "high" k high (assign "open" start bar),
        find-assign "open" k start bar,
      )

  with_range-HasTick :
      (start high low volume turnover : Value) (bar : Fields)
      → HasTick minute_ts price bar
      → HasTick minute_ts price (with_range py numbers datetimes start high low volume turnover bar)
  with_range-HasTick start high low volume turnover bar h = record {
    timestamp = find-with_range "timestamp" start high low volume turnover bar refl ∙ h.timestamp;
    price_set = find-with_range "price" start high low volume turnover bar refl ∙ h.price_set;
    close_set = find-with_range "close" start high low volume turnover bar refl ∙ h.close_set;
  }

  -- The fields of a bar of a minute that has none
  first-HasTick :
      (start high low volume turnover : Value) (tick : Fields)
      → HasTick minute_ts price (
          assign "turnover" turnover (
            assign "volume" volume (
              assign "close" price (
                assign "low" low (
                  assign "high" high (
                    assign "open" start
                      (assign "price" price (assign "timestamp" (str minute_ts) tick))))))))
  first-HasTick start high low volume turnover tick = record {
    timestamp =
        find-assign "turnover" "timestamp" _ _
        ∙ find-assign "volume" "timestamp" _ _
        ∙ find-assign "close" "timestamp" _ _
        ∙ find-assign "low" "timestamp" _ _
        ∙ find-assign "high" "timestamp" _ _
        ∙ find-assign "open" "timestamp" _ _
        ∙ find-assign "price" "timestamp" _ _
        ∙ find-assign "timestamp" "timestamp" _ _;
    price_set =
        find-assign "turnover" "price" _ _
        ∙ find-assign "volume" "price" _ _
        ∙ find-assign "close" "price" _ _
        ∙ find-assign "low" "price" _ _
        ∙ find-assign "high" "price" _ _
        ∙ find-assign "open" "price" _ _
        ∙ find-assign "price" "price" _ _;
    close_set =
        find-assign "turnover" "close" _ _
        ∙ find-assign "volume" "close" _ _
        ∙ find-assign "close" "close" _ _;
  }

module _ {D : Type 0} (py : Python) (numbers : Numbers) (datetimes : Datetimes D) (minute_ts : Text)
    (price : Value) where
  -- The bars with the tick: the first bar of the tick's minute is replaced by one with the tick, and all others stay
  -- where they are; where no bar is of the minute, one with the tick is added at the end.
  pub data IsPlaced : List Fields → List Fields → Type 0 where
    added : (ticked : Fields) → HasTick minute_ts price ticked → IsPlaced [] (ticked ∷ [])
    replaced :
        (bar ticked : Fields) (bars : List Fields)
        → bucket_of py numbers datetimes bar ≡ minute_ts
        → HasTick minute_ts price ticked
        → IsPlaced (bar ∷ bars) (ticked ∷ bars)
    passed :
        (bar : Fields) (bars placed : List Fields)
        → text_eq (bucket_of py numbers datetimes bar) minute_ts ≡ false
        → IsPlaced bars placed
        → IsPlaced (bar ∷ bars) (bar ∷ placed)

  -- There is at most one bar more.
  pub length-placed :
      (bars placed : List Fields) → IsPlaced bars placed → length placed ≤ length bars + 1
  length-placed _ _ (added ticked h) = omega arith
  length-placed _ _ (replaced bar ticked bars e h) = omega arith
  length-placed _ _ (passed bar bars placed e p) = omega (arith, length-placed bars placed p)

module _ {D : Type 0} (py : Python) (numbers : Numbers) (datetimes : Datetimes D) (minute_ts : Text)
    (price volume turnover : Value) (tick : Fields) where
  first_bar-Converted :
      Converted Fields numbers
        (HasTick minute_ts price)
        (first_bar py numbers datetimes minute_ts price volume turnover tick)
  unfolding first_bar
  first_bar-Converted = float_then numbers _ _ (λ start. float_then numbers _ _ (λ high.
      float_then numbers _ _ (λ low.
        returns _ (
          first-HasTick py numbers datetimes minute_ts price start high low volume turnover tick))))

  updated_bar-Converted :
      (bar : Fields)
      → Converted Fields numbers
          (HasTick minute_ts price)
          (updated_bar py numbers datetimes minute_ts price volume turnover tick bar)
  unfolding updated_bar
  updated_bar-Converted bar =
      let ticked = priced-HasTick py numbers datetimes minute_ts price (merge bar tick) in
      float_then numbers _ _ (λ previous_price. float_then numbers _ _ (λ previous_high.
        float_then numbers _ _ (λ previous_low.
          if_Converted numbers (is_true (get_value tick "replace"))
            (float_then numbers _ _ (λ start. float_then numbers _ _ (λ high.
              float_then numbers _ _ (λ low.
                returns _
                  (with_range-HasTick py numbers datetimes minute_ts price _ _ _ _ _ _ ticked)))))
            (float_then numbers _ _ (λ start. int_then numbers _ _ (λ old_volume.
              float_then numbers _ _ (λ old_turnover.
                returns _ (
                  with_range-HasTick py numbers datetimes minute_ts price _ _ _ _ _ _ ticked))))))))

  pub place_bar-Converted :
      (bars : List Fields)
      → Converted
          (List Fields)
          numbers
          (IsPlaced py numbers datetimes minute_ts price bars)
          (place_bar py numbers datetimes minute_ts price volume turnover tick bars)
  unfolding place_bar
  place_bar-Converted [] =
      then-Converted numbers _ _ first_bar-Converted (λ bar h. returns _ (added bar h))
  place_bar-Converted (bar ∷ bars) =
      elim (Bool-cases (text_eq (bucket_of py numbers datetimes bar) minute_ts)) [
        | inl same ↦ rw same (
            then-Converted numbers _ _ (updated_bar-Converted bar) (λ ticked h.
              returns _ (replaced bar ticked bars ((text_equality.same_iff _ _).0 same) h)))
        | inr other ↦ rw other (
            then-Converted numbers _ _ (place_bar-Converted bars)
              (λ placed p. returns _ (passed bar bars placed other p)))
      ]
