-- ===== src/Compute/Rollover.antt =====
-- A state after the beginning of a trading day.
use lynx_monitor.Prelude.{
  Text, String, Bool, true, false, some, [], ◌∷◌, ◌≡◌, refl, ap, sym, ◌∙◌, if◌then◌else◌, string_eq,
  text_eq, text_equality, Result, ok, raise, ◌>>=◌, arith,
}
use lynx_monitor.Value.{Value, str, dict, Fields, field, end, find, assign, has}
use lynx_monitor.Value.Assign.{find-assign}
use lynx_monitor.Runtime.{text_or}
use lynx_monitor.Symbols.{is_empty}
use lynx_monitor.Contracts.{Python}
use lynx_monitor.Bars.{Numbers, merge, or_value}
use lynx_monitor.Compute.{
  snapshot_trade_date, reference_price, rolled_snapshot, rolled, rollover_realtime_session, dict_at,
  day_fields,
}

-- A key that an update has not is what it was.
find-merge : (k : String) (fs gs : Fields) → has gs k ≡ false → find k (merge fs gs) ≡ find k fs
unfolding find merge
find-merge k fs end h = refl
find-merge k fs (field j v gs) h =
    ground (arith, find-assign j k v fs, find-merge k (assign j v fs) gs)

rolled_snapshot-date :
    (trade_date updated_at : Text) (price : Value) (snapshot : Fields)
    → find "tradeDate" (rolled_snapshot trade_date updated_at price snapshot)
      ≡ some (str trade_date)
unfolding rolled_snapshot merge find
rolled_snapshot-date trade_date updated_at price snapshot =
    find-merge "tradeDate" (assign "tradeDate" (str trade_date) snapshot)
      (day_fields trade_date updated_at price) refl
    ∙ find-assign "tradeDate" "tradeDate" (str trade_date) snapshot

rolled-snapshot :
    (trade_date updated_at : Text) (state : Fields) (price : Value)
    → find "snapshot" (rolled trade_date updated_at state price)
      ≡ some (dict (rolled_snapshot trade_date updated_at price (dict_at state "snapshot")))
rolled-snapshot trade_date updated_at state price =
    find-assign "freshness" "snapshot" _ _ ∙ find-assign "snapshot" "snapshot" _ _

module _ (py : Python) (numbers : Numbers) where
  date_of_snapshot :
      (trade_date : Text) (state snapshot : Fields)
      → is_empty trade_date ≡ false
      → find "snapshot" state ≡ some (dict snapshot)
      → find "tradeDate" snapshot ≡ some (str trade_date)
      → snapshot_trade_date py numbers state ≡ trade_date
  unfolding snapshot_trade_date or_value text_or
  date_of_snapshot [] state snapshot h s d = absurd (ground (arith, h))
  date_of_snapshot (c ∷ t) state snapshot h s d = ground (arith, s, d)

  -- The date of a state that was rolled over is the day's.
  rolled_date :
      (trade_date updated_at : Text) (state : Fields) (price : Value)
      → is_empty trade_date ≡ false
      → snapshot_trade_date py numbers (rolled trade_date updated_at state price) ≡ trade_date
  rolled_date trade_date updated_at state price h =
      date_of_snapshot trade_date _
        (rolled_snapshot trade_date updated_at price (dict_at state "snapshot")) h
        (rolled-snapshot trade_date updated_at state price)
        (rolled_snapshot-date trade_date updated_at price (dict_at state "snapshot"))

  abbrev state_or : Fields → Result Fields → Fields
  state_or state (ok s) = s
  state_or state (raise e) = state

  -- What a roll-over gives has the day's date, whatever the date of the state was.
  result_date :
      (same : Bool) (price : Result Value) (trade_date updated_at : Text) (state result : Fields)
      → is_empty trade_date ≡ false
      → (same ≡ true → snapshot_trade_date py numbers state ≡ trade_date)
      → (if same then ok state else (price >>= (λ p. ok (rolled trade_date updated_at state p))))
        ≡ ok result
      → snapshot_trade_date py numbers result ≡ trade_date
  result_date true price trade_date updated_at state result h d r =
      ap (λ s. snapshot_trade_date py numbers (state_or state s)) (sym r) ∙ d refl
  result_date false (ok p) trade_date updated_at state result h d r =
      ap (λ s. snapshot_trade_date py numbers (state_or state s)) (sym r)
      ∙ rolled_date trade_date updated_at state p h
  result_date false (raise e) trade_date updated_at state result h d r = absurd (ground (arith, r))

  -- A day's state is not rolled over again, at whatever time: the result of rolling a state over to a day is what
  -- rolling it over to the same day gives.
  pub rollover_realtime_session_idem :
      (state rolled_state : Fields) (trade_date updated_at later : Text)
      → is_empty trade_date ≡ false
      → rollover_realtime_session py numbers state trade_date updated_at ≡ ok rolled_state
      → rollover_realtime_session py numbers rolled_state trade_date later ≡ ok rolled_state
  unfolding rollover_realtime_session
  rollover_realtime_session_idem state rolled_state trade_date updated_at later h r =
      rw
        ((text_equality.same_iff (snapshot_trade_date py numbers rolled_state) trade_date).1 (
          result_date (text_eq (snapshot_trade_date py numbers state) trade_date)
            (reference_price py numbers (dict_at state "snapshot")) trade_date updated_at state
            rolled_state h
            ((text_equality.same_iff (snapshot_trade_date py numbers state) trade_date).0) r))
        refl
