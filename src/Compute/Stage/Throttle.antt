-- ===== src/Compute/Stage/Throttle.antt =====
-- When the forming bar of a symbol is published again.
use lynx_monitor.Prelude.{
  Text, Bool, true, false, not, ◌||◌, ◌≡◌, refl, ap, sym, ◌∙◌, if◌then◌else◌, text_eq,
  text_equality, Result, ok, arith,
}
use lynx_monitor.Prelude.Dict.{get, get-put}
use lynx_monitor.Symbols.{is_empty}
use lynx_monitor.Value.{Value}
use lynx_monitor.Contracts.{Python}
use lynx_monitor.Compute.Confirmed.{Arithmetic}
use lynx_monitor.Compute.Minutes.{minute_bucket, iso_timestamp_seconds}
use lynx_monitor.Compute.Stage.{Job, proceed}
use lynx_monitor.Compute.Stage.Handlers.{Services, latest_bar_write_interval_seconds}
use lynx_monitor.Compute.Stage.Ticks.{is_due, flushed, flush_at, should_publish_latest_bar}

module _ {B K D : Type 0} (py : Python) (arithmetic : Arithmetic) (services : Services B K D)
    (symbol : Text) where
  abbrev pub seconds_of : Text → Value
  seconds_of timestamp =
      iso_timestamp_seconds services.datetimes services.is_after services.seconds services.now
        timestamp

  abbrev pub bucket_of : Text → Result Text
  bucket_of timestamp = minute_bucket services.datetimes services.is_after timestamp

  abbrev pub IsAt : Text → Text → Type 0
  IsAt minute_ts timestamp = (is_empty timestamp ≡ false) × (bucket_of timestamp ≡ ok minute_ts)

  should_publish-flush_at :
      (timestamp minute_ts : Text) (j : Job B K)
      → IsAt minute_ts timestamp
      → should_publish_latest_bar py arithmetic services symbol timestamp j
        ≡ flush_at py arithmetic services symbol (seconds_of timestamp) minute_ts j
  unfolding should_publish_latest_bar proceed
  should_publish-flush_at timestamp minute_ts j (filled, e) = rw (filled, e) refl

  -- Another minute, or the interval has passed
  abbrev pub is_later : (minute_ts timestamp next_minute next_timestamp : Text) → Bool
  is_later minute_ts timestamp next_minute next_timestamp =
      not (text_eq minute_ts next_minute)
      || arithmetic.at_least (arithmetic.minus (seconds_of next_timestamp) (seconds_of timestamp))
          latest_bar_write_interval_seconds

  flush_at-flushed :
      (minute_ts next_minute : Text) (now_value next_value : Value) (j : Job B K)
      → (flush_at py arithmetic services symbol next_value next_minute
          (flushed py arithmetic services symbol minute_ts now_value j)).0
        ≡ ok (
            not (text_eq minute_ts next_minute)
            || arithmetic.at_least
                (arithmetic.minus next_value now_value)
                latest_bar_write_interval_seconds)
  flush_at-flushed minute_ts next_minute now_value next_value j = ground (
    arith,
    get-put j.stage.latest_bar_flushed_minute_by_symbol symbol symbol minute_ts,
    get-put j.stage.latest_bar_flush_at_by_symbol symbol symbol now_value,
    text_equality.same_iff symbol symbol,
  )

  abbrev flush_if : Text → Value → Job B K → Bool → Result Bool × Job B K
  flush_if minute_ts now_value j due =
      if due
      then (ok true, flushed py arithmetic services symbol minute_ts now_value j)
      else (ok false, j)

  flush_if_lem :
      (minute_ts : Text) (now_value : Value) (j : Job B K) (due : Bool)
      → (flush_if minute_ts now_value j due).0 ≡ ok true
      → (flush_if minute_ts now_value j due).1
        ≡ flushed py arithmetic services symbol minute_ts now_value j
  flush_if_lem minute_ts now_value j true h = refl
  flush_if_lem minute_ts now_value j false h = absurd (ground (arith, h))

  flush_at_lem :
      (minute_ts : Text) (now_value : Value) (j : Job B K)
      → (flush_at py arithmetic services symbol now_value minute_ts j).0 ≡ ok true
      → (flush_at py arithmetic services symbol now_value minute_ts j).1
        ≡ flushed py arithmetic services symbol minute_ts now_value j
  flush_at_lem minute_ts now_value j h =
      flush_if_lem minute_ts now_value j
        (is_due py arithmetic services (get j.stage.latest_bar_flushed_minute_by_symbol symbol)
          (get j.stage.latest_bar_flush_at_by_symbol symbol) minute_ts now_value)
        h

  -- After a call for a timestamp that let the forming bar of a symbol be published, the call for the symbol that comes
  -- immediately after lets it be published exactly if its timestamp lies in another minute or the interval has passed
  -- between the two timestamps. Both timestamps are valid.
  pub should_publish-should_publish :
      (minute_ts timestamp next_minute next_timestamp : Text) (j : Job B K)
      → IsAt minute_ts timestamp
      → IsAt next_minute next_timestamp
      → (should_publish_latest_bar py arithmetic services symbol timestamp j).0 ≡ ok true
      → (should_publish_latest_bar py arithmetic services symbol next_timestamp
          (should_publish_latest_bar py arithmetic services symbol timestamp j).1).0
        ≡ ok (is_later minute_ts timestamp next_minute next_timestamp)
  should_publish-should_publish minute_ts timestamp next_minute next_timestamp j at next h =
      let before = should_publish-flush_at timestamp minute_ts j at in
      let left =
        ap (λ r. r.1) before
        ∙ flush_at_lem minute_ts (seconds_of timestamp) j (ap (λ r. r.0) (sym before) ∙ h) in
      ap (λ j'. (should_publish_latest_bar py arithmetic services symbol next_timestamp j').0) left
      ∙ ap (λ r. r.0)
          (should_publish-flush_at next_timestamp next_minute
            (flushed py arithmetic services symbol minute_ts (seconds_of timestamp) j) next)
      ∙ flush_at-flushed minute_ts next_minute (seconds_of timestamp) (seconds_of next_timestamp) j
