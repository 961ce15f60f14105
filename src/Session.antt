-- ===== src/Session.antt =====
-- backend/beast_market/trading_session.py: the minutes of Hong Kong's regular session. `datetime` of the
-- standard library is the parameter `Datetimes`, whose `D` is the type of its values.
pub mod Buckets
use lynx_monitor.Prelude.{
  ℕ, Text, Bool, true, false, not, ◌&&◌, ◌||◌, Option, none, some, [], ◌∷◌, ◌++◌, leb, ltb, eqb,
  ◌+◌, ◌*◌, if◌then◌else◌, text_eq, codes,
}
use lynx_monitor.Symbols.{is_empty}
use lynx_monitor.Freshness.{replace_z}

pub record Datetimes (D : Type 0) : Type 0 where
  pub fromisoformat : Text → Option D
  pub has_tzinfo : D → Bool
  pub replace_tzinfo : D → D  -- by HK_TZ
  pub astimezone : D → D  -- to HK_TZ
  pub date_text : D → Text  -- strftime("%Y%m%d")
  pub hour : D → ℕ
  pub minute : D → ℕ
  pub start_of_minute : D → D  -- replace(second=0, microsecond=0)
  pub isoformat : D → Text

-- (9 * 60 + 30 <= m < 12 * 60) or (13 * 60 <= m <= 16 * 60)
unfoldable pub in_session : ℕ → Bool
in_session m = (leb 570 m && ltb m 720) || (leb 780 m && leb m 960)

module _ {D : Type 0} (datetimes : Datetimes D) where
  unfoldable pub parse_hk_datetime : Text → Option D
  unfolding replace_z
  parse_hk_datetime value = elim (datetimes.fromisoformat (replace_z value)) [
    | none ↦ none
    | some parsed ↦ some (
        datetimes.astimezone
          (if datetimes.has_tzinfo parsed then parsed else datetimes.replace_tzinfo parsed))
  ]

  -- `trade_date` is not None and not empty, and another day
  abbrev pub is_other_day : Option Text → D → Bool
  is_other_day none d = false
  is_other_day (some date) d = not (is_empty date) && not (text_eq (datetimes.date_text d) date)

  unfoldable pub is_regular_hk_trading_minute : Text → Option Text → Bool
  unfolding parse_hk_datetime text_eq in_session
  is_regular_hk_trading_minute value trade_date = elim (parse_hk_datetime value) [
    | none ↦ false
    | some d ↦
        not (is_other_day trade_date d) && in_session (datetimes.hour d * 60 + datetimes.minute d)
  ]

  -- parsed.astimezone(HK_TZ).replace(second=0, microsecond=0)
  abbrev pub hk_minute : D → D
  hk_minute d = datetimes.start_of_minute (datetimes.astimezone d)

  -- `minute_bucket` of symbol_runtime.py
  unfoldable pub minute_bucket : Text → Text
  unfolding parse_hk_datetime
  minute_bucket timestamp = elim (parse_hk_datetime timestamp) [
    | none ↦ timestamp
    | some d ↦ datetimes.isoformat (datetimes.start_of_minute d)
  ]
