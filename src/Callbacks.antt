-- ===== src/Callbacks.antt =====
-- backend/beast_market/runtime.py: the normalisation of legacy xtquant callbacks, `normalize_xtquant_callback`, and
-- the parts of their data that it looks for. Conversions to numbers are the parameter `Numbers` of Bars;
-- `Stamps` has what the standard library makes of times. What `float` raises here is a TypeError or a ValueError.
pub mod Legacy
pub mod Queues
pub mod Normalize
pub mod Kinds
use lynx_monitor.Prelude.{
  ℕ, String, Text, Bool, true, false, not, ◌&&◌, ◌||◌, Option, none, some, List, [], ◌∷◌, ◌++◌, any,
  drop, take, length, ◌-◌, leb, eqb, if◌then◌else◌, text_eq, ◌==◌, string_eq, codes, Result, ok,
  raise, ◌>>=◌, fail, value_error,
}
use lynx_monitor.Symbols.{lower, isdigit, hk_suffix, is_empty}
use lynx_monitor.Value.{
  Value, null, bool, int, float, str, list, dict, Items, nil, cons, Fields, field, end, pos, find,
  has, get_value, truthy,
}
use lynx_monitor.Contracts.{Python}
use lynx_monitor.Contracts.Events.{is_text}
use lynx_monitor.Runtime.{text_or}
use lynx_monitor.Bars.{Numbers, zero_int}

-- Times: `is_milliseconds x` is x > 10_000_000_000, the texts are `isoformat(timespec="milliseconds")`.
pub record Stamps : Type 0 where
  pub now : Text
  pub is_milliseconds : Value → Bool
  pub from_seconds : Value → Result Text  -- fromtimestamp(x, tz=utc)
  pub from_milliseconds : Value → Result Text  -- fromtimestamp(x / 1000, tz=utc)
  pub hk_from_milliseconds : Value → Result Text  -- fromtimestamp(x / 1000, tz=utc).astimezone(HK_TZ)
  pub hk_minute_of : Text → Result Text  -- strptime(x, "%Y%m%d%H%M").replace(tzinfo=HK_TZ)

abbrev pub is_null : Value → Bool
is_null null = true
is_null _ = false

unfoldable pub first_present : Fields → List String → Value
unfolding find
first_present content [] = null
first_present content (k ∷ ks) =
    let later = first_present content ks in
    if is_null (get_value content k) then later else get_value content k

abbrev pub has_any : Fields → List String → Bool
has_any content keys = any (has content) keys

unfoldable pub infer_period : Fields → Text
unfolding find
infer_period content =
    if has_any content ("Open" ∷ "open" ∷ "High" ∷ "high" ∷ "Low" ∷ "low" ∷ "Close" ∷ "close" ∷ [])
    then codes "1m"
    else if has_any content ("AskQueues" ∷ "askQueues" ∷ "BidQueues" ∷ "bidQueues" ∷ [])
    then codes "hkbrokerqueueex"
    else if has_any content ("AskPrice" ∷ "askPrice" ∷ "BidPrice" ∷ "bidPrice" ∷ [])
    then codes "l2thousand"
    else codes "hktransaction"

-- key.endswith(".HK")
unfoldable pub ends_with_hk : Text → Bool
unfolding text_eq
ends_with_hk key = leb 3 (length key) && text_eq (drop (length key - 3) key) hk_suffix

abbrev pub first_hk_key : Fields → Text
first_hk_key end = []
first_hk_key (field k v fs) = if ends_with_hk (codes k) then codes k else first_hk_key fs

unfoldable pub infer_symbol_from_data : Value → Text
unfolding ends_with_hk
infer_symbol_from_data (dict fs) = first_hk_key fs
infer_symbol_from_data _ = []

unfoldable pub normalize_legacy_side : Python → Value → Text
unfolding lower text_or text_eq
normalize_legacy_side py value =
    let normalized = lower (text_or py value []) in
    if any (text_eq normalized) (codes "b" ∷ codes "buy" ∷ codes "1" ∷ [])
    then codes "buy"
    else if any (text_eq normalized) (codes "s" ∷ codes "sell" ∷ codes "2" ∷ [])
    then codes "sell"
    else codes "neutral"

-- "T" in value
abbrev pub has_time : Text → Bool
has_time value = any (λ c. eqb c 84) value

-- A text with a time in it
abbrev pub timed_text : Value → Option Text
timed_text (str s) = if has_time s then some s else none
timed_text _ = none

-- value in (None, "")
abbrev pub is_missing : Value → Bool
is_missing null = true
is_missing (str s) = is_empty s
is_missing _ = false

module _ (numbers : Numbers) (stamps : Stamps) where
  abbrev stamp_of : Result Value → Result Text
  stamp_of (raise _) = ok stamps.now
  stamp_of (ok numeric) =
      if stamps.is_milliseconds numeric
      then stamps.from_milliseconds numeric
      else stamps.from_seconds numeric

  unfoldable pub normalize_source_timestamp : Value → Result Text
  normalize_source_timestamp value = elim (timed_text value) [
    | some s ↦ ok s
    | none ↦ if is_missing value then ok stamps.now else stamp_of (numbers.to_float value)
  ]

  -- `explicit_numeric`, which is 0 where there is no number
  abbrev numeric_or_zero : Value → Value
  numeric_or_zero explicit =
      if is_missing explicit
      then zero_int
      else elim (numbers.to_float explicit) [ ok numeric ↦ numeric | raise _ ↦ zero_int ]

  -- The index of a bar, or its collection time
  unfoldable pub index_timestamp : Python → Fields → Result Text
  unfolding first_present text_or isdigit normalize_source_timestamp
  index_timestamp py content =
      let index_text = text_or py (first_present content ("index" ∷ "Index" ∷ [])) [] in
      if leb 12 (length index_text) && isdigit (take 12 index_text)
      then stamps.hk_minute_of (take 12 index_text)
      else normalize_source_timestamp
          (first_present content ("time" ∷ "Time" ∷ "_Collect_time" ∷ "_collect_time" ∷ []))

  unfoldable pub normalize_minute_bar_timestamp : Python → Fields → Result Text
  unfolding first_present index_timestamp
  normalize_minute_bar_timestamp py content =
      let explicit =
        first_present content
          ("bar_ts" ∷ "timestamp" ∷ "Timestamp" ∷ "datetime" ∷ "Datetime" ∷ []) in
      let numeric = numeric_or_zero explicit in
      elim (timed_text explicit) [
        | some s ↦ ok s
        | none ↦
            if stamps.is_milliseconds numeric
            then stamps.hk_from_milliseconds numeric
            else index_timestamp py content
      ]
