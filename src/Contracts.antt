-- ===== src/Contracts.antt =====
-- backend/beast_market/contracts.py: the wire contract of events and terminal messages.
-- `Python` holds what the standard library does with texts: `str(value)` in an error message, and
-- whether `datetime.fromisoformat` accepts a text. `now` and `event_id` are the values that `now_iso()`
-- and `uuid4()` give the caller of a `make_*` function.
pub mod Events
pub mod Validated
use Prim.Native.Nat.{◌^◌}
use lynx_monitor.Prelude.{
  ℕ, zero, suc, String, Text, Bool, true, false, not, ◌&&◌, ◌||◌, Option, none, some, List, [], ◌∷◌,
  ◌++◌, any, select, if◌then◌else◌, ◌==◌, eqb, nat_eq, string_eq, text_equality, text_eq, Result,
  ok, raise, ◌>>=◌, fail, contract_error, other_error, codes,
}
use lynx_monitor.Symbols.{is_canonical, strip, is_empty}
use lynx_monitor.Value.{
  ℤ, pos, negsuc, Float, nan, infinite, finite, Value, null, bool, int, float, str, list, dict,
  Items, nil, cons, Fields, end, field, find, has, item, is_dict, is_list, fields_of, items_of,
  truthy,
}

pub record Python : Type 0 where
  pub format : Value → Text
  pub fromisoformat : Text → Bool

-- str(value) of a value that is present
abbrev pub text_of : Python → Value → Text
text_of py (str s) = s
text_of py v = py.format v

abbrev pub raw_topic : String
raw_topic = "raw_market_events_v1"

abbrev pub processed_topic : String
processed_topic = "processed_market_events_v1"

abbrev pub terminal_message_types : List Text
terminal_message_types =
    codes "snapshot"
    ∷ codes "tick_realtime"
    ∷ codes "alert_realtime"
    ∷ codes "queue_realtime"
    ∷ codes "holding_name_click_response"
    ∷ []

abbrev pub raw_event_kinds : List Text
raw_event_kinds = codes "tick" ∷ codes "broker_queue" ∷ codes "l2_order_book" ∷ []

abbrev pub processed_event_result_types : List Text
processed_event_result_types =
    codes "snapshot" ∷ codes "big_trade_alert" ∷ codes "broker_queue" ∷ codes "l2_order_book" ∷ []

-- `if not condition: raise ContractError(message)`
abbrev pub require : Bool → Text → Result (Unit {0})
require true message = ok tt
require false message = fail contract_error message

abbrev pub joined : List String → Text
joined [] = []
joined (k ∷ []) = codes k
joined (k ∷ j ∷ ks) = codes k ++ (codes ", " ++ joined (j ∷ ks))

abbrev pub is_nil {ℓ} : {A : Type ℓ} → List A → Bool
is_nil [] = true
is_nil (x ∷ xs) = false

-- value in {"…", …}: a list or a dict cannot be hashed
unfoldable pub member : Value → List Text → Result Bool
member (str s) texts = ok (any (text_eq s) texts)
member (list _) texts = fail other_error (codes "unhashable type: 'list'")
member (dict _) texts = fail other_error (codes "unhashable type: 'dict'")
member _ texts = ok false

-- value == 1, which holds of True and 1.0 too
unfoldable pub equals_one : Value → Bool
equals_one (bool b) = b
equals_one (int (pos n)) = eqb n 1
equals_one (float (finite (pos m) k)) = eqb m (2 ^ k)
equals_one _ = false

-- math.isfinite of a number; an int too large for a float raises an OverflowError, which is left out.
unfoldable pub is_finite_number : Value → Bool
is_finite_number (int _) = true
is_finite_number (float (finite _ _)) = true
is_finite_number _ = false

-- value <= 0 and value < 0, of a finite number
unfoldable pub is_non_positive : Value → Bool
is_non_positive (int (pos zero)) = true
is_non_positive (int (negsuc _)) = true
is_non_positive (float (finite (pos zero) _)) = true
is_non_positive (float (finite (negsuc _) _)) = true
is_non_positive _ = false

unfoldable pub is_negative : Value → Bool
is_negative (int (negsuc _)) = true
is_negative (float (finite (negsuc _) _)) = true
is_negative _ = false

-- isinstance(value, int) and not isinstance(value, bool) and value >= 1
unfoldable pub is_positive_int : Value → Bool
is_positive_int (int (pos (suc n))) = true
is_positive_int _ = false

-- isinstance(value, str) and value.strip()
unfoldable pub is_non_empty_string : Value → Bool
unfolding strip
is_non_empty_string (str s) = not (is_empty (strip s))
is_non_empty_string _ = false

unfoldable pub is_canonical_value : Value → Bool
unfolding is_canonical
is_canonical_value (str s) = is_canonical s
is_canonical_value _ = false

-- "T" in value
unfoldable pub has_t : Text → Bool
has_t = any (eqb b'T')

abbrev pub all_dicts : Items → Bool
all_dicts nil = true
all_dicts (cons v vs) = is_dict v && all_dicts vs

unfoldable pub require_payload_keys : Fields → List String → Result (Unit {0})
unfolding find
require_payload_keys payload keys =
    let missing = select (λ k. not (has payload k)) keys in
    require (is_nil missing) (codes "missing required payload fields: " ++ joined missing)

unfoldable pub require_snapshot_payload : Fields → Result (Unit {0})
unfolding require_payload_keys find
require_snapshot_payload payload = do
  _ ←
      require_payload_keys payload (
        "snapshot" ∷ "minute_bars" ∷ "alerts" ∷ "broker_queue" ∷ "ccass_holdings" ∷ "freshness"
        ∷ [])
  snapshot ← item payload "snapshot"
  _ ← require (is_dict snapshot) (codes "snapshot payload snapshot must be an object")
  minute_bars ← item payload "minute_bars"
  _ ← require (is_list minute_bars) (codes "snapshot payload minute_bars must be an array")
  alerts ← item payload "alerts"
  _ ← require (is_list alerts) (codes "snapshot payload alerts must be an array")
  holdings ← item payload "ccass_holdings"
  _ ← require (is_list holdings) (codes "snapshot payload ccass_holdings must be an array")
  freshness ← item payload "freshness"
  _ ← require (is_dict freshness) (codes "snapshot payload freshness must be an object")
  queue ← item payload "broker_queue"
  _ ←
      require (is_dict queue && has (fields_of queue) "ask" && has (fields_of queue) "bid")
        (codes "snapshot payload broker_queue must contain ask and bid")
  ask ← item (fields_of queue) "ask"
  bid ← item (fields_of queue) "bid"
  require (is_list ask && is_list bid)
      (codes "snapshot payload broker_queue ask and bid must be arrays")

-- `require_payload_keys(payload, key)` and the test that the value is an object
unfoldable pub require_object : Fields → String → Text → Result (Unit {0})
unfolding require_payload_keys find
require_object payload key message = do
  _ ← require_payload_keys payload (key ∷ [])
  value ← item payload key
  require (is_dict value) message

module _ (py : Python) where
  unfoldable pub is_iso_datetime : Value → Bool
  unfolding has_t
  is_iso_datetime (str s) = has_t s && py.fromisoformat s
  is_iso_datetime _ = false

  -- The loops over the keys of `validate_event_envelope`.
  unfoldable pub each_non_empty : Fields → List String → Result (Unit {0})
  unfolding is_non_empty_string find
  each_non_empty message [] = ok tt
  each_non_empty message (key ∷ keys) = do
    value ← item message key
    _ ← require (is_non_empty_string value) (codes key ++ codes " must be a non-empty string")
    each_non_empty message keys

  unfoldable pub each_iso_datetime : Fields → List String → Result (Unit {0})
  unfolding is_iso_datetime find
  each_iso_datetime message [] = ok tt
  each_iso_datetime message (key ∷ keys) = do
    value ← item message key
    _ ← require (is_iso_datetime value) (codes key ++ codes " must be an ISO-8601 datetime string")
    each_iso_datetime message keys

  unfoldable pub validate_event_envelope : Fields → List String → Result (Unit {0})
  unfolding find equals_one is_positive_int each_non_empty is_canonical_value each_iso_datetime
  validate_event_envelope message extra_required = do
    let required =
        "schema_version" ∷ "event_id" ∷ "symbol" ∷ "source" ∷ "source_ts" ∷ "ingest_ts" ∷ "seq"
        ∷ "payload" ∷ extra_required
    let missing = select (λ k. not (has message k)) required
    _ ← require (is_nil missing) (codes "missing required envelope fields: " ++ joined missing)
    version ← item message "schema_version"
    _ ← require (equals_one version) (codes "unsupported schema_version: " ++ py.format version)
    payload ← item message "payload"
    _ ← require (is_dict payload) (codes "payload must be an object")
    seq ← item message "seq"
    _ ← require (is_positive_int seq) (codes "seq must be a positive integer")
    _ ← each_non_empty message ("event_id" ∷ "source" ∷ [])
    symbol ← item message "symbol"
    _ ← require (is_canonical_value symbol) (codes "symbol must use canonical format 00700.HK")
    each_iso_datetime message ("source_ts" ∷ "ingest_ts" ∷ [])
