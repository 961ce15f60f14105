-- ===== src/Callbacks/Kinds.antt =====
-- What the collector is given of a callback.
use lynx_monitor.Prelude.{
  Text, Bool, true, false, ◌≡◌, refl, Option, none, some, any, if◌then◌else◌, text_eq, codes,
  Result, ok, raise, Error, ◌>>=◌, Result-cases, inl, inr, Option-cases,
}
use lynx_monitor.Symbols.{normalize_subscription_symbol}
use lynx_monitor.Symbols.Normal.{normalize_subscription_symbol_idem}
use lynx_monitor.Value.{Value, str, list, dict, field, end, Fields, find, get_value}
use lynx_monitor.Contracts.{Python, raw_event_kinds}
use lynx_monitor.Runtime.{as_dict}
use lynx_monitor.Bars.{Numbers, or_value}
use lynx_monitor.Callbacks.{Stamps}
use lynx_monitor.Callbacks.Legacy.{normalize_legacy_minute_bar, normalize_legacy_tick}
use lynx_monitor.Callbacks.Queues.{normalize_legacy_broker_queue, normalize_legacy_l2_order_book}
use lynx_monitor.Callbacks.Normalize.{
  callback_period, callback_raw_symbol, content_of, minute_periods, tick_periods, broker_periods,
  book_periods, collected_at, get_text, callback_event, normalize_content, normalize_found,
  normalize_callback_fields, normalize_xtquant_callback,
}

-- An event of one of the kinds of raw events, of a symbol that is normalised, with a payload that is an object
pub record IsRawInput (event : Fields) : Type 0 where
  pub kind : Text
  pub symbol : Text
  pub payload : Fields
  pub kind_is : get_value event "kind" ≡ str kind
  pub kind_known : any (text_eq kind) raw_event_kinds ≡ true
  pub symbol_is : get_value event "symbol" ≡ str symbol
  pub symbol_normal : normalize_subscription_symbol symbol ≡ ok symbol
  pub payload_is : get_value event "payload" ≡ dict payload

-- Every event that comes out is such an event.
pub data Yields : Result Fields → Type 0 where
  event : (e : Fields) → IsRawInput e → Yields (ok e)
  error : (e : Error) → Yields (raise e)

then-Yields :
    {A : Type 0} (r : Result A) (f : A → Result Fields)
    → ((a : A) → Yields (f a))
    → Yields (r >>= f)
then-Yields (ok a) f h = h a
then-Yields (raise e) f h = error e

if_Yields : (b : Bool) {r s : Result Fields} → Yields r → Yields s → Yields (if b then r else s)
if_Yields true h k = h
if_Yields false h k = k

made-IsRawInput :
    (kind symbol period source_ts : Text) (payload : Fields)
    → any (text_eq kind) raw_event_kinds ≡ true
    → normalize_subscription_symbol symbol ≡ ok symbol
    → Yields (ok (callback_event kind symbol period source_ts payload))
unfolding find
made-IsRawInput kind symbol period source_ts payload known normal = event _ (record {
  kind = kind;
  symbol = symbol;
  payload = payload;
  kind_is = refl;
  kind_known = known;
  symbol_is = refl;
  symbol_normal = normal;
  payload_is = refl;
})

module _ (py : Python) (numbers : Numbers) (times : Value → Value → Value) (stamps : Stamps) where
  normalize_content-Yields :
      (symbol period : Text) (content : Fields)
      → normalize_subscription_symbol symbol ≡ ok symbol
      → Yields (normalize_content py numbers times stamps symbol period content)
  unfolding normalize_content
  normalize_content-Yields symbol period content normal =
      if_Yields (any (text_eq period) minute_periods)
        (then-Yields (normalize_legacy_minute_bar py numbers times stamps content) _
          (λ bar. made-IsRawInput (codes "tick") symbol (codes "1m") bar.0 bar.1 refl normal))
        (if_Yields (any (text_eq period) tick_periods)
          (then-Yields (normalize_legacy_tick py numbers times stamps content) _ (λ tick.
            made-IsRawInput (codes "tick") symbol (codes "hktransaction") tick.0 tick.1 refl
              normal))
          (if_Yields (any (text_eq period) broker_periods)
            (then-Yields (collected_at py numbers times stamps content) _ (λ source_ts.
              then-Yields (normalize_legacy_broker_queue py numbers times stamps content) _
                (λ entries.
                  made-IsRawInput (codes "broker_queue") symbol
                    (if text_eq period (codes "brokerqueue2")
                      then period
                      else codes "hkbrokerqueueex")
                    source_ts
                    (field "side" (or_value (get_value content "Side") (get_value content "side"))
                      (field "entries" (list entries) end))
                    refl normal)))
            (if_Yields (any (text_eq period) book_periods)
              (then-Yields (collected_at py numbers times stamps content) _ (λ source_ts.
                then-Yields
                  (normalize_legacy_l2_order_book py numbers times stamps (get_text symbol content)
                    content)
                  _
                  (λ book.
                    made-IsRawInput (codes "l2_order_book") symbol period source_ts book refl
                      normal)))
              (error _))))

  normalize_found-Yields :
      (symbol period : Text) (found : Option Fields)
      → normalize_subscription_symbol symbol ≡ ok symbol
      → Yields (normalize_found py numbers times stamps symbol period found)
  normalize_found-Yields symbol period none normal = error _
  normalize_found-Yields symbol period (some content) normal =
      normalize_content-Yields symbol _ content normal

  normalised-Yields :
      (raw : Text) (f : Text → Result Fields)
      → ((s : Text) → normalize_subscription_symbol s ≡ ok s → Yields (f s))
      → Yields (normalize_subscription_symbol raw >>= f)
  normalised-Yields raw f h = elim (Result-cases (normalize_subscription_symbol raw)) [
    | inl (s, e) ↦ rw (e) (h s (normalize_subscription_symbol_idem raw s e))
    | inr (b, e) ↦ rw (e) (error b)
  ]

  callback_fields-Yields :
      (fs : Fields) → Yields (normalize_callback_fields py numbers times stamps fs)
  unfolding normalize_callback_fields
  callback_fields-Yields fs =
      let period = callback_period py numbers times stamps fs in
      let found = content_of py numbers times stamps fs in
      normalised-Yields (callback_raw_symbol py numbers times stamps fs)
        (λ s. normalize_found py numbers times stamps s period found)
        (λ s normal. normalize_found-Yields s period found normal)

  -- Every event that a callback is normalised to has one of the kinds of raw events, a symbol in the form
  -- that normalising keeps, and an object as its payload; a callback without such an event raises.
  pub normalize_xtquant_callback-Yields :
      (payload : Value) → Yields (normalize_xtquant_callback py numbers times stamps payload)
  unfolding normalize_xtquant_callback
  normalize_xtquant_callback-Yields payload = elim (Option-cases (as_dict payload)) [
    | inl e ↦ rw (normalize_xtquant_callback, e) (error _)
    | inr (fs, e) ↦ rw (normalize_xtquant_callback, e) (callback_fields-Yields fs)
  ]
