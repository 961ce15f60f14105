-- ===== src/Callbacks/Queues.antt =====
-- backend/beast_market/runtime.py: legacy broker queues and order books.
use lynx_monitor.Prelude.{
  ℕ, zero, suc, ◌+◌, String, Text, Option, none, some, List, [], ◌∷◌, ◌++◌, codes, Result, ok,
  ◌>>=◌,
}
use lynx_monitor.Symbols.{lower}
use lynx_monitor.Value.{
  Value, int, str, list, dict, Items, nil, cons, Fields, field, end, pos, find, get_value, items_of,
}
use lynx_monitor.Contracts.{Python}
use lynx_monitor.Runtime.{text_or}
use lynx_monitor.Bars.{Numbers, or_value, zero_int}
use lynx_monitor.Callbacks.{Stamps, first_present}
use lynx_monitor.Callbacks.Legacy.{whole}

-- values[index] if index < len(values) else 0
abbrev pub item_or_zero : ℕ → Items → Value
item_or_zero n nil = zero_int
item_or_zero zero (cons v vs) = v
item_or_zero (suc n) (cons v vs) = item_or_zero n vs

abbrev pub append_items : Items → Items → Items
append_items nil vs = vs
append_items (cons u us) vs = cons u (append_items us vs)

-- str(n) of a count
abbrev pub number_text : Python → ℕ → Text
number_text py n = py.format (int (pos n))

module _ (py : Python) (numbers : Numbers) (times : Value → Value → Value) (stamps : Stamps) where
  unfoldable pub normalize_broker_queue_entry : Fields → ℕ → Result Value
  unfolding find text_or or_value lower
  normalize_broker_queue_entry item index = do
    position ← numbers.to_int (
        or_value (get_value item "position")
          (or_value (get_value item "rank") (int (pos (index + 1)))))
    price ←
        numbers.to_float
          (or_value (get_value item "price") (or_value (get_value item "Price") zero_int))
    volume ← whole py numbers times stamps (
        or_value (get_value item "volume")
          (or_value (get_value item "Volume") (get_value item "qty")))
    ok (
        dict (
          field "id"
            (str (text_or py (get_value item "id") (codes "entry-" ++ number_text py (index + 1))))
            (field "position" position (
              field "side" (str (lower (text_or py (get_value item "side") (codes "bid")))) (
                field "broker_code"
                  (str (
                    text_or py
                      (or_value (get_value item "broker_code")
                        (or_value (get_value item "brokerCode") (get_value item "BrokerID")))
                      []))
                  (field "price" price (field "volume" volume end)))))))

  -- The entries of a list that has them already; `index` counts all its items
  unfoldable pub explicit_entries : ℕ → Items → Result Items
  unfolding normalize_broker_queue_entry
  explicit_entries index nil = ok nil
  explicit_entries index (cons (dict item) vs) = do
    entry ← normalize_broker_queue_entry item index
    later ← explicit_entries (index + 1) vs
    ok (cons entry later)
  explicit_entries index (cons _ vs) = explicit_entries (index + 1) vs

  -- The brokers of the queue at a price, `position` counted from 1
  unfoldable pub broker_entries :
      (side : Text) (position : ℕ) (price : Value) (volumes : Items) → ℕ → Items → Result Items
  unfolding or_value text_or
  broker_entries side position price volumes index nil = ok nil
  broker_entries side position price volumes index (cons broker brokers) = do
    price_value ← numbers.to_float (or_value price zero_int)
    volume ← whole py numbers times stamps (item_or_zero index volumes)
    later ← broker_entries side position price volumes (index + 1) brokers
    ok (
        cons
          (dict (
            field "id"
              (str (
                side
                ++ (codes "-"
                    ++ (number_text py position ++ (codes "-" ++ number_text py (index + 1))))))
              (field "position" (int (pos position)) (
                field "side" (str side) (
                  field "broker_code" (str (text_or py broker []))
                    (field "price" price_value (field "volume" volume end)))))))
          later)

  -- The queues of a side
  unfoldable pub queue_entries : (side : Text) → ℕ → Items → Result Items
  unfolding find or_value broker_entries
  queue_entries side queue_index nil = ok nil
  queue_entries side queue_index (cons (dict queue) queues) = do
    entries ←
        broker_entries side (queue_index + 1)
          (or_value (get_value queue "Price") (get_value queue "price"))
          (items_of (or_value (get_value queue "Volumes") (get_value queue "volumes"))) 0
          (items_of (or_value (get_value queue "Brokers") (get_value queue "brokers")))
    later ← queue_entries side (queue_index + 1) queues
    ok (append_items entries later)
  queue_entries side queue_index (cons _ queues) = queue_entries side (queue_index + 1) queues

  unfoldable pub side_entries : List (String × Text) → Fields → Result Items
  unfolding find queue_entries
  side_entries [] content = ok nil
  side_entries ((key, side) ∷ sides) content = do
    entries ← queue_entries side 0 (items_of (get_value content key))
    later ← side_entries sides content
    ok (append_items entries later)

  abbrev listed : Value → Option Items
  listed (list vs) = some vs
  listed _ = none

  unfoldable pub normalize_legacy_broker_queue : Fields → Result Items
  unfolding find explicit_entries side_entries
  normalize_legacy_broker_queue content = elim (listed (get_value content "entries")) [
    | some entries ↦ explicit_entries 0 entries
    | none ↦
        side_entries
          (("AskQueues", codes "ask")
            ∷ ("askQueues", codes "ask")
            ∷ ("BidQueues", codes "bid")
            ∷ ("bidQueues", codes "bid")
            ∷ [])
          content
  ]

  -- The loop of `normalize_l2_side`
  unfoldable pub l2_levels : (volumes counts : Items) → ℕ → Items → Result Items
  unfolding or_value
  l2_levels volumes counts index nil = ok nil
  l2_levels volumes counts index (cons price prices) = do
    price_value ← numbers.to_float (or_value price zero_int)
    volume ← whole py numbers times stamps (item_or_zero index volumes)
    order_count ← whole py numbers times stamps (item_or_zero index counts)
    later ← l2_levels volumes counts (index + 1) prices
    ok (
        cons
          (dict (
            field "position" (int (pos (index + 1))) (
              field "price" price_value
                (field "volume" volume (field "order_count" order_count end)))))
          later)

  unfoldable pub normalize_l2_side : Value → Value → Value → Result Items
  unfolding l2_levels
  normalize_l2_side prices volumes counts =
      l2_levels (items_of volumes) (items_of counts) 0 (items_of prices)

  -- The order book under the symbol, or the data itself
  abbrev pub book_of : Value → Fields → Fields
  book_of (dict nested) content = nested
  book_of (list (cons (dict nested) vs)) content = nested
  book_of _ content = content

  unfoldable pub normalize_legacy_l2_order_book : Value → Fields → Result Fields
  unfolding first_present normalize_l2_side
  normalize_legacy_l2_order_book nested content =
      let candidate = book_of nested content in
      do
        ask ←
            normalize_l2_side (first_present candidate ("AskPrice" ∷ "askPrice" ∷ "ask_price" ∷ []))
              (first_present candidate ("AskVolume" ∷ "askVolume" ∷ "ask_volume" ∷ []))
              (first_present candidate
                ("AskOrderCount" ∷ "askOrderCount" ∷ "AskCount" ∷ "askCount" ∷ []))
        bid ←
            normalize_l2_side (first_present candidate ("BidPrice" ∷ "bidPrice" ∷ "bid_price" ∷ []))
              (first_present candidate ("BidVolume" ∷ "bidVolume" ∷ "bid_volume" ∷ []))
              (first_present candidate
                ("BidOrderCount" ∷ "bidOrderCount" ∷ "BidCount" ∷ "bidCount" ∷ []))
        ok (field "ask" (list ask) (field "bid" (list bid) end))
