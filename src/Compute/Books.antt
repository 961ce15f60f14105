-- ===== src/Compute/Books.antt =====
-- backend/beast_market/pipeline.py: the broker queue and the order book of a raw event.
use lynx_monitor.Prelude.{
  ℕ, ◌+◌, Text, String, Bool, not, ◌||◌, Option, List, [], ◌∷◌, ◌++◌, map, if◌then◌else◌, text_eq,
  text_equality, codes, Result, ok, ◌>>=◌, string_eq,
}
use lynx_monitor.Prelude.Dict.{get}
use lynx_monitor.Value.{
  Value, null, int, pos, str, list, dict, Items, nil, cons, Fields, field, end, find, get_value,
  is_list, items_of,
}
use lynx_monitor.Contracts.{Python}
use lynx_monitor.Runtime.{text_or, text_of}
use lynx_monitor.Bars.{or_value, items, zero_int}
use lynx_monitor.Compute.Alerts.{BodState, mapping_of, normalized_participant_display}
use lynx_monitor.Compute.Minutes.{get_default}
use lynx_monitor.Compute.Confirmed.{Arithmetic, first_of}

module _ (py : Python) (arithmetic : Arithmetic) where
  -- rows.sort(key=lambda row: row[key]), stable; `before a b` if the row of `a` goes before that of `b`
  unfoldable pub insert_row : (Value → Value → Bool) → String → Fields → List Fields → List Fields
  unfolding find
  insert_row before key row [] = row ∷ []
  insert_row before key row (r ∷ rows) =
      let later = insert_row before key row rows in
      if before (get_value r key) (get_value row key) then r ∷ later else row ∷ r ∷ rows

  unfoldable pub sort_rows : (Value → Value → Bool) → String → List Fields → List Fields
  unfolding insert_row
  sort_rows before key [] = []
  sort_rows before key (row ∷ rows) = insert_row before key row (sort_rows before key rows)

  abbrev pub smaller : Value → Value → Bool
  smaller v w = arithmetic.greater w v

  -- The row of an item of the queue, `index` counted from 0
  unfoldable pub queue_row : Option BodState → Text → ℕ → Fields → Result Fields
  unfolding find or_value text_or get normalized_participant_display
  queue_row bod item_side index entry = do
    let broker_code =
        text_or py (or_value (get_value entry "brokerCode") (get_value entry "broker_code")) []
    let mapping = mapping_of py bod broker_code
    position ←
        arithmetic.numbers.to_int
          (first_of entry ("position" ∷ "rank" ∷ []) (int (pos (index + 1))))
    price ← arithmetic.numbers.to_float (or_value (get_value entry "price") zero_int)
    volume ←
        arithmetic.numbers.to_int (first_of entry ("volume" ∷ "qty" ∷ "quantity" ∷ []) zero_int)
    ok (
        field "id"
          (str (
            text_or py (get_value entry "id")
              (item_side ++ (codes "-" ++ py.format (int (pos (index + 1)))))))
          (field "position" position (
            field "side" (str item_side) (
              field "participantName"
                (str (
                  normalized_participant_display py
                    (first_of entry ("participantName" ∷ "participant_name" ∷ []) (
                      or_value (get_value mapping "participant_name")
                        (get_value mapping "broker_name")))
                    broker_code entry))
                (field "brokerCode" (str broker_code)
                  (field "price" price (field "volume" volume end)))))))

  abbrev pub add_row :
      (item_side : Text) → Fields → List Fields × List Fields → List Fields × List Fields
  add_row item_side row (asks, bids) =
      if text_eq item_side (codes "ask") then (row ∷ asks, bids) else (asks, row ∷ bids)

  abbrev pub is_side : Text → Bool
  is_side side = text_eq side (codes "ask") || text_eq side (codes "bid")

  -- The rows of both sides, before they are sorted; an item of no side has none
  unfoldable pub queue_rows :
      Option BodState → (event_side : Text) → ℕ → Items → Result (List Fields × List Fields)
  unfolding text_or text_eq queue_row find
  queue_rows bod event_side index nil = ok ([], [])
  queue_rows bod event_side index (cons (dict entry) entries) =
      let later = queue_rows bod event_side (index + 1) entries in
      let item_side = text_or py (get_value entry "side") event_side in
      if not (is_side item_side) then later else (do
        row ← queue_row bod item_side index entry
        rows ← later
        ok (add_row item_side row rows))
  queue_rows bod event_side index (cons _ entries) = queue_rows bod event_side (index + 1) entries

  abbrev pub rows_value : List Fields → Value
  rows_value rows = list (items (map dict rows))

  -- The entries, or the queues where these are no list
  abbrev pub entries_of : Fields → Items
  entries_of payload = items_of (
      if is_list (get_value payload "entries")
      then get_value payload "entries"
      else get_value payload "queues")

  unfoldable pub normalize_raw_broker_queue : Fields → Option BodState → Result Fields
  unfolding find queue_rows sort_rows text_eq
  normalize_raw_broker_queue payload bod = do
    (asks, bids) ←
        queue_rows bod (text_of py (get_default payload "side" (str []))) 0 (entries_of payload)
    ok (
        field "ask" (rows_value (sort_rows smaller "position" asks))
          (field "bid" (rows_value (sort_rows smaller "position" bids)) end))

  unfoldable pub l2_level : (side : Text) → ℕ → Fields → Result Fields
  unfolding find or_value
  l2_level side index level = do
    position ←
        arithmetic.numbers.to_int
          (first_of level ("position" ∷ "rank" ∷ []) (int (pos (index + 1))))
    price ← arithmetic.numbers.to_float (or_value (get_value level "price") zero_int)
    volume ←
        arithmetic.numbers.to_int (first_of level ("volume" ∷ "qty" ∷ "quantity" ∷ []) zero_int)
    order_count ←
        arithmetic.numbers.to_int (first_of level ("order_count" ∷ "orders" ∷ []) zero_int)
    ok (
        field "position" position (
          field "side" (str side)
            (field "price" price (field "volume" volume (field "order_count" order_count end)))))

  -- `normalize_l2_levels` from an index on
  unfoldable pub normalize_l2_levels : (side : Text) → ℕ → Items → Result (List Fields)
  unfolding l2_level
  normalize_l2_levels side index nil = ok []
  normalize_l2_levels side index (cons (dict level) levels) = do
    row ← l2_level side index level
    rows ← normalize_l2_levels side (index + 1) levels
    ok (row ∷ rows)
  normalize_l2_levels side index (cons _ levels) = normalize_l2_levels side (index + 1) levels

  abbrev pub best_price : List Fields → Value
  best_price [] = null
  best_price (row ∷ rows) = get_value row "price"

  abbrev pub spread_of : List Fields → List Fields → Value
  spread_of [] bids = null
  spread_of asks [] = null
  spread_of (a ∷ asks) (b ∷ bids) = arithmetic.minus (get_value a "price") (get_value b "price")

  -- What `ask or asks or []` gives, if it is a list
  abbrev pub levels_of : Fields → (key other : String) → Items
  levels_of payload key other = items_of (first_of payload (key ∷ other ∷ []) (list nil))

  unfoldable pub normalize_l2_order_book : Fields → Result Fields
  unfolding find or_value normalize_l2_levels sort_rows
  normalize_l2_order_book payload = do
    asks ← normalize_l2_levels (codes "ask") 0 (levels_of payload "ask" "asks")
    bids ← normalize_l2_levels (codes "bid") 0 (levels_of payload "bid" "bids")
    let ask = sort_rows smaller "price" asks
    let bid = sort_rows arithmetic.greater "price" bids
    ok (
        field "ask" (rows_value ask) (
          field "bid" (rows_value bid) (
            field "best_ask" (best_price ask)
              (field "best_bid" (best_price bid) (field "spread" (spread_of ask bid) end)))))
