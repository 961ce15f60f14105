-- ===== src/RawQueue.antt =====
-- backend/beast_market/adapters.py: `BoundedRawEventQueue`, which isolates the xtquant callback, and
-- `raw_event_queue_coalesce_key`. The lock serialises the methods, which are the steps here.
-- A callback payload is a dict of which this code reads five texts; the rest is `body`.
pub mod Refinement
pub mod Contract
pub mod Runs
use lynx_monitor.Prelude.{
  ℕ, zero, suc, ◌+◌, Text, codes, Bool, true, false, not, ◌&&◌, ◌||◌, Option, none, some, List, [],
  ◌∷◌, ◌++◌, any, leb, ltb, if◌then◌else◌, length, Result, ok, fail, value_error, text_eq,
  text_equality,
}
use lynx_monitor.Prelude.Dict.{Dict, get, put, remove}
use lynx_monitor.Symbols.{strip, upper, lower, complete, is_empty}

pub record RawCallback {ℓ} (P : Type ℓ) : Type ℓ where
  pub symbol : Option Text
  pub code : Option Text
  pub period : Option Text
  pub upper_period : Option Text  -- the key "Period"
  pub kind : Option Text
  pub body : P

-- `a or b` of texts that may be absent
abbrev pub or_text : Option Text → Text → Text
or_text none t = t
or_text (some s) t = if is_empty s then t else s

-- `coalesced_periods`
abbrev pub coalesced_periods : List Text
coalesced_periods =
    codes "hkbrokerqueueex"
    ∷ codes "broker_queue"
    ∷ codes "brokerqueue"
    ∷ codes "brokerqueue2"
    ∷ codes "l2thousand"
    ∷ codes "l2thousand_queue"
    ∷ codes "l2_order_book"
    ∷ []

abbrev pub coalesced_kinds : List Text
coalesced_kinds = codes "broker_queue" ∷ codes "l2_order_book" ∷ []

unfoldable pub raw_event_queue_coalesce_key {ℓ} : {P : Type ℓ} → RawCallback P → Option Text
unfolding strip upper lower complete text_eq
raw_event_queue_coalesce_key event =
    let symbol = upper (strip (or_text event.symbol (or_text event.code []))) in
    let period = lower (strip (or_text event.period (or_text event.upper_period []))) in
    let kind = lower (strip (or_text event.kind [])) in
    if is_empty symbol
    then none
    else if any (text_eq period) coalesced_periods
    then some (complete symbol ++ b'|' ∷ period)
    else if any (text_eq kind) coalesced_kinds
    then some (complete symbol ++ b'|' ∷ kind)
    else none

-- An entry of the deque: a payload, or `{"__coalesce_key__": key}` for one that is kept in
-- `coalesced_items`. No payload of the callbacks has that key of its own.
pub data Item {ℓ} (E : Type ℓ) : Type ℓ where
  event : E → Item E
  marker : Text → Item E

pub record BoundedRawEventQueue {ℓ} (E : Type ℓ) : Type ℓ where
  pub max_size : ℕ
  pub items : List (Item E)
  pub coalesced_items : Dict Text E
  pub dropped : List E

unfoldable pub init {ℓ} : {E : Type ℓ} → ℕ → Result (BoundedRawEventQueue E)
init max_size =
    if ltb max_size 1
    then fail value_error (codes "max_size must be >= 1")
    else ok (record { max_size = max_size; items = []; coalesced_items = []; dropped = [] })

module _ {ℓ} {E : Type ℓ} where
  -- The second half of `push`, with the entry for the deque and the dict that goes with it.
  unfoldable pub admit :
      E → Item E → Dict Text E → BoundedRawEventQueue E → BoundedRawEventQueue E × Bool
  admit e item coalesced q =
      if leb q.max_size (length q.items)
      then (record q { dropped = q.dropped ++ e ∷ [] }, false)
      else (record q { items = q.items ++ item ∷ []; coalesced_items = coalesced }, true)

  -- `push`, once the coalesce key of the event is known.
  unfoldable pub push_keyed :
      Option Text → E → BoundedRawEventQueue E → BoundedRawEventQueue E × Bool
  unfolding admit get put
  push_keyed none e q = admit e (event e) q.coalesced_items q
  push_keyed (some key) e q = elim (get q.coalesced_items key) [
    | some _ ↦ (record q { coalesced_items = put q.coalesced_items key e }, true)
    | none ↦ admit e (marker key) (put q.coalesced_items key e) q
  ]

  -- The loop of `pop`.
  unfoldable pub pop_from : List (Item E) → Dict Text E → Option E × (List (Item E) × Dict Text E)
  unfolding get remove
  pop_from [] d = (none, ([], d))
  pop_from (event e ∷ rest) d = (some e, (rest, d))
  pop_from (marker key ∷ rest) d = elim (get d key) [
    | none ↦ pop_from rest (remove d key)
    | some e ↦ (some e, (rest, remove d key))
  ]

  unfoldable pub pop : BoundedRawEventQueue E → Option E × BoundedRawEventQueue E
  unfolding pop_from
  pop q =
      let (out, rest) = pop_from q.items q.coalesced_items in
      (out, record q { items = rest.0; coalesced_items = rest.1 })

  abbrev pub backlog : BoundedRawEventQueue E → ℕ
  backlog q = length q.items

unfoldable pub push {ℓ} :
    {P : Type ℓ}
    → RawCallback P
    → BoundedRawEventQueue (RawCallback P)
    → BoundedRawEventQueue (RawCallback P) × Bool
unfolding push_keyed raw_event_queue_coalesce_key
push e q = push_keyed (raw_event_queue_coalesce_key e) e q
