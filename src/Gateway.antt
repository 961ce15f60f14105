-- ===== src/Gateway.antt =====
-- backend/beast_market/gateway.py: the queue of one WebSocket client.
-- A message is a dict of which this code reads `type` and `symbol`; the rest is `body`. The types that the
-- program names are constructors, and `other` holds any other text (`other ""` if the key is absent);
-- an absent symbol is `none`.
-- `max_size` is a natural number: a negative one behaves as 0 here.
pub mod Scan
pub mod Bounds
pub mod Alerts
pub mod Streams
use lynx_monitor.Prelude.{
  ℕ, ◌+◌, String, Text, Bool, true, false, ◌&&◌, ◌||◌, not, Option, none, some, List, [], ◌∷◌, ◌++◌,
  length, leb, ltb, if◌then◌else◌, ◌==◌, string_eq, text_equality, opt_eq,
}

pub data MessageType : Type 0 where
  tick_realtime queue_realtime alert_realtime snapshot holding_name_click_response : MessageType
  other : String → MessageType

unfoldable pub type_eq : MessageType → MessageType → Bool
type_eq tick_realtime tick_realtime = true
type_eq queue_realtime queue_realtime = true
type_eq alert_realtime alert_realtime = true
type_eq snapshot snapshot = true
type_eq holding_name_click_response holding_name_click_response = true
type_eq (other s) (other t) = s == t
type_eq _ _ = false

pub record Message {ℓ} (P : Type ℓ) : Type ℓ where
  pub type : MessageType
  pub symbol : Option Text
  pub body : P

-- str(message.get("symbol", ""))
unfoldable pub message_symbol {ℓ} : {P : Type ℓ} → Message P → Text
message_symbol m = elim m.symbol [ none ↦ [] | some s ↦ s ]

pub record ClientQueueStats : Type 0 where
  pub enqueued : ℕ
  pub coalesced : ℕ
  pub dropped : ℕ
  pub alerts_enqueued : ℕ
  pub alert_dropped : ℕ
  pub alert_overflow : ℕ
  pub critical_overflow : ℕ

pub record GatewayClientQueue {ℓ} (P : Type ℓ) : Type ℓ where
  pub client_id : Text
  pub max_size : ℕ
  pub queue : List (Message P)
  pub stats : ClientQueueStats

abbrev pub no_stats : ClientQueueStats
no_stats = record {
  enqueued = 0;
  coalesced = 0;
  dropped = 0;
  alerts_enqueued = 0;
  alert_dropped = 0;
  alert_overflow = 0;
  critical_overflow = 0;
}

-- REALTIME_COALESCIBLE_TYPES
unfoldable pub is_coalescible : MessageType → Bool
is_coalescible tick_realtime = true
is_coalescible queue_realtime = true
is_coalescible _ = false

-- CRITICAL_RESPONSE_TYPES
unfoldable pub is_critical : MessageType → Bool
is_critical snapshot = true
is_critical holding_name_click_response = true
is_critical _ = false

unfoldable pub is_alert : MessageType → Bool
is_alert alert_realtime = true
is_alert _ = false

module _ {ℓ} {P : Type ℓ} where
  -- queued.get("type") == message_type and queued.get("symbol") == symbol
  unfoldable pub same_stream : MessageType → Text → Message P → Bool
  unfolding type_eq
  same_stream t s q = type_eq q.type t && opt_eq ◌==◌ q.symbol (some s)

  -- The loop of `_replace_latest`, from the last index down: the list with its last match replaced.
  unfoldable pub replace_last :
      (Message P → Bool) → Message P → List (Message P) → Option (List (Message P))
  replace_last p m [] = none
  replace_last p m (q ∷ rest) = elim (replace_last p m rest) [
    | some rest' ↦ some (q ∷ rest')
    | none ↦ if p q then some (m ∷ rest) else none
  ]

  unfoldable pub replace_latest :
      MessageType → Text → Message P → GatewayClientQueue P → Option (GatewayClientQueue P)
  unfolding replace_last same_stream
  replace_latest t s m c = elim (replace_last (same_stream t s) m c.queue) [
    | none ↦ none
    | some queue' ↦ some (record c { queue = queue' })
  ]

  -- The loop of `_drop_one_non_alert` and `_drop_one_non_critical`: the list without its first match.
  unfoldable pub delete_first : (Message P → Bool) → List (Message P) → Option (List (Message P))
  delete_first p [] = none
  delete_first p (q ∷ rest) =
      let later = delete_first p rest in
      if p q then some rest else elim later [ none ↦ none | some rest' ↦ some (q ∷ rest') ]

  unfoldable pub drop_one :
      (Message P → Bool) → GatewayClientQueue P → Option (GatewayClientQueue P)
  unfolding delete_first
  drop_one p c = elim (delete_first p c.queue) [
    | none ↦ none
    | some queue' ↦
        some
          (record c { queue = queue'; stats = record (c.stats) { dropped = c.stats.dropped + 1 } })
  ]

  unfoldable pub drop_one_non_alert : GatewayClientQueue P → Option (GatewayClientQueue P)
  unfolding drop_one is_alert
  drop_one_non_alert = drop_one (λ q. not (is_alert q.type))

  unfoldable pub drop_one_non_critical : GatewayClientQueue P → Option (GatewayClientQueue P)
  unfolding drop_one is_alert is_critical
  drop_one_non_critical = drop_one (λ q. not (is_critical q.type) && not (is_alert q.type))

  abbrev count_dropped : GatewayClientQueue P → GatewayClientQueue P
  count_dropped c = record c { stats = record (c.stats) { dropped = c.stats.dropped + 1 } }

  abbrev count_alert_dropped : GatewayClientQueue P → GatewayClientQueue P
  count_alert_dropped c = record c {
    stats = record (c.stats) { alert_dropped = c.stats.alert_dropped + 1 };
  }

  abbrev count_alert_overflow : GatewayClientQueue P → GatewayClientQueue P
  count_alert_overflow c = record c {
    stats = record (c.stats) { alert_overflow = c.stats.alert_overflow + 1 };
  }

  abbrev count_critical_overflow : GatewayClientQueue P → GatewayClientQueue P
  count_critical_overflow c = record c {
    stats = record (c.stats) { critical_overflow = c.stats.critical_overflow + 1 };
  }

  -- The first `if len(self.queue) >= self.max_size` of `enqueue`; `false` where it returns.
  unfoldable pub make_room : MessageType → GatewayClientQueue P → GatewayClientQueue P × Bool
  unfolding is_alert is_critical drop_one_non_alert drop_one_non_critical
  make_room t c =
      if leb c.max_size (length c.queue)
      then (if is_alert t
          then elim (drop_one_non_alert c) [
            | some c' ↦ (count_alert_overflow c', true)
            | none ↦ (count_alert_dropped c, false)
          ]
          else if is_critical t
          then elim (drop_one_non_critical c) [
            | some c' ↦ (count_critical_overflow c', true)
            | none ↦ (count_dropped c, false)
          ]
          else (count_dropped c, false))
      else (c, true)

  -- The rest of `enqueue`.
  unfoldable pub append : MessageType → Message P → GatewayClientQueue P → GatewayClientQueue P
  unfolding is_alert
  append t m c =
      if leb c.max_size (length c.queue)
      then (if is_alert t then count_alert_dropped c else count_dropped c)
      else record c {
        queue = c.queue ++ m ∷ [];
        stats = record (c.stats) {
          enqueued = c.stats.enqueued + 1;
          alerts_enqueued = c.stats.alerts_enqueued + (if is_alert t then 1 else 0);
        };
      }

  unfoldable pub enqueue_new : MessageType → Message P → GatewayClientQueue P → GatewayClientQueue P
  unfolding make_room append
  enqueue_new t m c = let (c', room) = make_room t c in if room then append t m c' else c'

  unfoldable pub enqueue : Message P → GatewayClientQueue P → GatewayClientQueue P
  unfolding message_symbol is_coalescible replace_latest enqueue_new
  enqueue m c =
      let t = m.type in
      elim (if is_coalescible t then replace_latest t (message_symbol m) m c else none) [
        | some c' ↦ record c' { stats = record (c'.stats) { coalesced = c'.stats.coalesced + 1 } }
        | none ↦ enqueue_new t m c
      ]

  -- The loop of `drain`: what is drained, and what stays.
  unfoldable pub drain_from : ℕ → Option ℕ → List (Message P) → List (Message P) × List (Message P)
  drain_from n limit [] = ([], [])
  drain_from n limit (m ∷ rest) =
      let (out, left) = drain_from (n + 1) limit rest in
      if (elim limit [ none ↦ true | some k ↦ ltb n k ]) then (m ∷ out, left) else ([], m ∷ rest)

  unfoldable pub drain : Option ℕ → GatewayClientQueue P → List (Message P) × GatewayClientQueue P
  unfolding drain_from
  drain limit c = let (out, left) = drain_from 0 limit c.queue in (out, record c { queue = left })
