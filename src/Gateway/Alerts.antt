-- ===== src/Gateway/Alerts.antt =====
-- What a full queue gives up: never an alert, and a critical response only for an alert.
use mathlib.Core.List.{append-nil}
use lynx_monitor.Prelude.{
  ◌≤◌, ◌≡◌, Bool, true, false, not, ◌&&◌, ◌||◌, List, [], ◌∷◌, ◌++◌, length, select, select-append,
  any, ltb, if◌then◌else◌, arith, Bool-cases, inl, inr, Text,
}
use lynx_monitor.Gateway.{
  Message, MessageType, GatewayClientQueue, message_symbol, is_coalescible, is_alert, is_critical,
  same_stream, make_room, append, enqueue_new, enqueue,
}
use lynx_monitor.Gateway.Scan.{delete_first_keeps, replace_last_keeps}

coalescible_class :
    (t : MessageType) → is_coalescible t ≡ true → (is_alert t ≡ false) × (is_critical t ≡ false)
unfolding is_coalescible is_alert is_critical
coalescible_class t h = ground arith

module _ {ℓ} {P : Type ℓ} where
  -- The queued alerts, and the queued critical responses, in order.
  abbrev pub alerts : List (Message P) → List (Message P)
  alerts = select (λ q. is_alert q.type)

  abbrev pub criticals : List (Message P) → List (Message P)
  criticals = select (λ q. is_critical q.type)

  -- The messages that an alert, and those that a critical response, may displace.
  abbrev pub displaced_by_alert : Message P → Bool
  displaced_by_alert q = not (is_alert q.type)

  abbrev pub displaced_by_critical : Message P → Bool
  displaced_by_critical q = not (is_critical q.type) && not (is_alert q.type)

  stream_class :
      (t : MessageType) (s : Text) (q : Message P)
      → is_coalescible t ≡ true
      → same_stream t s q ≡ true
      → (is_alert q.type ≡ false) × (is_critical q.type ≡ false)
  unfolding is_alert is_critical is_coalescible same_stream
  stream_class t s q h k = ground arith

  select-append_new :
      (r : Message P → Bool) (t : MessageType) (m : Message P) (c : GatewayClientQueue P)
      → select r (append t m c).queue ≡ (
          if ltb (length c.queue) c.max_size && r m
          then select r c.queue ++ m ∷ []
          else select r c.queue)
  unfolding append
  select-append_new r t m c =
      ground (arith, select-append r c.queue (m ∷ []), append-nil (select r c.queue))

  -- Whether `make_room` lets a message of type `t` through.
  abbrev pub accepts : MessageType → GatewayClientQueue P → Bool
  accepts t c =
      ltb (length c.queue) c.max_size
      || (if is_alert t
          then any displaced_by_alert c.queue
          else is_critical t && any displaced_by_critical c.queue)

  make_room-accepts :
      (t : MessageType) (c : GatewayClientQueue P)
      → length c.queue ≤ c.max_size
      → ((make_room t c).1 ≡ accepts t c)
        × ((make_room t c).1 ≡ ltb (length (make_room t c).0.queue) (make_room t c).0.max_size)
  unfolding make_room
  make_room-accepts t c fits = ground (
    arith,
    delete_first_keeps displaced_by_alert (λ q. is_alert q.type) (λ q h. ground arith) c.queue,
    delete_first_keeps displaced_by_critical (λ q. is_alert q.type) (λ q h. ground arith) c.queue,
  )

  make_room-alerts :
      (t : MessageType) (c : GatewayClientQueue P) → alerts (make_room t c).0.queue ≡ alerts c.queue
  unfolding make_room
  make_room-alerts t c = ground (
    arith,
    delete_first_keeps displaced_by_alert (λ q. is_alert q.type) (λ q h. ground arith) c.queue,
    delete_first_keeps displaced_by_critical (λ q. is_alert q.type) (λ q h. ground arith) c.queue,
  )

  make_room-criticals :
      (t : MessageType) (c : GatewayClientQueue P)
      → is_alert t ≡ false
      → criticals (make_room t c).0.queue ≡ criticals c.queue
  unfolding make_room
  make_room-criticals t c h = ground (
    arith,
    delete_first_keeps displaced_by_critical (λ q. is_critical q.type) (λ q h. ground arith)
        c.queue,
  )

  enqueue_new-select :
      (r : Message P → Bool) (m : Message P) (c : GatewayClientQueue P)
      → length c.queue ≤ c.max_size
      → select r (make_room m.type c).0.queue ≡ select r c.queue
      → select r (enqueue_new m.type m c).queue
        ≡ (if accepts m.type c && r m then select r c.queue ++ m ∷ [] else select r c.queue)
  unfolding enqueue_new
  enqueue_new-select r m c fits kept =
      ground
        (arith, make_room-accepts m.type c, select-append_new r m.type m (make_room m.type c).0)

  enqueue-select :
      (r : Message P → Bool) (m : Message P) (c : GatewayClientQueue P)
      → length c.queue ≤ c.max_size
      → select r (make_room m.type c).0.queue ≡ select r c.queue
      → (is_coalescible m.type ≡ true
          → (r m ≡ false)
            × ((q : Message P) → same_stream m.type (message_symbol m) q ≡ true → r q ≡ false))
      → select r (enqueue m c).queue
        ≡ (if accepts m.type c && r m then select r c.queue ++ m ∷ [] else select r c.queue)
  unfolding enqueue
  enqueue-select r m c fits kept apart = elim (Bool-cases (is_coalescible m.type)) [
    | inl e ↦ ground (
      arith,
      enqueue_new-select r m c,
      apart e,
      replace_last_keeps (same_stream m.type (message_symbol m)) r m (apart e).1 (apart e).0
          c.queue,
    )
    | inr e ↦ ground (arith, enqueue_new-select r m c)
  ]

  -- In a queue within its size, the queued alerts stay, in order, and a new alert is added after them
  -- exactly if there is room or an ordinary message or critical response to displace.
  pub alerts-enqueue :
      (m : Message P) (c : GatewayClientQueue P)
      → length c.queue ≤ c.max_size
      → alerts (enqueue m c).queue
        ≡ (if accepts m.type c && is_alert m.type then alerts c.queue ++ m ∷ [] else alerts c.queue)
  alerts-enqueue m c fits =
      enqueue-select (λ q. is_alert q.type) m c fits (make_room-alerts m.type c)
        λ h.
          ((coalescible_class m.type h).0, λ q k. (stream_class m.type (message_symbol m) q h k).0)

  -- In a queue within its size, a message that is no alert displaces no queued critical response; a
  -- new critical response is added after them exactly if there is room or a message that is neither
  -- alert nor critical to displace.
  pub criticals-enqueue :
      (m : Message P) (c : GatewayClientQueue P)
      → length c.queue ≤ c.max_size
      → is_alert m.type ≡ false
      → criticals (enqueue m c).queue ≡ (
          if accepts m.type c && is_critical m.type
          then criticals c.queue ++ m ∷ []
          else criticals c.queue)
  criticals-enqueue m c fits other_type =
      enqueue-select (λ q. is_critical q.type) m c fits (make_room-criticals m.type c other_type)
        λ h.
          ((coalescible_class m.type h).1, λ q k. (stream_class m.type (message_symbol m) q h k).1)
