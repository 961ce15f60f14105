-- ===== src/Gateway/Streams.antt =====
-- Coalescing: the queue holds at most one message of each realtime stream, the newest.
use lynx_monitor.Prelude.{
  ◌≤◌, ◌+◌, ◌≡◌, refl, Bool, true, false, none, some, List, [], ◌∷◌, length, length-append, select,
  select-append, select_none, any, if◌then◌else◌, arith, Option-cases, Bool-cases, inl, inr, Text,
  ◌↔◌, text_eq_iff, ◌⊎◌,
}
use lynx_monitor.Gateway.{
  Message, MessageType, GatewayClientQueue, message_symbol, is_coalescible, same_stream,
  replace_last, delete_first, make_room, append, enqueue_new, enqueue,
}
use lynx_monitor.Gateway.Alerts.{displaced_by_alert, displaced_by_critical}
use lynx_monitor.Gateway.Scan.{any_of-replace_last-none, length-replace_last}

module _ {ℓ} {P : Type ℓ} where
  abbrev pub stream : MessageType → Text → List (Message P) → List (Message P)
  stream t s = select (same_stream t s)

  -- At most one queued message of each realtime stream.
  pub record IsCoalesced (c : GatewayClientQueue P) : Type ℓ where
    pub single :
        (t : MessageType) (s : Text) → is_coalescible t ≡ true → length (stream t s c.queue) ≤ 1

  -- A message is in a realtime stream exactly when it has its type and its symbol.
  same_stream_iff :
      (t : MessageType) (s : Text) (q : Message P)
      → is_coalescible t ≡ true
      → (same_stream t s q ≡ true) ↔ ((q.type ≡ t) × (q.symbol ≡ some s))
  unfolding same_stream is_coalescible
  same_stream_iff t s q c = elim (Option-cases q.symbol) [
    | inl e ↦ ground arith
    | inr (u, e) ↦ ground (arith, text_eq_iff u s)
  ]

  -- If a message is in a stream, so is every message that it may replace.
  stream_covers :
      (t : MessageType) (s : Text) (m q : Message P)
      → is_coalescible t ≡ true
      → same_stream m.type (message_symbol m) q ≡ true
      → same_stream t s m ≡ true
      → same_stream t s q ≡ true
  unfolding message_symbol
  stream_covers t s m q c k h =
      let (mt, ms) = (same_stream_iff t s m c).0 h in
      let sym_eq : message_symbol m ≡ s = rw (ms, message_symbol) refl in
      let k' : same_stream t s q ≡ true = rw (mt, sym_eq) at k in k'

  module _ (p r : Message P → Bool) where
    length-select-delete_first :
        (xs ys : List (Message P))
        → delete_first p xs ≡ some ys
        → length (select r ys) ≤ length (select r xs)
    unfolding delete_first
    length-select-delete_first [] ys h = ground arith
    length-select-delete_first (x ∷ xs) ys h = elim (Option-cases (delete_first p xs)) [
      | inl e ↦ ground arith
      | inr (zs, e) ↦ ground (arith, length-select-delete_first xs zs e)
    ]

    length-select-replace_last :
        (m : Message P)
        → ((x : Message P) → p x ≡ true → r m ≡ true → r x ≡ true)
        → (xs ys : List (Message P)) → replace_last p m xs ≡ some ys
        → length (select r ys) ≤ length (select r xs)
    unfolding replace_last
    length-select-replace_last m covers [] ys h = ground arith
    length-select-replace_last m covers (x ∷ xs) ys h = elim (Option-cases (replace_last p m xs)) [
      | inl e ↦ ground (arith, covers x)
      | inr (zs, e) ↦ ground (arith, length-select-replace_last m covers xs zs e)
    ]

  shrinks :
      (p r : Message P → Bool) (xs : List (Message P))
      → (delete_first p xs ≡ none)
        ⊎ ((ys : List (Message P)) × (delete_first p xs ≡ some ys)
            × (length (select r ys) ≤ length (select r xs)))
  shrinks p r xs = elim (Option-cases (delete_first p xs)) [
    | inl e ↦ inl e
    | inr (ys, e) ↦ inr (ys, e, length-select-delete_first p r xs ys e)
  ]

  length-select-make_room :
      (r : Message P → Bool) (t : MessageType) (c : GatewayClientQueue P)
      → length (select r (make_room t c).0.queue) ≤ length (select r c.queue)
  unfolding make_room
  length-select-make_room r t c =
      ground (arith, shrinks displaced_by_alert r c.queue, shrinks displaced_by_critical r c.queue)

  length-select-append :
      (r : Message P → Bool) (t : MessageType) (m : Message P) (c : GatewayClientQueue P)
      → length (select r (append t m c).queue) ≤ length (select r c.queue) + (if r m then 1 else 0)
  unfolding append
  length-select-append r t m c = ground (
    arith,
    select-append r c.queue (m ∷ []),
    length-append (select r c.queue) (select r (m ∷ [])),
  )

  length-select-enqueue_new :
      (r : Message P → Bool) (m : Message P) (c : GatewayClientQueue P)
      → length (select r (enqueue_new m.type m c).queue)
        ≤ length (select r c.queue) + (if r m then 1 else 0)
  unfolding enqueue_new
  length-select-enqueue_new r m c = ground (
    arith,
    length-select-make_room r m.type c,
    length-select-append r m.type m (make_room m.type c).0,
  )

  -- Where no message of the stream is queued, one is added at most; elsewhere nothing is added.
  length-stream-enqueue_new :
      (t : MessageType) (s : Text) (m : Message P) (c : GatewayClientQueue P)
      → is_coalescible t ≡ true
      → any (same_stream m.type (message_symbol m)) c.queue ≡ false
      → length (stream t s c.queue) ≤ 1
      → length (stream t s (enqueue_new m.type m c).queue) ≤ 1
  unfolding message_symbol
  length-stream-enqueue_new t s m c co absent few = elim (Bool-cases (same_stream t s m)) [
    | inl e ↦
        let (mt, ms) = (same_stream_iff t s m co).0 e in
        let sym_eq : message_symbol m ≡ s = rw (ms, message_symbol) refl in
        let absent' : any (same_stream t s) c.queue ≡ false = rw (mt, sym_eq) at absent in
        ground (
          arith,
          length-select-enqueue_new (same_stream t s) m c,
          select_none (same_stream t s) c.queue absent',
        )
    | inr e ↦ ground (arith, length-select-enqueue_new (same_stream t s) m c)
  ]

  stream_type :
      (t : MessageType) (s : Text) (m : Message P)
      → is_coalescible t ≡ true
      → is_coalescible m.type ≡ false
      → same_stream t s m ≡ false
  stream_type t s m co no_co = elim (Bool-cases (same_stream t s m)) [
    | inl e ↦ let type_is = ((same_stream_iff t s m co).0 e).0 in ground (arith)
    | inr e ↦ e
  ]

  length-stream-enqueue :
      (t : MessageType) (s : Text) (m : Message P) (c : GatewayClientQueue P)
      → is_coalescible t ≡ true
      → length (stream t s c.queue) ≤ 1
      → length (stream t s (enqueue m c).queue) ≤ 1
  unfolding enqueue
  length-stream-enqueue t s m c co few = elim (Bool-cases (is_coalescible m.type)) [
    | inr plain ↦
        ground (arith, length-select-enqueue_new (same_stream t s) m c, stream_type t s m co plain)
    | inl realtime ↦
        elim (Option-cases (replace_last (same_stream m.type (message_symbol m)) m c.queue)) [
          | inl e ↦ ground (
            arith,
            length-stream-enqueue_new t s m c co
                (any_of-replace_last-none (same_stream m.type (message_symbol m)) m c.queue e) few,
          )
          | inr (ys, e) ↦ ground (
            arith,
            length-select-replace_last (same_stream m.type (message_symbol m)) (same_stream t s) m
                (λ q. stream_covers t s m q co) c.queue ys e,
          )
        ]
  ]

  -- If at most one message of each realtime stream (a coalescible type and a symbol) is queued, this
  -- is so after any message.
  pub enqueue-IsCoalesced :
      (m : Message P) (c : GatewayClientQueue P) → IsCoalesced c → IsCoalesced (enqueue m c)
  enqueue-IsCoalesced m c h = record {
    single = λ t s co. length-stream-enqueue t s m c co (h.single t s co);
  }

  -- Replacing the only match leaves the new message as the only match.
  module _ (p : Message P → Bool) (m : Message P) (hit : p m ≡ true) where
    replaced_some :
        (xs ys : List (Message P)) → replace_last p m xs ≡ some ys → 1 ≤ length (select p xs)
    unfolding replace_last
    replaced_some [] ys h = ground arith
    replaced_some (x ∷ xs) ys h = elim (Option-cases (replace_last p m xs)) [
      | inl e ↦ ground arith
      | inr (zs, e) ↦ ground (arith, replaced_some xs zs e)
    ]

    replaced_only :
        (xs ys : List (Message P))
        → replace_last p m xs ≡ some ys
        → length (select p xs) ≤ 1
        → select p ys ≡ m ∷ []
    unfolding replace_last
    replaced_only [] ys h few = ground arith
    replaced_only (x ∷ xs) ys h few = elim (Option-cases (replace_last p m xs)) [
      | inl e ↦ ground (arith, select_none p xs (any_of-replace_last-none p m xs e))
      | inr (zs, e) ↦ ground (arith, replaced_some xs zs e, replaced_only xs zs e)
    ]

    replaced_found :
        (xs : List (Message P))
        → any p xs ≡ true
        → (ys : List (Message P)) × (replace_last p m xs ≡ some ys)
    replaced_found xs found = elim (Option-cases (replace_last p m xs)) [
      | inl e ↦ ground (arith, any_of-replace_last-none p m xs e)
      | inr found' ↦ found'
    ]

  -- If at most one message of each realtime stream is queued, and one of the stream of a realtime
  -- message is, then after that message it is the only one of its stream, and the queue is as long as
  -- before.
  pub enqueue-newest :
      (t : MessageType) (s : Text) (m : Message P) (c : GatewayClientQueue P)
      → IsCoalesced c
      → is_coalescible t ≡ true
      → same_stream t s m ≡ true
      → any (same_stream t s) c.queue ≡ true
      → (stream t s (enqueue m c).queue ≡ m ∷ []) × (length (enqueue m c).queue ≡ length c.queue)
  unfolding enqueue message_symbol
  enqueue-newest t s m c h co hit found =
      let (mt, ms) = (same_stream_iff t s m co).0 hit in
      let sym_eq : message_symbol m ≡ s = rw (ms, message_symbol) refl in
      let (ys, e) = replaced_found (same_stream t s) m hit c.queue found in
      ground (
        arith,
        replaced_only (same_stream t s) m hit c.queue ys e (h.single t s co),
        length-replace_last (same_stream t s) m c.queue ys e,
      )
