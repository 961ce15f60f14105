-- ===== src/Tests/Queues.antt =====
-- The two bounded queues: a client's queue of the gateway, and the queue behind the xtquant callback.
use lynx_monitor.Prelude.{
  map, ℕ, ◌+◌, ◌≡◌, refl, Text, codes, true, false, none, some, [], ◌∷◌, length, arith,
  text_equality, text_eq, ok,
}
use lynx_monitor.Gateway.{
  Message, tick_realtime, alert_realtime, snapshot, GatewayClientQueue, no_stats, enqueue, drain,
  is_alert, is_critical, same_stream, is_coalescible,
}
use lynx_monitor.Gateway.Bounds.{IsBalanced, offer, flush, run_uses, run_uses-IsBalanced}
use lynx_monitor.Gateway.Alerts.{alerts, criticals, alerts-enqueue, criticals-enqueue}
use lynx_monitor.Gateway.Streams.{IsCoalesced, stream, enqueue-IsCoalesced, enqueue-newest}
use lynx_monitor.Gateway.{message_symbol}
use lynx_monitor.Sessions.{
  GatewaySession, GatewayV2SessionManager, new_session, broadcast_runtime_messages,
}
use lynx_monitor.Sessions.Delivery.{receive_wanted, count_wanted, at_session, broadcast_lem}
use lynx_monitor.RawQueue.{
  RawCallback, BoundedRawEventQueue, init, push, pop, raw_event_queue_coalesce_key,
}
use lynx_monitor.RawQueue.Runs.{
  new_queue, replies, list_replies, replies_lem, put_event, take_event, accepted, taken,
  init-IsValid, push-IsValid, push-dropped,
}
use lynx_monitor.RawQueue.Contract.{IsValid, pop-IsValid, pop-progress}

abbrev tencent : Text
tencent = codes "00700.HK"

abbrev tick : ℕ → Message ℕ
tick n = record { type = tick_realtime; symbol = some tencent; body = n }

abbrev warning : Message ℕ
warning = record { type = alert_realtime; symbol = some tencent; body = 9 }

abbrev response : Message ℕ
response = record { type = snapshot; symbol = some tencent; body = 4 }

abbrev no_messages : GatewayClientQueue ℕ
no_messages = record { client_id = codes "desk"; max_size = 2; queue = []; stats = no_stats }

abbrev one_tick : GatewayClientQueue ℕ
one_tick = enqueue (tick 1) no_messages

abbrev tick_and_snapshot : GatewayClientQueue ℕ
tick_and_snapshot = enqueue response one_tick

no_messages-IsBalanced : IsBalanced 0 no_messages
no_messages-IsBalanced = record { bounded = omega arith; balanced = refl; displaced = omega arith }

run_uses-IsBalanced_example :
    IsBalanced 2
      (run_uses (offer (tick 1) ∷ offer response ∷ offer warning ∷ flush none ∷ []) 0 no_messages).1
unfolding enqueue run_uses drain
run_uses-IsBalanced_example =
    run_uses-IsBalanced (offer (tick 1) ∷ offer response ∷ offer warning ∷ flush none ∷ []) 0
      no_messages no_messages-IsBalanced

alerts-enqueue_example : alerts (enqueue warning tick_and_snapshot).queue ≡ warning ∷ []
unfolding enqueue is_alert
alerts-enqueue_example = alerts-enqueue warning tick_and_snapshot (omega arith)

criticals-enqueue_example : criticals (enqueue response one_tick).queue ≡ response ∷ []
unfolding enqueue is_critical is_alert
criticals-enqueue_example = criticals-enqueue response one_tick (omega arith) refl

no_messages-IsCoalesced : IsCoalesced no_messages
no_messages-IsCoalesced = record { single = λ t s co. omega arith }

enqueue-IsCoalesced_example : IsCoalesced (enqueue (tick 1) no_messages)
enqueue-IsCoalesced_example = enqueue-IsCoalesced (tick 1) no_messages no_messages-IsCoalesced

-- The newer tick takes the place of the older one, and a queue of two still has room for the snapshot.
enqueue-newest_example :
    (stream tick_realtime tencent (enqueue (tick 2) one_tick).queue ≡ tick 2 ∷ [])
    × (length (enqueue (tick 2) one_tick).queue ≡ length one_tick.queue)
unfolding enqueue same_stream is_coalescible text_eq
enqueue-newest_example =
    enqueue-newest tick_realtime tencent (tick 2) one_tick
      (enqueue-IsCoalesced (tick 1) no_messages no_messages-IsCoalesced) refl refl refl

-- A full queue drops its oldest ordinary message for an alert.
overflow : (enqueue warning tick_and_snapshot).queue ≡ response ∷ warning ∷ []
unfolding enqueue
overflow = refl

-- A payload of the callback, of a period.
abbrev callback : Text → ℕ → RawCallback ℕ
callback period n = record {
  symbol = some (codes "700");
  code = none;
  period = some period;
  upper_period = none;
  kind = none;
  body = n;
}

abbrev book : ℕ → RawCallback ℕ
book = callback (codes "L2Thousand")

started : init 2 ≡ ok (new_queue (RawCallback ℕ) 2)
unfolding init
started = refl

abbrev full_queue : BoundedRawEventQueue (RawCallback ℕ)
full_queue = (push (callback [] 2) (push (book 1) (new_queue (RawCallback ℕ) 2)).0).0

coalesce_key : raw_event_queue_coalesce_key (book 1) ≡ some (codes "00700.HK|l2thousand")
unfolding raw_event_queue_coalesce_key
coalesce_key = refl

full_queue-IsValid : IsValid full_queue
full_queue-IsValid =
    push-IsValid (callback [] 2) (push (book 1) (new_queue (RawCallback ℕ) 2)).0
      (push-IsValid (book 1) (new_queue (RawCallback ℕ) 2) (init-IsValid 2 _ started).0)

-- The newer book replaces the older one, also when the queue is full; a tick is refused.
replies_lem_example :
    replies
      (put_event (book 1)
        ∷ put_event (callback [] 2)
        ∷ put_event (book 3)
        ∷ put_event (callback [] 4)
        ∷ take_event
        ∷ [])
      (new_queue (RawCallback ℕ) 2)
    ≡ accepted true ∷ accepted true ∷ accepted true ∷ accepted false ∷ taken (some (book 3)) ∷ []
unfolding list_replies raw_event_queue_coalesce_key
replies_lem_example =
    replies_lem
      (put_event (book 1)
        ∷ put_event (callback [] 2)
        ∷ put_event (book 3)
        ∷ put_event (callback [] 4)
        ∷ take_event
        ∷ [])
      2 (new_queue (RawCallback ℕ) 2) started

pop-progress_example :
    (e : RawCallback ℕ) × ((pop full_queue).0 ≡ some e)
    × (length (pop full_queue).1.items + 1 ≡ length full_queue.items)
unfolding push raw_event_queue_coalesce_key
pop-progress_example = pop-progress full_queue full_queue-IsValid (omega arith)

pop-IsValid_example : IsValid (pop full_queue).1
pop-IsValid_example = pop-IsValid full_queue full_queue-IsValid

push-IsValid_example : IsValid (push (book 3) full_queue).0
push-IsValid_example = push-IsValid (book 3) full_queue full_queue-IsValid

push-dropped_example : (push (callback [] 4) full_queue).0.dropped ≡ callback [] 4 ∷ []
unfolding push raw_event_queue_coalesce_key
push-dropped_example = push-dropped (callback [] 4) full_queue

-- Two clients, of which one has subscribed the symbol.
abbrev client : Text → GatewaySession ℕ
client symbol = record (new_session (codes "desk") 2) { subscribed_symbols = symbol ∷ [] }

abbrev clients : GatewayV2SessionManager ℕ
clients = record {
  client_queue_size = 2;
  sessions = (codes "desk", client tencent) ∷ (codes "other", client (codes "09988.HK")) ∷ [];
  observed_client_ids = codes "desk" ∷ codes "other" ∷ [];
  max_connected_clients = 2;
}

broadcast_lem_example :
    ((broadcast_runtime_messages (tick 1 ∷ tick 2 ∷ []) clients).1.sessions
      ≡ map (at_session (receive_wanted (tick 1 ∷ tick 2 ∷ []))) clients.sessions)
    × ((broadcast_runtime_messages (tick 1 ∷ tick 2 ∷ []) clients).0 ≡ 2)
unfolding count_wanted message_symbol text_eq
broadcast_lem_example = broadcast_lem (tick 1 ∷ tick 2 ∷ []) clients
