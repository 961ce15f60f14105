-- ===== src/Sessions.antt =====
-- backend/beast_market/gateway_transport.py: the sessions of `GatewayV2SessionManager`, from connection to
-- disconnection, and what a broadcast puts into their queues. `detach` of the symbol runtime is a parameter over its
-- state `W`, as is the state it starts from; sets are lists without repeats. A flush returns the messages,
-- before `json.dumps`.
pub mod Delivery
pub mod Requests
use lynx_monitor.Prelude.{
  ℕ, suc, ◌+◌, String, Text, Bool, true, false, not, Option, none, some, List, [], ◌∷◌, ◌++◌,
  length, max, select, if◌then◌else◌, text_equality, text_eq, Result, ok, raise, fail, key_error,
  codes,
}
use lynx_monitor.Prelude.Dict.{Dict, get, put, remove}
use lynx_monitor.Gateway.{Message, message_symbol, GatewayClientQueue, no_stats, enqueue, drain}
use lynx_monitor.Pool.{contains, add_once}

pub record GatewaySession (P : Type 0) : Type 0 where
  pub queue : GatewayClientQueue P
  pub subscribed_symbols : List Text
  pub attached_runtime_symbols : List Text

-- The fields that connecting, disconnecting and delivering touch. A session stands under its client id.
pub record GatewayV2SessionManager (P : Type 0) : Type 0 where
  pub client_queue_size : ℕ
  pub sessions : Dict Text (GatewaySession P)
  pub observed_client_ids : List Text
  pub max_connected_clients : ℕ

-- The loop of `disconnect` over the attached symbols, which a `detach` that raises ends.
unfoldable pub detach_all :
    {W : Type 0} → (Text → W → Result (Unit {0}) × W) → List Text → W → Result (Unit {0}) × W
detach_all detach [] w = (ok tt, w)
detach_all detach (s ∷ ss) w =
    let detached = detach s w in
    elim (detached.0) [ ok _ ↦ detach_all detach ss detached.1 | raise e ↦ (raise e, detached.1) ]

module _ {P : Type 0} where
  abbrev pub new_session : Text → ℕ → GatewaySession P
  new_session client_id size = record {
    queue = record { client_id = client_id; max_size = size; queue = []; stats = no_stats };
    subscribed_symbols = [];
    attached_runtime_symbols = [];
  }

  -- session.queue.enqueue(message)
  abbrev pub receive : Message P → GatewaySession P → GatewaySession P
  receive m s = record s { queue = enqueue m s.queue }

  -- `connect`, with the health message that the gateway gives it.
  unfoldable pub connect : Text → Message P → GatewayV2SessionManager P → GatewayV2SessionManager P
  unfolding put add_once enqueue
  connect client_id health g =
      let sessions =
        put g.sessions client_id (receive health (new_session client_id g.client_queue_size)) in
      record g {
        sessions = sessions;
        observed_client_ids = add_once g.observed_client_ids client_id;
        max_connected_clients = max g.max_connected_clients (length sessions);
      }

  -- `disconnect`; `none` is a manager without a symbol runtime. The session goes first.
  unfoldable pub disconnect :
      {W : Type 0}
      → Option (Text → Text → W → Result (Unit {0}) × W)
      → Text
      → GatewayV2SessionManager P
      → W
      → Result (Unit {0}) × (GatewayV2SessionManager P × W)
  unfolding get remove detach_all
  disconnect {W} detach client_id g w = elim (get g.sessions client_id) [
    | none ↦ (ok tt, (g, w))
    | some s ↦
        let left : Result (Unit {0}) × W = elim detach [
          | none ↦ (ok tt, w)
          | some d ↦ detach_all (λ symbol. d symbol client_id) s.attached_runtime_symbols w
        ] in
        (left.0, (record g { sessions = remove g.sessions client_id }, left.1))
  ]

  -- if symbol in session.subscribed_symbols
  abbrev pub wanted : GatewaySession P → Message P → Bool
  wanted s m = contains s.subscribed_symbols (message_symbol m)

  -- The inner loop of `broadcast_runtime_messages`, with what it adds to `delivered`.
  unfoldable pub deliver :
      Message P → Dict Text (GatewaySession P) → Dict Text (GatewaySession P) × ℕ
  unfolding message_symbol enqueue text_eq
  deliver m [] = ([], 0)
  deliver m ((client_id, s) ∷ sessions) =
      let rest = deliver m sessions in
      if wanted s m
      then ((client_id, receive m s) ∷ rest.0, rest.1 + 1)
      else ((client_id, s) ∷ rest.0, rest.1)

  -- The outer loop, once the symbol runtime has applied the messages.
  unfoldable pub deliver_all :
      List (Message P) → Dict Text (GatewaySession P) → Dict Text (GatewaySession P) × ℕ
  unfolding deliver
  deliver_all [] sessions = (sessions, 0)
  deliver_all (m ∷ ms) sessions =
      let now = deliver m sessions in let later = deliver_all ms now.0 in (later.0, now.1 + later.1)

  unfoldable pub broadcast_runtime_messages :
      List (Message P) → GatewayV2SessionManager P → ℕ × GatewayV2SessionManager P
  unfolding deliver_all
  broadcast_runtime_messages messages g =
      let out = deliver_all messages g.sessions in (out.1, record g { sessions = out.0 })

  unfoldable pub flush :
      Text
      → Option ℕ
      → GatewayV2SessionManager P
      → Result (List (Message P)) × GatewayV2SessionManager P
  unfolding get put drain
  flush client_id limit g = elim (get g.sessions client_id) [
    | none ↦ (fail key_error (codes "unknown gateway client: " ++ client_id), g)
    | some s ↦ (
      ok (drain limit s.queue).0,
      record g {
        sessions = put g.sessions client_id (record s { queue = (drain limit s.queue).1 });
      },
    )
  ]
