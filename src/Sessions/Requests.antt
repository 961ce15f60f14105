-- ===== src/Sessions/Requests.antt =====
-- gateway_transport.py: what `handle_message` does to the session of the client that sent a request, once the
-- request is a dict. `Backend` is the gateway, the history and the symbol runtime, over their state `W`; the
-- reads of a runtime neither raise nor change it.
pub mod Attachment
use lynx_monitor.Prelude.{
  ℕ, zero, suc, ◌+◌, String, Text, Bool, true, false, not, ◌&&◌, ◌||◌, Option, none, some, List, [],
  ◌∷◌, ◌++◌, select, if◌then◌else◌, text_eq, Result, ok, raise, ◌>>=◌, fail, value_error, codes,
  eqb,
}
use lynx_monitor.Symbols.{strip, is_empty, normalize_symbol, require_gateway_symbol}
use lynx_monitor.Value.{
  ℤ, pos, negsuc, Value, null, bool, int, str, list, dict, Items, nil, cons, Fields, find,
  get_value, is_dict, is_list, fields_of, items_of, truthy,
}
use lynx_monitor.Contracts.{Python, equals_one, is_positive_int}
use lynx_monitor.Contracts.Events.{is_text}
use lynx_monitor.Gateway.{Message, enqueue}
use lynx_monitor.Pool.{contains, add_once}
use lynx_monitor.Sessions.{GatewaySession, receive}

-- `SymbolRuntimeManager`, as the gateway uses it.
pub record SymbolRuntimes (P W : Type 0) : Type 0 where
  pub runtime_state_payload : Text → W → Value
  pub snapshot_payload : Text → W → Value
  pub retain_existing_runtime : Text → Text → W → Bool × W
  pub attach : Text → Text → W → Result (Message P) × W
  pub detach : Text → Text → W → W

pub record Backend (P W : Type 0) : Type 0 where
  pub symbol_runtimes : Option (SymbolRuntimes P W)
  pub realtime_seed : Option (Text → W → W)  -- whether it returns or raises
  pub subscribe : Text → W → Result (Message P) × W
  pub snapshot_message : Text → Fields → W → Result (Message P)
  pub holding_history : Text → Text → ℕ → W → Result (Message P) × W
  pub health : W → Result (Message P)

-- "…" in values
abbrev has_text : Text → Items → Bool
has_text t nil = false
has_text t (cons v vs) = is_text t v || has_text t vs

unfoldable pub snapshot_needs_realtime_seed : Fields → Text → Bool
unfolding find truthy text_eq
snapshot_needs_realtime_seed payload trade_date =
    let freshness = get_value payload "freshness" in
    let source_dates =
      if is_dict freshness
      then get_value (fields_of freshness) "source_dates"
      else dict Fields.end in
    let degraded_reasons =
      if is_dict freshness then get_value (fields_of freshness) "degraded_reasons" else list nil in
    let minute_bars = get_value payload "minute_bars" in
    if is_list degraded_reasons
      && has_text (codes "intraday_gap_before_attach") (items_of degraded_reasons)
    then true
    else if not (is_list minute_bars) || not (truthy minute_bars)
    then true
    else if not (is_dict source_dates)
    then true
    else not (is_text trade_date (get_value (fields_of source_dates) "minute_bars"))
      && not (is_text trade_date (get_value (fields_of source_dates) "latest_bar"))

-- request.get(key) is the text, or the text is empty and there is none: str(request.get(key, ""))
abbrev pub text_at : Python → Fields → String → Text
text_at py request key = elim (find key request) [
  | none ↦ []
  | some (str s) ↦ s
  | some v ↦ py.format v
]

-- value is True
abbrev is_true : Value → Bool
is_true (bool b) = b
is_true _ = false

unfoldable pub validate_gateway_request_protocol : Python → Fields → Result (Unit {0})
unfolding find equals_one text_eq
validate_gateway_request_protocol py request =
    if not (equals_one (get_value request "schema_version"))
    then fail value_error (
        codes "unsupported gateway request schema_version: "
        ++ py.format (get_value request "schema_version"))
    else if not (is_text (codes "terminal-message-v1") (get_value request "protocol"))
    then fail value_error
        (codes "unsupported gateway request protocol: " ++ py.format (get_value request "protocol"))
    else ok tt

module _ {P : Type 0} where
  -- session.subscribed_symbols.add(symbol), then the snapshot into the queue
  abbrev pub subscribed : Text → Message P → GatewaySession P → GatewaySession P
  subscribed symbol m s =
      receive m (record s { subscribed_symbols = add_once s.subscribed_symbols symbol })

  abbrev pub attached : Text → GatewaySession P → GatewaySession P
  attached symbol s = record s {
    attached_runtime_symbols = add_once s.attached_runtime_symbols symbol;
  }

module _ {P W : Type 0} (backend : Backend P W) (trade_date client_id : Text) where
  -- The payload after the seed, if it needs one.
  unfoldable pub seeded : SymbolRuntimes P W → Text → Fields → W → Fields × W
  unfolding snapshot_needs_realtime_seed
  seeded runtimes symbol payload w =
      if not (snapshot_needs_realtime_seed payload trade_date)
      then (payload, w)
      else elim (backend.realtime_seed) [
        | none ↦ (payload, w)
        | some seed ↦ elim (runtimes.snapshot_payload symbol (seed symbol w)) [
          | dict refreshed ↦ (refreshed, seed symbol w)
          | _ ↦ (payload, seed symbol w)
        ]
      ]

  -- `_active_runtime_snapshot`, with a symbol runtime
  unfoldable pub active_runtime_snapshot :
      SymbolRuntimes P W → Text → W → Result (Option (Message P)) × W
  unfolding seeded find
  active_runtime_snapshot runtimes symbol w =
      if not (
        is_true
          (get_value (fields_of (runtimes.runtime_state_payload symbol w)) "realtime_attached"))
      then (ok none, w)
      else elim (runtimes.snapshot_payload symbol w) [
        | dict payload ↦
            let ready = seeded runtimes symbol payload w in
            ((backend.snapshot_message symbol ready.0 ready.1) >>= (λ m. ok (some m)), ready.1)
        | _ ↦ (ok none, w)
      ]

  -- The rest of the branch "subscribe", with a symbol runtime, once the fast snapshot is known.
  unfoldable pub subscribe_from :
      SymbolRuntimes P W
      → Text
      → GatewaySession P
      → Result (Option (Message P)) × W
      → Result (GatewaySession P) × W
  unfolding add_once enqueue
  subscribe_from runtimes symbol s (raise e, w) = (raise e, w)
  subscribe_from runtimes symbol s (ok (some m), w) =
      let kept = runtimes.retain_existing_runtime symbol client_id w in
      (ok (subscribed symbol m (if kept.0 then attached symbol s else s)), kept.1)
  subscribe_from runtimes symbol s (ok none, w) =
      let made = runtimes.attach symbol client_id w in
      (made.0 >>= (λ m. ok (subscribed symbol m (attached symbol s))), made.1)

  -- The branch "subscribe", of a symbol that is canonical.
  unfoldable pub subscribe_symbol : Text → GatewaySession P → W → Result (GatewaySession P) × W
  unfolding active_runtime_snapshot subscribe_from
  subscribe_symbol symbol s w = elim (backend.symbol_runtimes) [
    | none ↦
        let made = backend.subscribe symbol w in
        (made.0 >>= (λ m. ok (subscribed symbol m s)), made.1)
    | some runtimes ↦ subscribe_from runtimes symbol s (active_runtime_snapshot runtimes symbol w)
  ]

  abbrev without : Text → List Text → List Text
  without symbol xs = select (λ t. not (text_eq t symbol)) xs

  -- The branch "unsubscribe".
  unfoldable pub unsubscribe_symbol : Text → GatewaySession P → W → GatewaySession P × W
  unfolding text_eq
  unsubscribe_symbol symbol s w =
      let left = record s { subscribed_symbols = without symbol s.subscribed_symbols } in
      elim (backend.symbol_runtimes) [
        | none ↦ (left, w)
        | some runtimes ↦
            if contains s.attached_runtime_symbols symbol
            then (
              record left { attached_runtime_symbols = without symbol s.attached_runtime_symbols },
              runtimes.detach symbol client_id w,
            )
            else (left, w)
      ]

  -- str(value) of the names that a request may give a participant by, stripped
  abbrev pub participant_of : Python → Fields → Text
  participant_of py request =
      let first = get_value request "participant_name" in
      let second = get_value request "participantName" in
      if truthy first
      then strip (text_at py request "participant_name")
      else if truthy second
      then strip (text_at py request "participantName")
      else []

  -- request.get("days", 30), if it is a positive integer
  abbrev pub days_of : Fields → Option ℕ
  days_of request = elim (find "days" request) [
    | none ↦ some 30
    | some (int (pos (suc n))) ↦ some (suc n)
    | some _ ↦ none
  ]

  -- The branch "holding_name_click", of a symbol that is canonical.
  unfoldable pub click_holding_name :
      Python → Fields → Text → GatewaySession P → W → Result (GatewaySession P) × W
  unfolding truthy find strip enqueue
  click_holding_name py request symbol s w =
      if is_empty (participant_of py request)
      then (fail value_error (codes "holding_name_click requires participant_name"), w)
      else elim (days_of request) [
        | none ↦ (fail value_error (codes "holding_name_click requires positive integer days"), w)
        | some days ↦
            let made = backend.holding_history symbol (participant_of py request) days w in
            (made.0 >>= (λ m. ok (receive m s)), made.1)
      ]

  -- The dispatch of `handle_message`, of a request whose protocol was validated.
  unfoldable pub handle_action :
      Python → Fields → GatewaySession P → W → Result (GatewaySession P) × W
  unfolding find text_eq subscribe_symbol unsubscribe_symbol click_holding_name normalize_symbol
      require_gateway_symbol
  handle_action py request s w =
      let action = text_at py request "action" in
      let symbol = normalize_symbol (text_at py request "symbol") in
      if text_eq action (codes "subscribe")
      then elim (require_gateway_symbol symbol action) [
        | raise e ↦ (raise e, w)
        | ok _ ↦ subscribe_symbol symbol s w
      ]
      else if text_eq action (codes "unsubscribe")
      then elim (require_gateway_symbol symbol action) [
        | raise e ↦ (raise e, w)
        | ok _ ↦ let left = unsubscribe_symbol symbol s w in (ok left.0, left.1)
      ]
      else if text_eq action (codes "holding_name_click")
      then elim (require_gateway_symbol symbol action) [
        | raise e ↦ (raise e, w)
        | ok _ ↦ click_holding_name py request symbol s w
      ]
      else if text_eq action (codes "health")
      then (backend.health w >>= (λ m. ok (receive m s)), w)
      else (fail value_error (codes "unsupported gateway action: " ++ action), w)

  unfoldable pub handle_request :
      Python → Fields → GatewaySession P → W → Result (GatewaySession P) × W
  unfolding validate_gateway_request_protocol handle_action
  handle_request py request s w = elim (validate_gateway_request_protocol py request) [
    | raise e ↦ (raise e, w)
    | ok _ ↦ handle_action py request s w
  ]
