-- ===== src/Sessions/Requests/Attachment.antt =====
-- A symbol whose runtime a client holds is one that the client has subscribed.
use lynx_monitor.Prelude.{
  ℕ, codes, ◌≡◌, Text, Bool, true, false, not, Option, some, none, Result, ok, raise, ◌>>=◌,
  if◌then◌else◌, select, ap, text_eq, text_eq_iff, arith, Bool-cases, inl, inr,
}
use lynx_monitor.Symbols.{is_empty, normalize_symbol, require_gateway_symbol}
use lynx_monitor.Value.{Fields}
use lynx_monitor.Contracts.{Python}
use lynx_monitor.Gateway.{Message}
use lynx_monitor.Pool.{contains}
use lynx_monitor.Pool.Members.{contains-add_once, contains-select}
use lynx_monitor.Sessions.{GatewaySession, receive}
use lynx_monitor.Sessions.Requests.{
  Backend, SymbolRuntimes, active_runtime_snapshot, subscribe_from, subscribe_symbol,
  unsubscribe_symbol, click_holding_name, handle_action, handle_request, subscribed, attached,
  participant_of, days_of, text_at, validate_gateway_request_protocol,
}

module _ {P : Type 0} where
  pub record IsAttached (s : GatewaySession P) : Type 0 where
    pub held :
        (t : Text)
        → contains s.attached_runtime_symbols t ≡ true
        → contains s.subscribed_symbols t ≡ true

  subscribed-IsAttached :
      (symbol : Text) (m : Message P) (s : GatewaySession P)
      → IsAttached s
      → IsAttached (subscribed symbol m s)
  subscribed-IsAttached symbol m s a = record {
    held = λ t h. ground (arith, contains-add_once s.subscribed_symbols symbol t, a.held t h);
  }

  both-IsAttached :
      (symbol : Text) (m : Message P) (s : GatewaySession P)
      → IsAttached s
      → IsAttached (subscribed symbol m (attached symbol s))
  both-IsAttached symbol m s a = record {
    held = λ t h. elim (Bool-cases (contains s.attached_runtime_symbols t)) [
      | inl old ↦ ground (arith, contains-add_once s.subscribed_symbols symbol t, a.held t old)
      | inr new ↦ ground (
        arith,
        contains-add_once s.subscribed_symbols symbol t,
        contains-add_once s.attached_runtime_symbols symbol t,
      )
    ];
  }

  without-IsAttached :
      (symbol : Text) (s : GatewaySession P)
      → IsAttached s
      → IsAttached (record s {
        subscribed_symbols = select (λ t. not (text_eq t symbol)) s.subscribed_symbols;
        attached_runtime_symbols = select (λ t. not (text_eq t symbol)) s.attached_runtime_symbols;
      })
  without-IsAttached symbol s a = record {
    held = λ t h. elim (Bool-cases (contains s.attached_runtime_symbols t)) [
      | inl old ↦ ground (
        arith,
        contains-select (λ r. not (text_eq r symbol)) s.subscribed_symbols t,
        contains-select (λ r. not (text_eq r symbol)) s.attached_runtime_symbols t,
        a.held t old,
      )
      | inr new ↦
          ground (arith, contains-select (λ r. not (text_eq r symbol)) s.attached_runtime_symbols t)
    ];
  }

  absent-IsAttached :
      (symbol : Text) (s : GatewaySession P)
      → contains s.attached_runtime_symbols symbol ≡ false
      → IsAttached s
      → IsAttached (record s {
        subscribed_symbols = select (λ t. not (text_eq t symbol)) s.subscribed_symbols;
      })
  absent-IsAttached symbol s absent a = record {
    held = λ t h. elim (Bool-cases (text_eq t symbol)) [
      | inl same ↦ absurd (
          ground (
            arith,
            h,
            absent,
            ap (contains s.attached_runtime_symbols) ((text_eq_iff t symbol).0 same),
          ))
      | inr other ↦
          ground (
            arith,
            contains-select (λ r. not (text_eq r symbol)) s.subscribed_symbols t,
            a.held t h,
          )
    ];
  }

  -- What a call returns, if it returns.
  abbrev pub Returns : {W : Type 0} → Result (GatewaySession P) × W → Type 0
  Returns r = elim r.0 [ ok s ↦ IsAttached s | raise _ ↦ Unit ]

  received-IsAttached :
      (m : Message P) (s : GatewaySession P) → IsAttached s → IsAttached (receive m s)
  received-IsAttached m s a = record { held = a.held }

  bind-Returns :
      {W : Type 0} (r : Result (Message P)) (f : Message P → GatewaySession P) (w : W)
      → ((m : Message P) → IsAttached (f m))
      → Returns (r >>= (λ m. ok (f m)), w)
  bind-Returns (ok m) f w h = h m
  bind-Returns (raise e) f w h = tt

module _ {P W : Type 0} (backend : Backend P W) (trade_date client_id : Text)
    (runtimes : SymbolRuntimes P W) where
  subscribe_from-Returns :
      (symbol : Text) (s : GatewaySession P) (fast : Result (Option (Message P)) × W)
      → IsAttached s
      → Returns (subscribe_from backend trade_date client_id runtimes symbol s fast)
  unfolding subscribe_from
  subscribe_from-Returns symbol s (raise e, w) a = tt
  subscribe_from-Returns symbol s (ok none, w) a =
      bind-Returns (runtimes.attach symbol client_id w).0
        (λ m. subscribed symbol m (attached symbol s)) (runtimes.attach symbol client_id w).1
        (λ m. both-IsAttached symbol m s a)
  subscribe_from-Returns symbol s (ok (some m), w) a =
      elim (Bool-cases (runtimes.retain_existing_runtime symbol client_id w).0) [
        | inl kept ↦ rw kept (both-IsAttached symbol m s a)
        | inr lost ↦ rw lost (subscribed-IsAttached symbol m s a)
      ]

  subscribe_symbol-Returns :
      (symbol : Text) (s : GatewaySession P) (w : W)
      → backend.symbol_runtimes ≡ some runtimes
      → IsAttached s
      → Returns (subscribe_symbol backend trade_date client_id symbol s w)
  unfolding subscribe_symbol
  subscribe_symbol-Returns symbol s w has a = rw has (
      subscribe_from-Returns symbol s
        (active_runtime_snapshot backend trade_date client_id runtimes symbol w) a)

  unsubscribe_symbol-IsAttached :
      (symbol : Text) (s : GatewaySession P) (w : W)
      → backend.symbol_runtimes ≡ some runtimes
      → IsAttached s
      → IsAttached (unsubscribe_symbol backend trade_date client_id symbol s w).0
  unfolding unsubscribe_symbol
  unsubscribe_symbol-IsAttached symbol s w has a =
      elim (Bool-cases (contains s.attached_runtime_symbols symbol)) [
        | inl old ↦ rw (has, old) (without-IsAttached symbol s a)
        | inr new ↦ rw (has, new) (absent-IsAttached symbol s new a)
      ]

module _ {P W : Type 0} where
  if-Returns :
      (b : Bool) (x y : Result (GatewaySession P) × W)
      → Returns x
      → Returns y
      → Returns (if b then x else y)
  if-Returns true x y h k = h
  if-Returns false x y h k = k

  guard-Returns :
      (r : Result (Unit {0})) (x : Result (GatewaySession P) × W) (w : W)
      → Returns x
      → Returns
          (elim r as (λ _. Result (GatewaySession P) × W) [ raise e ↦ (raise e, w) | ok _ ↦ x ])
  guard-Returns (ok u) x w h = h
  guard-Returns (raise e) x w h = tt

  option-Returns :
      (o : Option ℕ) (x : Result (GatewaySession P) × W) (f : ℕ → Result (GatewaySession P) × W)
      → Returns x
      → ((n : ℕ) → Returns (f n))
      → Returns (elim o as (λ _. Result (GatewaySession P) × W) [ none ↦ x | some n ↦ f n ])
  option-Returns none x f h k = h
  option-Returns (some n) x f h k = k n

module _ {P W : Type 0} (backend : Backend P W) (trade_date client_id : Text) (py : Python)
    (request : Fields) where
  click-Returns :
      (symbol : Text) (s : GatewaySession P) (w : W)
      → IsAttached s
      → Returns (click_holding_name backend trade_date client_id py request symbol s w)
  unfolding click_holding_name
  click-Returns symbol s w a =
      if-Returns (is_empty (participant_of backend trade_date client_id py request)) _ _ tt (
        option-Returns (days_of backend trade_date client_id request) _ _ tt λ days.
          bind-Returns
            (backend.holding_history symbol (participant_of backend trade_date client_id py request)
              days w).0
            (λ m. receive m s)
            (backend.holding_history symbol (participant_of backend trade_date client_id py request)
              days w).1
            (λ m. received-IsAttached m s a))

  -- With a symbol runtime, a request of any kind that is answered leaves a session in which every symbol
  -- whose runtime the client holds is subscribed, if it was so before.
  pub handle_request-Returns :
      (runtimes : SymbolRuntimes P W) (s : GatewaySession P) (w : W)
      → backend.symbol_runtimes ≡ some runtimes
      → IsAttached s
      → Returns (handle_request backend trade_date client_id py request s w)
  unfolding handle_request handle_action
  handle_request-Returns runtimes s w has a =
      let action = text_at py request "action" in
      let symbol = normalize_symbol (text_at py request "symbol") in
      let known = require_gateway_symbol symbol action in
      guard-Returns (validate_gateway_request_protocol py request) _ w (
        if-Returns (text_eq action (codes "subscribe")) _ _
          (guard-Returns known _ w
            (subscribe_symbol-Returns backend trade_date client_id runtimes symbol s w has a))
          (if-Returns (text_eq action (codes "unsubscribe")) _ _
            (guard-Returns known
              (let left = unsubscribe_symbol backend trade_date client_id symbol s w in
                (ok left.0, left.1))
              w
              (unsubscribe_symbol-IsAttached backend trade_date client_id runtimes symbol s w has
                a))
            (if-Returns (text_eq action (codes "holding_name_click")) _ _
              (guard-Returns known _ w (click-Returns symbol s w a))
              (if-Returns (text_eq action (codes "health")) _ _
                (bind-Returns (backend.health w) (λ m. receive m s) w
                  (λ m. received-IsAttached m s a))
                tt))))
