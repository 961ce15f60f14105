-- ===== src/TerminalGateway/Replies.antt =====
-- backend/beast_market/pipeline.py: the messages of `GatewayV2` that answer a client, and those that it only records.
-- The snapshot cache is what `get_terminal_snapshot` gives.
use lynx_monitor.Prelude.{
  ℕ, ◌+◌, Text, Option, none, some, List, [], ◌∷◌, ◌++◌, length, codes, text_equality, Result, ok,
  raise, ◌>>=◌, fail, key_error,
}
use lynx_monitor.Value.{ℤ, int, str, list, dict, Items, Fields, field, end}
use lynx_monitor.Contracts.{Python}
use lynx_monitor.Contracts.Events.{validate_terminal_message}
use lynx_monitor.TerminalGateway.{GatewayV2, Stamped, gateway_terminal}

module _ {C : Type 0} (py : Python) (fresh_id : Text → Text → ℕ → Text) (now : Text) where
  abbrev pub stamped_with : Result Fields × Stamped → GatewayV2 C → Result Fields × GatewayV2 C
  stamped_with (message, s) g = (message, record g { stamped = s })

  unfoldable pub snapshot_message : Text → Fields → GatewayV2 C → Result Fields × GatewayV2 C
  unfolding gateway_terminal
  snapshot_message symbol payload g =
      stamped_with
        (gateway_terminal py fresh_id now (codes "snapshot") symbol payload none g.stamped) g

  abbrev pub cached :
      (symbol trade_date : Text)
      → Result (Option Fields)
      → GatewayV2 C
      → Result Fields × GatewayV2 C
  cached symbol trade_date (raise e) g = (raise e, g)
  cached symbol trade_date (ok none) g = (
    fail key_error
        (codes "missing terminal snapshot for " ++ (symbol ++ (codes " on " ++ trade_date))),
    g,
  )
  cached symbol trade_date (ok (some snapshot)) g = snapshot_message symbol snapshot g

  unfoldable pub subscribe :
      (get_terminal_snapshot : Text → Text → Result (Option Fields))
      → (symbol trade_date : Text) → GatewayV2 C
      → Result Fields × GatewayV2 C
  unfolding snapshot_message
  subscribe get_terminal_snapshot symbol trade_date =
      cached symbol trade_date (get_terminal_snapshot trade_date symbol)

  unfoldable pub holding_history_response :
      (symbol participant_name : Text)
      → (days : ℤ) → (history : Items) → GatewayV2 C
      → Result Fields × GatewayV2 C
  unfolding gateway_terminal
  holding_history_response symbol participant_name days history g =
      stamped_with
        (gateway_terminal py fresh_id now (codes "holding_name_click_response") symbol
          (field "participant_name" (str participant_name) (
            field "days" (int days) (
              field "history" (list history)
                (field "freshness" (dict (field "updated_at" (str now) end)) end))))
          none g.stamped)
        g

module _ (py : Python) where
  unfoldable pub validate_messages : List Fields → Result (Unit {0})
  unfolding validate_terminal_message
  validate_messages [] = ok tt
  validate_messages (m ∷ ms) = do _ ← validate_terminal_message py m; validate_messages ms

module _ {C : Type 0} (py : Python) where
  abbrev pub messages_recorded :
      List Fields → Result (Unit {0}) → GatewayV2 C → Result (Unit {0}) × GatewayV2 C
  messages_recorded messages (raise e) g = (raise e, g)
  messages_recorded messages (ok _) g = (
    ok tt,
    record g {
      last_terminal_messages = messages;
      direct_runtime_messages_emitted = g.direct_runtime_messages_emitted + length messages;
      terminal_messages_emitted = g.terminal_messages_emitted + length messages;
    },
  )

  unfoldable pub record_direct_terminal_messages :
      List Fields → GatewayV2 C → Result (Unit {0}) × GatewayV2 C
  unfolding validate_messages
  record_direct_terminal_messages [] g = (ok tt, g)
  record_direct_terminal_messages (m ∷ ms) g =
      messages_recorded (m ∷ ms) (validate_messages py (m ∷ ms)) g
