-- ===== src/Tests/Requests.antt =====
-- A request of a client, over a runtime that attaches every symbol.
use lynx_monitor.Prelude.{
  ℕ, ◌≡◌, refl, Text, codes, true, false, some, none, List, [], ◌∷◌, ok, arith,
}
use lynx_monitor.Value.{Fields, field, end, int, pos, str, null}
use lynx_monitor.Contracts.{Python}
use lynx_monitor.Gateway.{Message, snapshot}
use lynx_monitor.Sessions.{GatewaySession, new_session}
use lynx_monitor.Sessions.Requests.{Backend, SymbolRuntimes, handle_request}
use lynx_monitor.Sessions.Requests.Attachment.{IsAttached, Returns, handle_request-Returns}

abbrev answer : Text → Message ℕ
answer symbol = record { type = snapshot; symbol = some symbol; body = 1 }

-- The state is the list of the symbols attached.
abbrev attaching : SymbolRuntimes ℕ (List Text)
attaching = record {
  runtime_state_payload = λ symbol w. null;
  snapshot_payload = λ symbol w. null;
  retain_existing_runtime = λ symbol client w. (false, w);
  attach = λ symbol client w. (ok (answer symbol), symbol ∷ w);
  detach = λ symbol client w. w;
}

abbrev service : Backend ℕ (List Text)
service = record {
  symbol_runtimes = some attaching;
  realtime_seed = none;
  subscribe = λ symbol w. (ok (answer symbol), w);
  snapshot_message = λ symbol payload w. ok (answer symbol);
  holding_history = λ symbol name days w. (ok (answer symbol), w);
  health = λ w. ok (answer []);
}

abbrev formats : Python
formats = record { format = λ v. []; fromisoformat = λ t. true }

abbrev request : Fields
request = field "schema_version" (int (pos 1)) (
    field "protocol" (str (codes "terminal-message-v1"))
      (field "action" (str (codes "subscribe")) (field "symbol" (str (codes "700")) end)))

abbrev session : GatewaySession ℕ
session = new_session (codes "desk") 2

session-IsAttached : IsAttached session
session-IsAttached = record { held = λ t h. absurd (ground (arith, h)) }

handle_request-Returns_example :
    Returns (handle_request service (codes "20260601") (codes "desk") formats request session [])
handle_request-Returns_example =
    handle_request-Returns service (codes "20260601") (codes "desk") formats request attaching
      session [] refl session-IsAttached

-- The request attaches the symbol in its canonical form.
attached_symbol :
    (handle_request service (codes "20260601") (codes "desk") formats request session []).1
    ≡ codes "00700.HK" ∷ []
unfolding handle_request
attached_symbol = refl
