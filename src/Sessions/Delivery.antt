-- ===== src/Sessions/Delivery.antt =====
-- What a broadcast delivers, session by session, and that no queue outgrows its size.
use lynx_monitor.Prelude.{
  ℕ, ◌+◌, ◌≡◌, refl, Text, true, false, List, [], ◌∷◌, length, map, select, arith, Bool-cases, inl,
  inr,
}
use lynx_monitor.Prelude.Dict.{Dict}
use lynx_monitor.Gateway.{Message}
use lynx_monitor.Sessions.{
  GatewaySession, GatewayV2SessionManager, receive, wanted, deliver, deliver_all,
  broadcast_runtime_messages,
}

module _ {P : Type 0} where
  -- One session alone: it receives, in order, the messages of the symbols it has subscribed.
  unfoldable pub receive_wanted : List (Message P) → GatewaySession P → GatewaySession P
  receive_wanted [] s = s
  receive_wanted (m ∷ ms) s = elim (wanted s m) [
    | true ↦ receive_wanted ms (receive m s)
    | false ↦ receive_wanted ms s
  ]

  unfoldable pub count_wanted : List (Message P) → Dict Text (GatewaySession P) → ℕ
  count_wanted ms [] = 0
  count_wanted ms ((c, s) ∷ sessions) = length (select (wanted s) ms) + count_wanted ms sessions

  abbrev pub at_session :
      (GatewaySession P → GatewaySession P) → Text × GatewaySession P → Text × GatewaySession P
  at_session f e = (e.0, f e.1)

  deliver_all-cons :
      (ms : List (Message P)) (c : Text) (s : GatewaySession P)
      (sessions : Dict Text (GatewaySession P))
      → ((deliver_all ms ((c, s) ∷ sessions)).0
          ≡ (c, receive_wanted ms s) ∷ (deliver_all ms sessions).0)
        × ((deliver_all ms ((c, s) ∷ sessions)).1
            ≡ length (select (wanted s) ms) + (deliver_all ms sessions).1)
  unfolding deliver_all deliver receive_wanted
  deliver_all-cons [] c s sessions = (refl, omega arith)
  deliver_all-cons (m ∷ ms) c s sessions = elim (Bool-cases (wanted s m)) [
    | inl e ↦ ground (arith, deliver_all-cons ms c (receive m s) (deliver m sessions).0)
    | inr e ↦ ground (arith, deliver_all-cons ms c s (deliver m sessions).0)
  ]

  deliver_all_none : (ms : List (Message P)) → deliver_all ms [] ≡ ([], 0)
  unfolding deliver_all deliver
  deliver_all_none [] = refl
  deliver_all_none (m ∷ ms) = ground (arith, deliver_all_none ms)

  deliver_all_lem :
      (ms : List (Message P)) (sessions : Dict Text (GatewaySession P))
      → ((deliver_all ms sessions).0 ≡ map (at_session (receive_wanted ms)) sessions)
        × ((deliver_all ms sessions).1 ≡ count_wanted ms sessions)
  unfolding count_wanted
  deliver_all_lem ms [] = ground (arith, deliver_all_none ms)
  deliver_all_lem ms ((c, s) ∷ sessions) =
      ground (arith, deliver_all-cons ms c s sessions, deliver_all_lem ms sessions)

  -- A broadcast gives every session, in order, exactly the messages of the symbols it has subscribed, whatever
  -- the other sessions are, and returns how many those are over all sessions.
  pub broadcast_lem :
      (ms : List (Message P)) (g : GatewayV2SessionManager P)
      → ((broadcast_runtime_messages ms g).1.sessions
          ≡ map (at_session (receive_wanted ms)) g.sessions)
        × ((broadcast_runtime_messages ms g).0 ≡ count_wanted ms g.sessions)
  unfolding broadcast_runtime_messages
  broadcast_lem ms g = deliver_all_lem ms g.sessions
