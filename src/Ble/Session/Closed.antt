-- ===== src/Ble/Session/Closed.antt =====
-- Connecting once, and what is left of a session whose link is gone.
use onesti_lock.Base.{Bool, List, [], ◌≡◌, ◌⊎◌, inl, inr, refl, arith}
use onesti_lock.Ble.Error.{disconnected}
use onesti_lock.Ble.Command.{CommandPayload}
use onesti_lock.Ble.Session.{
  Session, closed, close, Incoming, link_dropped, close_called, step, steps, notification,
  on_disconnect,
}
use onesti_lock.Ble.Session.Kept.{steps-Keeps}
use onesti_lock.Ble.Session.Exchange.{Course, exchange, stop, send}

exchange-closed :
    (c : CommandPayload) (t : Course) (s : Session)
    → s.state ≡ closed
    → exchange c t s ≡ stop disconnected s []
unfolding exchange
exchange-closed c t s h = ground arith

send-closed :
    (c : CommandPayload) (t : Course) (skip : Bool) (s : Session)
    → s.state ≡ closed
    → send c skip t s ≡ stop disconnected s []
unfolding send
send-closed c t skip s h = ground arith

step-closed :
    (s : Session) (i : Incoming)
    → (i ≡ link_dropped) ⊎ (i ≡ close_called)
    → (step i s).0.state ≡ closed
unfolding step on_disconnect close
step-closed s link_dropped cause = ground arith
step-closed s close_called cause = refl
step-closed s (notification bytes) (inl e) = cc e
step-closed s (notification bytes) (inr e) = cc e

-- Once the link has dropped or the session was closed, and whatever arrives after that, no command
-- puts a frame on the air: it raises BleDisconnectedError and changes nothing.
pub exchange_closed :
    (c : CommandPayload) (t : Course) (skip_app_gates : Bool) (s : Session) (i : Incoming)
    (later : List Incoming)
    → (i ≡ link_dropped) ⊎ (i ≡ close_called)
    → let s' = (steps later (step i s).0).0 in
      (exchange c t s' ≡ stop disconnected s' [])
      × (send c skip_app_gates t s' ≡ stop disconnected s' [])
exchange_closed c t skip_app_gates s i later cause =
    let shut = (steps-Keeps later (step i s).0).closed (step-closed s i cause) in
    (
      exchange-closed c t (steps later (step i s).0).0 shut,
      send-closed c t skip_app_gates (steps later (step i s).0).0 shut,
    )
