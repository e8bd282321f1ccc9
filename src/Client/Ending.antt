-- ===== src/Client/Ending.antt =====
-- The end of a session that the application stops (src/AutoReconnect.cpp, src/AmqpConnector.cpp).
use amqp_cpp_asio.Base.{
  ℕ, String, ◌≡◌, ◌≢◌, refl, subst, Bool, true, false, some, Option, All, All-and, All-map, List,
  [], ◌∷◌, arith, not, Bool-cases, inl, inr, if◌then◌else◌,
}
use amqp_cpp_asio.Transceiver.{recreate_channel}
use amqp_cpp_asio.Transceiver.Control.{stop as stop_transceiver}
use amqp_cpp_asio.Transceiver.Invariant.{IsValid}
use amqp_cpp_asio.Connector.{ExitCode}
use amqp_cpp_asio.Connector.Machine.{Connector, post_stop, stop_connector, for_each, with_all}
use amqp_cpp_asio.Connector.Shutdown.{IsLinked, for_each-All, with_all-Gives}
use amqp_cpp_asio.Connector.Service.{Delivery, posted}
use amqp_cpp_asio.Connector.Service.Rounds.{Serves}
use amqp_cpp_asio.Connector.Service.Closing.{Stopping, stop-Stopping, posted-Returns}
use amqp_cpp_asio.AutoReconnect.{
  AutoReconnect, call_exit, restarts, restart, original, cancel_timer,
}
use amqp_cpp_asio.AutoReconnect as AutoReconnect
use amqp_cpp_asio.Client.{
  Client, Result, after_call, returns, seen, silent, call_all, after, stop_link, stop, finish,
  stops, finishes, run_events, handle_event,
}
use amqp_cpp_asio.Client.Callbacks.{
  Returns, Returns-and_then, after_loop-Returns, after_call-Returns,
}
use amqp_cpp_asio.Client.Halting.{IsHalted, IsEnding, finished-IsEnding}

-- A session whose connection is up, with the number of the application's exit callback.
pub record IsLive (callback : ℕ) (s : Client) : Type 0 where
  pub is_started : s.wrapper.started ≡ true
  pub watched : s.wrapper.connector.exit_cb ≡ some restarts
  pub backup : s.wrapper.backup_exit_callback ≡ some (original callback)
  pub linked : IsLinked s.connector
  pub up : s.connector.connection_handler_ready ≡ true
  pub staying : s.connector.exiting ≡ false
  pub telling : s.connector.on_exit ≡ true
  pub made : All (λ t. t.state ≢ recreate_channel) s.connector.transceivers

-- `Connector::stop` of a connector that is ready.
stopped_all : Connector → Option Connector
stopped_all c =
    with_all (λ u. record u { calls = post_stop ∷ u.calls }) c
      (for_each stop_transceiver c.transceivers)

stop_connector-ready :
    (c : Connector) → c.connection_handler_ready ≡ true → stopped_all c ≡ stop_connector c
unfolding stop_connector stopped_all
stop_connector-ready c r = elim (Bool-cases c.connection_handler_ready) [
  | inl y ↦ ground arith
  | inr k ↦ cc
]

stop-halted :
    (a : AutoReconnect)
    → a.started ≡ true
    → a.connector.connection_handler_ready ≡ true
    → record a { started = false; calls = AutoReconnect.stop_connector ∷ cancel_timer ∷ a.calls }
      ≡ AutoReconnect.stop a
unfolding AutoReconnect.stop
stop-halted a e r = ground arith

Returns-stop :
    (P : Client → Type 0) (b r : Bool) (x y z : Result)
    → b ≡ true
    → r ≡ true
    → Returns P y
    → Returns P (if not b then x else if r then y else z)
Returns-stop P true true x y z e f p = p
Returns-stop P true false x y z e f p = cc
Returns-stop P false r x y z e f p = cc

module _ (loop : Connector → Delivery) (lines : ExitCode → List String) (callback : ℕ)
    (s : Client) where
  -- What `stop` leaves.
  record Halts (t : Client) : Type 0 where
    halted : IsHalted callback s t.wrapper
    linked : IsLinked t.connector
    up : t.connector.connection_handler_ready ≡ true
    staying : t.connector.exiting ≡ false
    telling : t.connector.on_exit ≡ true
    leaving : All Stopping t.connector.transceivers

  stop_connector-Halts :
      (t : Client)
      → IsHalted callback s t.wrapper
      → IsLinked t.connector
      → t.connector.connection_handler_ready ≡ true
      → t.connector.exiting ≡ false
      → t.connector.on_exit ≡ true
      → All (λ u. u.state ≢ recreate_channel) t.connector.transceivers
      → Returns Halts (stop_link loop lines t)
  unfolding call_all stopped_all
  stop_connector-Halts t h v r x e n =
      subst (λ c. Returns Halts (after_call loop lines t c)) (stop_connector-ready (silent t) r)
        (after_call-Returns loop lines (λ u. Returns Halts (after loop lines t u)) Halts t
          (stopped_all (silent t)) (λ u p. p)
          (with_all-Gives (λ u. record u { calls = post_stop ∷ u.calls })
            (λ u. Returns Halts (after loop lines t u)) (All Stopping) (silent t)
            (for_each stop_transceiver t.connector.transceivers)
            (λ ts a. record {
              halted = h;
              linked = record {
                valid = All-map Stopping IsValid (λ u w. w.0) ts a;
                linked = v.linked;
              };
              up = r;
              staying = x;
              telling = e;
              leaving = a;
            })
            (for_each-All stop_transceiver (λ u. IsValid u × (u.state ≢ recreate_channel)) Stopping
              stop-Stopping t.connector.transceivers
              (All-and IsValid (λ u. u.state ≢ recreate_channel) t.connector.transceivers v.valid
                n))))

  stop-Halts : IsLive callback s → Returns Halts (stop loop lines s)
  unfolding stop
  stop-Halts l =
      let t : Client = record s { wrapper = AutoReconnect.stop (seen s) } in
      let h : IsHalted callback s (AutoReconnect.stop (seen s)) =
        subst (IsHalted callback s) (stop-halted (seen s) l.is_started l.up)
          (record { stopped = refl; watched = l.watched; backup = l.backup; called = refl }) in
      Returns-stop Halts s.wrapper.started s.connector.connection_handler_ready (returns s)
        (stop_link loop lines t) (returns t) l.is_started l.up
        (stop_connector-Halts t h l.linked l.up l.staying l.telling l.made)

  module _ (serves : Serves loop) (on_started : Client → Result)
      (handler_stopped : Connector → Bool) where
    finish-IsEnding :
        (t : Client)
        → Halts t
        → Returns (IsEnding loop lines callback s) (finish loop lines on_started handler_stopped t)
    unfolding finish
    finish-IsEnding t h =
        after_loop-Returns loop lines
          (λ u. Returns (IsEnding loop lines callback s) (after loop lines t u))
          (IsEnding loop lines callback s) t (posted loop handler_stopped (silent t)) (λ u p. p)
          (posted-Returns (silent t) loop serves
            (λ u. Returns (IsEnding loop lines callback s) (after loop lines t u)) handler_stopped
            (silent t)
            (record {
              linked = record { valid = h.linked.valid; linked = h.linked.linked };
              staying = h.staying;
              serving = λ y. h.up;
              accounted = (refl, rw (h.up) refl);
            })
            h.leaving
            (λ x w o.
              finished-IsEnding loop lines callback s (handler_stopped x) t x h.halted h.telling w
                o))

    -- If the event loop, while a transceiver waits, delivers an answer to a request that one of
    -- them waits for, or the end of the connection by an error of AMQP-CPP, then
    -- AutoReconnect::stop of a session whose connector is ready and not exiting, with valid
    -- transceivers none of which is in recreate_channel, and the function that it posts return,
    -- and the session is over, or the connection handler has been told to stop and the session
    -- is over after onShutdown, with an error of AMQP-CPP or without: the wrapper is not
    -- started, the exit callback of the application is set on the connector again and no backup
    -- is kept, it was called once, the connector is not ready and every transceiver has ended
    pub stop-IsEnding :
        IsLive callback s
        → Returns
            (IsEnding loop lines callback s)
            (run_events loop lines on_started handler_stopped (stops ∷ finishes ∷ []) s)
    unfolding run_events handle_event
    stop-IsEnding l =
        Returns-and_then Halts (IsEnding loop lines callback s) _ (stop loop lines s)
          (λ t h.
            Returns-and_then (IsEnding loop lines callback s) (IsEnding loop lines callback s)
              returns _ (λ u p. p) (finish-IsEnding t h))
          (stop-Halts l)
