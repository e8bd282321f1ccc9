-- ===== src/Client/Restoring.antt =====
-- How AutoReconnect (src/AutoReconnect.cpp) gets its Connector (src/AmqpConnector.cpp) and all the
-- transceivers to work again after the connection was lost.
use amqp_cpp_asio.Base.{
  String, ◌≡◌, refl, sym, subst, Bool, true, false, none, List, [], ◌∷◌, All, All-map, arith, ◌⊎◌,
  inl, inr,
}
use amqp_cpp_asio.Transceiver.{is_running}
use amqp_cpp_asio.Transceiver.Invariant.{IsValid}
use amqp_cpp_asio.Connector.{ExitCode}
use amqp_cpp_asio.Connector.Machine.{Connector, connect}
use amqp_cpp_asio.Connector.Shutdown.{IsLinked}
use amqp_cpp_asio.Connector.Waiting.{Opened}
use amqp_cpp_asio.Connector.Service.{Delivery, run}
use amqp_cpp_asio.Connector.Service.Rounds.{Serves}
use amqp_cpp_asio.Connector.Service.Settling.{IsServed, served-ended}
use amqp_cpp_asio.Connector.Service.Resting.{run-Opened, is_fresh}
use amqp_cpp_asio.AutoReconnect.{run_connector}
use amqp_cpp_asio.Client.{
  Client, Result, silent, after, after_loop, connected, shut, started, second_passed, Event,
  connects, shuts, timer, handle_event, run_events,
}
use amqp_cpp_asio.Client.Callbacks.{
  Returns, Returns-and_then, joined, after-cases, after_loop-Returns,
}
use amqp_cpp_asio.Client.Waiting.{
  IsSession, session-IsWatched, IsWaiting, IsTrying, retrying-IsSession, trying, refused,
  shut-IsWaiting,
}

-- Each transceiver is ready and reports no error, or it has ended and reports an error; or the
-- connection is lost again, and the wrapper waits for the next attempt.
abbrev pub Reopened : Client → Type 0
Reopened s =
    IsSession s.wrapper
    × (((s.connector.connection_handler_ready ≡ true)
          × (s.wrapper.rerun ≡ false)
          × IsLinked s.connector
          × All (λ t. IsValid t × Opened t) s.connector.transceivers)
        ⊎ IsWaiting s)

-- Attempts that are refused, with or without an error of AMQP-CPP, and one that succeeds, each a
-- second after the last.
abbrev pub attempts : List Bool → List Event
attempts [] = timer false ∷ connects ∷ []
attempts (error ∷ es) = timer false ∷ shuts error ∷ attempts es

module _ (loop : Connector → Delivery) (lines : ExitCode → List String)
    (on_started : Client → Result) (handler_stopped : Connector → Bool) where
  -- What `run` leaves, seen by the wrapper.
  ran :
      (s : Client) (c u : Connector)
      → IsSession s.wrapper
      → s.wrapper.rerun ≡ false
      → c.calls ≡ []
      → c.on_exit ≡ true
      → IsServed c u
      → All (λ t. IsValid t × Opened t) u.transceivers
      → Returns Reopened (after loop lines s u)
  ran s c u v r e x w a =
      let l : IsLinked u = w.linked in
      elim (after-cases loop lines s c u (session-IsWatched s.wrapper v) e x w) [
        | inl (y, q) ↦
            subst (Returns Reopened) (sym q)
              (v, inl (y, r, record { valid = l.valid; linked = l.linked }, a))
        | inr (k, q) ↦ subst (Returns Reopened) (sym q) (
          retrying-IsSession (joined loop lines s u) v,
          inr (record {
            session = retrying-IsSession (joined loop lines s u) v;
            again = refl;
            down = k;
            telling = refl;
            linked = record { valid = l.valid; linked = l.linked };
            idle =
                All-map (λ t. is_running t ≡ false) (λ t. is_fresh t ≡ true) (λ t e. ground arith)
                  u.transceivers (served-ended c u w k);
          }),
        )
      ]

  module _ (serves : Serves loop) where
    -- The connection is there again.
    reconnected : (s : Client) → IsTrying s → Returns Reopened (connected loop lines on_started s)
    unfolding connected started connect
    reconnected s w =
        let v = w.waiting.session in
        let t : Client = record s {
          wrapper = record s.wrapper {
            started_callback = none;
            rerun = false;
            calls = run_connector ∷ s.wrapper.calls;
          };
          connector = connect s.connector;
        } in
        let c : Connector = silent t in
        let q : after_loop loop lines t (run loop c) ≡ connected loop lines on_started s =
          ground arith in
        subst (Returns Reopened) q (
          after_loop-Returns loop lines
            (λ u. IsServed c u × All (λ t. IsValid t × Opened t) u.transceivers) Reopened t
            (run loop c)
            (λ u (x, a).
              ran t c u
                (record {
                  is_started = v.is_started;
                  wanted = v.wanted;
                  watched = v.watched;
                  called = refl;
                })
                refl refl w.waiting.telling x a)
            (run-Opened loop serves c (record { valid = w.waiting.linked.valid; linked = refl })
              refl w.staying w.waiting.idle))

    attempts-Reopened :
        (es : List Bool) (s : Client)
        → IsWaiting s
        → Returns Reopened (run_events loop lines on_started handler_stopped (attempts es) s)
    unfolding run_events handle_event
    attempts-Reopened [] s w =
        Returns-and_then Reopened Reopened (run_events loop lines on_started handler_stopped [])
          (connected loop lines on_started (second_passed false s)) (λ u r. r)
          (reconnected (second_passed false s) (trying s w))
    attempts-Reopened (error ∷ es) s w =
        Returns-and_then IsWaiting Reopened
          (run_events loop lines on_started handler_stopped (attempts es))
          (shut loop lines error (second_passed false s)) (attempts-Reopened es)
          (refused loop lines error (second_passed false s) (trying s w))

    -- If the event loop, while a transceiver waits, delivers an answer to a request that one of
    -- them waits for, or the end of the connection by an error of AMQP-CPP, then after an error
    -- of AMQP-CPP ends the connection of a session with valid transceivers, any number of
    -- attempts that fail, with such an error or without, and one that succeeds, each a second
    -- after the last, AutoReconnect and the Connector that it wraps return: the session goes on,
    -- and each transceiver is ready and reports no error, or it has ended and reports an error;
    -- or the connection is lost again, no transceiver waits, and the wrapper waits for the next
    -- second as it did before
    pub lost-Reopened :
        (es : List Bool) (s : Client)
        → IsSession s.wrapper
        → IsLinked s.connector
        → s.connector.connection_handler_ready ≡ true
        → s.connector.exiting ≡ false
        → s.connector.on_exit ≡ true
        → Returns Reopened
            (run_events loop lines on_started handler_stopped (shuts true ∷ attempts es) s)
    unfolding run_events handle_event
    lost-Reopened es s v l y e x =
        Returns-and_then IsWaiting Reopened
          (run_events loop lines on_started handler_stopped (attempts es)) (shut loop lines true s)
          (attempts-Reopened es) (shut-IsWaiting loop lines s v l y e x)
