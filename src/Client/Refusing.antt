-- ===== src/Client/Refusing.antt =====
-- The attempts before the first connection of a client (src/AutoReconnect.cpp, src/AmqpConnector.cpp).
use amqp_cpp_asio.Base.{
  String, ◌≡◌, ◌∙◌, refl, sym, subst, ap, Bool, true, false, some, List, [], ◌∷◌, All, arith,
}
use amqp_cpp_asio.Transceiver.{Transceiver}
use amqp_cpp_asio.Transceiver.Invariant.{IsValid}
use amqp_cpp_asio.Connector.{ExitCode, broker_connect_error}
use amqp_cpp_asio.Connector.Machine.{Connector, disconnect, disconnected}
use amqp_cpp_asio.Connector.Shutdown.{told}
use amqp_cpp_asio.Connector.Service.{Delivery}
use amqp_cpp_asio.Connector.Service.Resting.{is_fresh}
use amqp_cpp_asio.Client.{
  Client, Result, returns, and_then, connected, silent, after_call, shut, second_passed, Event,
  shuts, timer, connects, handle_event, run_events,
}
use amqp_cpp_asio.Client.Callbacks.{Returns, retrying, joined, after-retrying}
use amqp_cpp_asio.Client.Waiting.{transceivers-async_start}
use amqp_cpp_asio.Client.First.{IsFirst}

-- The first connection is being made, for transceivers that can be opened.
pub record Awaits (Q : Transceiver → Type 0) (out : List String) (s : Client) : Type 0 where
  pub first : IsFirst s
  pub down : s.connector.connection_handler_ready ≡ false
  pub valid : All IsValid s.connector.transceivers
  pub fresh : All (λ t. (is_fresh t ≡ true) × Q t) s.connector.transceivers
  pub printed : s.output ≡ out

-- Attempts that are refused, with or without an error of AMQP-CPP, each followed by a second, and then
-- a connection.
abbrev pub refusals : List Bool → List Event
refusals [] = connects ∷ []
refusals (error ∷ es) = shuts error ∷ timer false ∷ refusals es

module _ (Q : Transceiver → Type 0) (out : List String) (loop : Connector → Delivery)
    (lines : ExitCode → List String) where
  -- The next attempt.
  abbrev again : Client → Client
  again s =
      second_passed false
        (retrying (joined loop lines s (disconnect broker_connect_error (silent s))))

  -- The connector then.
  abbrev retried : Client → Connector
  retried s =
      (retrying (joined loop lines s (disconnect broker_connect_error (silent s)))).connector

  shut-retrying :
      (error : Bool) (s : Client)
      → Awaits Q out s
      → shut loop lines error s
        ≡ returns (retrying (joined loop lines s (disconnect broker_connect_error (silent s))))
  unfolding shut disconnected
  shut-retrying error s w =
      let c : Connector = silent s in
      let u : Connector = disconnect broker_connect_error c in
      let q : disconnected error c ≡ some u = rw (w.first.staying, w.down) refl in
      ap (after_call loop lines s) q
      ∙ after-retrying loop lines broker_connect_error s u (λ n. cc) w.first.watching
          (ap (λ b. told b broker_connect_error []) w.first.telling)

  again-Awaits : (s : Client) → Awaits Q out s → Awaits Q out (again s)
  unfolding second_passed
  again-Awaits s w = record {
    first = record {
      watching = record {
        is_started = w.first.watching.is_started;
        watched = w.first.watching.watched;
      };
      wanted = w.first.wanted;
      callback = w.first.callback;
      due = w.first.due;
      staying = ground (arith, w.down);
      telling = ground (arith, w.down);
      telling_started = ground (arith, w.down);
    };
    down = ground (arith, w.down);
    valid = subst (All IsValid) (transceivers-async_start true (retried s)) w.valid;
    fresh =
        subst (All (λ t. (is_fresh t ≡ true) × Q t)) (transceivers-async_start true (retried s))
          w.fresh;
    printed = w.printed;
  }

  module _ (on_started : Client → Result) (handler_stopped : Connector → Bool) (P : Client → Type 0)
      (first : (s : Client)
        → Awaits Q out s
        → Returns P (run_events loop lines on_started handler_stopped (connects ∷ []) s)) where
    pub refusals-Returns :
        (es : List Bool) (s : Client)
        → Awaits Q out s
        → Returns P (run_events loop lines on_started handler_stopped (refusals es) s)
    unfolding run_events handle_event
    refusals-Returns [] s w = first s w
    refusals-Returns (error ∷ es) s w =
        subst (Returns P)
          (ap
            (and_then
              (run_events loop lines on_started handler_stopped (timer false ∷ refusals es)))
            (sym (shut-retrying error s w)))
          (refusals-Returns es (again s) (again-Awaits s w))

pub run_events-connects :
    (loop : Connector → Delivery) (lines : ExitCode → List String) (on_started : Client → Result)
    (handler_stopped : Connector → Bool) (s : Client)
    → connected loop lines on_started s
      ≡ run_events loop lines on_started handler_stopped (connects ∷ []) s
unfolding run_events handle_event
run_events-connects loop lines on_started handler_stopped s = ground arith
