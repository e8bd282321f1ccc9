-- ===== src/Programs/Receiver/Main.antt =====
-- The whole of examples/receiver.cpp, up to its messages.
use amqp_cpp_asio.Base.{refl, subst, Bool, List, [], arith}
use amqp_cpp_asio.Transceiver.{new}
use amqp_cpp_asio.Transceiver.Control.{on_message}
use amqp_cpp_asio.Transceiver.Receiving.{Hears}
use amqp_cpp_asio.Connector.Machine.{Connector}
use amqp_cpp_asio.Connector.Service.{Delivery}
use amqp_cpp_asio.Connector.Service.Rounds.{Serves}
use amqp_cpp_asio.AutoReconnect as AutoReconnect
use amqp_cpp_asio.AutoReconnect.{run_connector}
use amqp_cpp_asio.Client.{run_events, start}
use amqp_cpp_asio.Client.Callbacks.{Returns}
use amqp_cpp_asio.Client.Refusing.{Awaits, refusals, refusals-Returns, run_events-connects}
use amqp_cpp_asio.Programs.{finished}
use amqp_cpp_asio.Programs.Receiver.{main, on_started}
use amqp_cpp_asio.Programs.Receiver.Listening.{Called, connected-Called}

main-Awaits : Awaits Hears [] main
unfolding main start AutoReconnect.start on_message new
main-Awaits = record {
  first = record {
    watching = record { is_started = refl; watched = refl };
    wanted = refl;
    callback = 0;
    due = refl;
    staying = refl;
    telling = refl;
    telling_started = refl;
  };
  down = refl;
  valid = (ground arith, tt);
  fresh = ((refl, refl), tt);
  printed = refl;
}

module _ (loop : Connector → Delivery) (handler_stopped : Connector → Bool) where
  -- If the event loop, while a transceiver waits, delivers an answer to a request that one of
  -- them waits for, or the end of the connection by an error of AMQP-CPP, then in
  -- examples/receiver.cpp any number of attempts to connect that are refused, each followed by a
  -- second, and one that succeeds return, with the started callback in the last: the program has
  -- printed that it was started, and either the connector is ready, its transceiver is ready and
  -- reports no error, or has ended and reports an error, and it has the program's callback for
  -- messages; or the connection was lost meanwhile, and the wrapper waits for the next second;
  -- or it was lost while the callback ran the connector, and then the next connection, a second
  -- later, leaves a connector that is ready, but none of whose transceivers runs, in a session
  -- that is not going to run it
  pub main-Called :
      Serves loop
      → (es : List Bool)
      → Returns
          (Called loop handler_stopped)
          (run_events loop finished (on_started loop) handler_stopped (refusals es) main)
  main-Called serves es =
      refusals-Returns Hears [] loop finished (on_started loop) handler_stopped
        (Called loop handler_stopped)
        (λ s d.
          subst (Returns (Called loop handler_stopped))
            (run_events-connects loop finished (on_started loop) handler_stopped s)
            (connected-Called loop handler_stopped s d serves))
        es main main-Awaits
