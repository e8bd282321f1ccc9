-- ===== src/Client/Examples.antt =====
-- The theorems on the client, at a session with two transceivers whose connection is lost and refused once.
use amqp_cpp_asio.Base.{true, false, some, List, [], ◌∷◌, refl}
use amqp_cpp_asio.Transceiver.Tests.{idle, listening, idle-IsValid, listening-IsValid}
use amqp_cpp_asio.Connector.Machine.{new_connector}
use amqp_cpp_asio.Connector.Service.Examples.{service, service-Serves, service-MayCome}
use amqp_cpp_asio.AutoReconnect.{new, restarts, original}
use amqp_cpp_asio.Client.{
  Client, seen, returns, run_events, shuts, starts, stops, connects, finishes, timer, Event,
}
use amqp_cpp_asio.Client.Callbacks.{Returns}
use amqp_cpp_asio.Client.Keeping.{Keeps}
use amqp_cpp_asio.Client.Hearing.{IsBound}
use amqp_cpp_asio.Client.Refinement.{Refines, run_events-Refines}
use amqp_cpp_asio.Client.Halting.{IsEnding}
use amqp_cpp_asio.Client.Ending.{stop-IsEnding}
use amqp_cpp_asio.Client.Restoring.{Reopened, attempts, lost-Reopened}

abbrev in_session : Client
in_session = record {
  wrapper = record (new (record { connection_handler_ready = true; exit_cb = some restarts })) {
    started = true;
  };
  connector = record new_connector {
    transceivers = listening ∷ idle ∷ [];
    connection_handler_ready = true;
    amqp_connection = some 0;
    on_exit = true;
  };
  output = [];
}

lost-Reopened_example : Returns Reopened (
    run_events service
      (λ code. [])
      returns
      (λ c. false)
      (shuts true ∷ attempts (true ∷ []))
      in_session)
lost-Reopened_example =
    lost-Reopened service (λ code. []) returns (λ c. false) service-Serves (true ∷ []) in_session
      (record { is_started = refl; wanted = refl; watched = refl; called = refl })
      (record { valid = (listening-IsValid, (idle-IsValid, tt)); linked = refl }) refl refl refl

-- The connection is lost, refused and made again, and then the session is stopped.
abbrev history : List Event
history =
    shuts true
    ∷ timer false
    ∷ shuts false
    ∷ timer false
    ∷ connects
    ∷ stops
    ∷ finishes
    ∷ shuts false
    ∷ starts
    ∷ []

abbrev bound : Client
bound = record in_session { connector = record in_session.connector { on_started = true } }

bound-IsBound : IsBound bound
bound-IsBound = record {
  linked = record { valid = (listening-IsValid, (idle-IsValid, tt)); linked = refl };
  telling = refl;
  starting = refl;
}

run_events-Refines_example :
    Keeps
      (Refines history (seen bound))
      (run_events service (λ code. []) returns (λ c. false) history bound)
run_events-Refines_example =
    run_events-Refines service (λ code. []) (λ c. false) service-MayCome history bound bound-IsBound

-- The session, with the exit callback of the application as the backup.
abbrev live : Client
live = record in_session {
  wrapper = record in_session.wrapper { backup_exit_callback = some (original 7) };
}

stop-IsEnding_example :
    Returns
      (IsEnding service (λ code. []) 7 live)
      (run_events service (λ code. []) returns (λ c. false) (stops ∷ finishes ∷ []) live)
stop-IsEnding_example =
    stop-IsEnding service (λ code. []) 7 live service-Serves returns (λ c. false)
      (record {
        is_started = refl;
        watched = refl;
        backup = refl;
        linked = record { valid = (listening-IsValid, (idle-IsValid, tt)); linked = refl };
        up = refl;
        staying = refl;
        telling = refl;
        made = ((λ e. cc), ((λ e. cc), tt));
      })
