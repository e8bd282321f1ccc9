-- ===== src/Connector/Network/Outcomes.antt =====
-- How `start` of class Connector (src/AmqpConnector.cpp) can end.
use amqp_cpp_asio.Base.{◌≡◌, Bool, true, false, Option, none, some, ◌∷◌}
use amqp_cpp_asio.Connector.{broker_connect_error}
use amqp_cpp_asio.Connector.Machine.{start_handler}
use amqp_cpp_asio.Connector.Shutdown.{told}
use amqp_cpp_asio.Connector.Network.{Network}
use amqp_cpp_asio.ConnectionHandler.{
  Completion, resolved, connected, resolving, connecting, State, stopped, is_ready,
}

-- What the event loop is relied on for: it delivers the result of the operation that was started.
abbrev pub fits : State → Completion → Bool
fits resolving (resolved ec) = true
fits connecting (connected ec) = true
fits resolving _ = false
fits connecting _ = false
fits _ c = true

abbrev pub Serves : (Network → Completion) → Type 0
Serves loop = (n : Network) → fits n.handler.state (loop n) ≡ true

-- Connected: both are ready, and have the connection that was made; no transceiver was touched.
abbrev pub Connected : Network → Network → Type 0
Connected n u =
    (u.connector.connection_handler_ready ≡ true)
    × (is_ready u.handler.state ≡ true)
    × (u.connector.amqp_connection ≡ some n.connector.made)
    × (u.handler.connection ≡ some n.connector.made)
    × (u.connector.calls ≡ start_handler ∷ n.connector.calls)
    × (u.connector.exiting ≡ false)
    × (u.connector.transceivers ≡ n.connector.transceivers)

-- Refused: the handler is stopped, and the exit callback was called once.
abbrev pub Refused : Network → Network → Type 0
Refused n u =
    (u.connector.connection_handler_ready ≡ false)
    × (stopped u.handler.state ≡ true)
    × (u.connector.amqp_connection ≡ none)
    × (u.connector.calls
        ≡ told n.connector.on_exit broker_connect_error (start_handler ∷ n.connector.calls))
    × (u.connector.transceivers ≡ n.connector.transceivers)

abbrev pub Ends : (Network → Type 0) → Option (Option Network) → Type 0
Ends P none = ⊥
Ends P (some none) = ⊥
Ends P (some (some n)) = P n

pub Ends-map :
    (P Q : Network → Type 0)
    → ((n : Network) → P n → Q n)
    → (o : Option (Option Network)) → Ends P o
    → Ends Q o
Ends-map P Q f none g = g
Ends-map P Q f (some none) g = g
Ends-map P Q f (some (some n)) g = f n g
