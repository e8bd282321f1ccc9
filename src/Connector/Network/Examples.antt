-- ===== src/Connector/Network/Examples.antt =====
-- `start` with an event loop that resolves the name of the broker and then reaches no socket, and with
-- one that connects.
use amqp_cpp_asio.Base.{◌≡◌, refl, true, none, some, [], ◌∷◌}
use amqp_cpp_asio.ConnectionHandler.{
  State, not_connected, resolving, connecting, receiver_init, ready, shutdown, Completion, resolved,
  connected, new,
}
use amqp_cpp_asio.Transceiver.Tests.{idle, idle-IsValid}
use amqp_cpp_asio.Connector.Machine.{new_connector}
use amqp_cpp_asio.Connector.Service.Examples.{service, service-Serves}
use amqp_cpp_asio.Connector.Network.Session.{Runs, start_connector-Runs}
use amqp_cpp_asio.Connector.Network.{Network, start_connector}
use amqp_cpp_asio.Connector.Network.Outcomes.{fits, Serves, Ends}

abbrev fresh : Network
fresh = record { connector = new_connector; handler = new "127.0.0.1" "5672" true [] }

abbrev refusing_in : State → Completion
refusing_in resolving = resolved none
refusing_in _ = connected (some "connection refused")

abbrev refusing : Network → Completion
refusing n = refusing_in n.handler.state

refusing-fits : (s : State) → fits s (refusing_in s) ≡ true
refusing-fits not_connected = refl
refusing-fits resolving = refl
refusing-fits connecting = refl
refusing-fits receiver_init = refl
refusing-fits ready = refl
refusing-fits shutdown = refl

refusing-Serves : Serves refusing
refusing-Serves n = refusing-fits n.handler.state

-- A connector with one transceiver.
abbrev equipped : Network
equipped = record fresh { connector = record new_connector { transceivers = idle ∷ [] } }

abbrev joining_in : State → Completion
joining_in resolving = resolved none
joining_in _ = connected none

abbrev joining : Network → Completion
joining n = joining_in n.handler.state

joining-fits : (s : State) → fits s (joining_in s) ≡ true
joining-fits not_connected = refl
joining-fits resolving = refl
joining-fits connecting = refl
joining-fits receiver_init = refl
joining-fits ready = refl
joining-fits shutdown = refl

joining-Serves : Serves joining
joining-Serves n = joining-fits n.handler.state

start_connector-Runs_example :
    Ends
      (Runs service equipped)
      (start_connector "127.0.0.1" "5672" (65 ∷ 77 ∷ []) joining equipped)
start_connector-Runs_example =
    start_connector-Runs service service-Serves equipped (idle-IsValid, tt) (refl, tt) "127.0.0.1"
      "5672" (65 ∷ 77 ∷ []) joining joining-Serves refl
