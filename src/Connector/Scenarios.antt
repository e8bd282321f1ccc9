-- ===== src/Connector/Scenarios.antt =====
-- Members of a Connector with two transceivers, for the examples.
use amqp_cpp_asio.Base.{true, false, some, [], ◌∷◌, refl}
use amqp_cpp_asio.Transceiver.Tests.{idle, listening, idle-IsValid, listening-IsValid}
use amqp_cpp_asio.Connector.Machine.{Connector}
use amqp_cpp_asio.Connector.Shutdown.{IsLinked}

abbrev pub in_use : Connector
in_use = record {
  transceivers = listening ∷ idle ∷ [];
  exiting = false;
  connection_handler_ready = true;
  amqp_connection = some 0;
  made = 1;
  work = false;
  on_started = true;
  on_exit = true;
  calls = [];
}

pub in_use-IsLinked : IsLinked in_use
in_use-IsLinked = record { valid = (listening-IsValid, (idle-IsValid, tt)); linked = refl }
