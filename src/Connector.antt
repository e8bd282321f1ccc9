-- ===== src/Connector.antt =====
-- Class Connector (src/AmqpConnector.hpp, src/AmqpConnector.cpp), and its exit codes.
pub mod Machine
pub mod Service
pub mod Shutdown
pub mod Network
pub mod Loops
pub mod Waiting
mod Examples
mod Scenarios

-- `Connector::ExitCode`.
pub data ExitCode : Type 0 where
  normal broker_connect_error amqp_error : ExitCode
