-- ===== src/Connector/Network.antt =====
-- Class Connector with its connection handler (src/AmqpConnector.cpp, src/AmqpConnectionHandler.cpp):
-- `async_start` makes the handler, and the handler calls `onConnected` and `onShutdown` back.
pub mod Outcomes
pub mod Starting
pub mod Session
mod Examples
use amqp_cpp_asio.Base.{
  ℕ, zero, suc, String, Bool, true, false, Option, none, some, List, [], ◌∷◌, ◌++◌, not, ◌&&◌,
  if◌then◌else◌,
}
use amqp_cpp_asio.Connector.Machine.{Connector, async_start, connect, disconnected}
use amqp_cpp_asio.ConnectionHandler.{
  Call, connected_callback, shutdown_callback, Completion, resolved, connected, Handler, stopped,
  is_ready,
}
use amqp_cpp_asio.ConnectionHandler as ConnectionHandler
use amqp_cpp_asio.ConnectionHandler.Machine.{start, on_resolved, on_connected, on_data}

pub record Network : Type 0 where
  pub connector : Connector
  pub handler : Handler

-- `header` is what an `AMQP::Connection` sends by `onData` when it is made.
module _ (host port : String) (header : List ℕ) where
  -- `async_start`, with the connection handler that it makes.
  pub begin : Bool → Network → Network
  begin callback n = if n.connector.connection_handler_ready then n else record {
    connector = async_start callback n.connector;
    handler = start true (ConnectionHandler.new host port true []);
  }

  abbrev with_connector : Network → Option Connector → Option Network
  with_connector n none = none
  with_connector n (some c) = some (record n { connector = c })

  -- A callback of the connection handler. `onConnected` makes the AMQP connection.
  call_back : Call → Network → Option Network
  call_back connected_callback n = some (record {
    connector = connect n.connector;
    handler = on_data n.connector.made header n.handler;
  })
  call_back (shutdown_callback message) n =
      with_connector n (disconnected n.handler.amqp_error n.connector)
  call_back _ n = some n

  abbrev and_call : (Network → Option Network) → Option Network → Option Network
  and_call f none = none
  and_call f (some n) = f n

  -- The calls that a handler has made, the oldest one first; each makes its callback.
  call_all : List Call → Network → Option Network
  unfolding call_back
  call_all [] n = some n
  call_all (c ∷ cs) n = and_call (call_back c) (call_all cs n)

  abbrev with_handler : Handler → Network → Network
  with_handler h n = record n { handler = record h { calls = h.calls ++ n.handler.calls } }

  -- The calls since `run_one` was called are those in `calls` of `h`.
  after : Handler → Network → Option Network
  unfolding call_all
  after h n = call_all h.calls (with_handler h n)

  -- `run_one`, while the connection is being made.
  pub run_one : Completion → Network → Option Network
  unfolding after
  run_one (resolved ec) n = after (on_resolved ec (record n.handler { calls = [] })) n
  run_one (connected ec) n = after (on_connected ec (record n.handler { calls = [] })) n
  run_one _ n = some n

  -- `!stopped() && !ready()`.
  abbrev pub is_under_way : Handler → Bool
  is_under_way h = not (stopped h.state) && not (is_ready h.state)

  abbrev pub wait_more :
      (Network → Option (Option Network)) → Option Network → Option (Option Network)
  wait_more again none = some none
  wait_more again (some m) = elim (is_under_way m.handler) [
    | true ↦ again m
    | false ↦ some (some m)
  ]

  -- `do { run_one } while (!stopped() && !ready());` with fuel. `loop` says what the event loop calls.
  pub wait_connected : (Network → Completion) → ℕ → Network → Option (Option Network)
  unfolding run_one
  wait_connected loop zero n = none
  wait_connected loop (suc k) n = wait_more (wait_connected loop k) (run_one (loop n) n)

  -- `start`.
  pub start_connector : (Network → Completion) → Network → Option (Option Network)
  start_connector loop n =
      if n.connector.connection_handler_ready
      then some (some n)
      else wait_connected loop 2 (begin false n)
