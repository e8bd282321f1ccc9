-- ===== src/ConnectionHandler.antt =====
-- The data of class ConnectionHandler (src/AmqpConnectionHandler.hpp): its states and members, what it
-- asks of boost::asio and of its owner, and what boost::asio and AMQP-CPP deliver to it.
pub mod Machine
pub mod Input
pub mod Shutdown
pub mod Returning
pub mod Output
pub mod Fuel
pub mod Totality
pub mod Stopping
pub mod Twice
pub mod Early
pub mod Diagram
pub mod Stream
mod Examples
use amqp_cpp_asio.Base.{ℕ, String, Bool, true, false, Option, none, some, List, [], ◌<◌}

-- `ConnectionHandler::State`.
pub data State : Type 0 where
  not_connected resolving connecting receiver_init ready shutdown : State

-- The asynchronous operations that the code starts, the calls on the socket, and the callbacks. A
-- buffer is a list of bytes.
pub data Call : Type 0 where
  resolve : String → String → Call
  connect read_some : Call
  write : List ℕ → Call
  socket_shutdown socket_close connected_callback : Call
  shutdown_callback : String → Call

-- A call of AMQP-CPP back into the handler, while it parses.
pub data Reaction : Type 0 where
  out : ℕ → List ℕ → Reaction
  failed : ℕ → String → Reaction
  closed : ℕ → Reaction

-- What `AMQP::Connection::parse` does with a buffer: the calls that it makes, the number of bytes
-- that it has used up, and what `expected()` is afterwards.
pub record Parsed : Type 0 where
  pub reactions : List Reaction
  pub consumed : ℕ
  pub expected : ℕ

-- The AMQP connection, for one call of `onRead`.
pub record Parser : Type 0 where
  pub expected : ℕ
  pub parse : List ℕ → Parsed

-- A handler that the event loop calls, with the error's message where there is an error.
pub data Completion : Type 0 where
  resolved connected : Option String → Completion
  received : Option String → List ℕ → Parser → Completion
  written : Option String → ℕ → Completion

-- The members. `incoming` lists what the event loop is going to deliver, `calls` the calls made so far,
-- the newest one first.
pub record Handler : Type 0 where
  pub host : String
  pub port : String
  pub state : State
  pub connection : Option ℕ
  pub last_error : String
  pub sentinel : Bool
  pub in_buf : List ℕ
  pub out_bufs : List (List ℕ)
  pub connected_cb : Bool
  pub shutdown_cb : Bool
  pub amqp_error : Bool
  pub read_req : Bool
  pub write_req : Bool
  pub incoming : List Completion
  pub calls : List Call

-- `stopped()`.
abbrev pub stopped : State → Bool
stopped not_connected = true
stopped _ = false

-- `ready()`.
abbrev pub is_ready : State → Bool
is_ready receiver_init = true
is_ready ready = true
is_ready _ = false

-- `connected()`, which is `m_state > eConnecting`.
abbrev pub is_connected : State → Bool
is_connected receiver_init = true
is_connected ready = true
is_connected shutdown = true
is_connected _ = false

-- The constructor, with what the event loop will deliver.
unfoldable pub new : String → String → Bool → List Completion → Handler
new host port shutdown_cb incoming = record {
  host = host;
  port = port;
  state = not_connected;
  connection = none;
  last_error = "";
  sentinel = false;
  in_buf = [];
  out_bufs = [];
  connected_cb = false;
  shutdown_cb = shutdown_cb;
  amqp_error = false;
  read_req = false;
  write_req = false;
  incoming = incoming;
  calls = [];
}

-- A call returns, waits for ever in `run_one`, or is undefined: it follows a null pointer or asks an
-- empty queue for its front. `exhausted` is for the fuel of the model.
pub data Result : Type 0 where
  returns : Handler → Result
  waits crashes exhausted : Result

abbrev pub and_then : Result → (Handler → Result) → Result
and_then (returns h) f = f h
and_then waits f = waits
and_then crashes f = crashes
and_then exhausted f = exhausted
