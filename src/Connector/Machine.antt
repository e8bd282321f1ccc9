-- ===== src/Connector/Machine.antt =====
-- The members of class Connector (src/AmqpConnector.hpp) and how it connects and disconnects
-- (src/AmqpConnector.cpp): `transceiver`, `remove`, `async_start`, `stop`, `onConnected` and `onShutdown`. The
-- loop in the function that `stop` posts is in Connector/Service.antt.
use amqp_cpp_asio.Base.{
  ℕ, zero, suc, String, Bool, true, false, Option, none, some, List, [], ◌∷◌, not, if◌then◌else◌,
}
use amqp_cpp_asio.Transceiver.{Transceiver, new, Outcome, done, fault}
use amqp_cpp_asio.Transceiver.Control.{stop, drop}
use amqp_cpp_asio.Connector.{ExitCode, normal, broker_connect_error, amqp_error}

-- What the code asks of the connection handler, of the event loop and of the application.
pub data Call : Type 0 where
  start_handler stop_handler post_stop started_callback : Call
  exit_callback : ExitCode → Call

-- A connection of AMQP-CPP is known by the number of those made before it. `work` says whether
-- `m_sentinel` keeps the event loop alive.
pub record Connector : Type 0 where
  pub transceivers : List Transceiver
  pub exiting : Bool
  pub connection_handler_ready : Bool
  pub amqp_connection : Option ℕ
  pub made : ℕ
  pub work : Bool
  pub on_started : Bool
  pub on_exit : Bool
  pub calls : List Call

-- `Connector::Connector`.
abbrev pub new_connector : Connector
new_connector = record {
  transceivers = [];
  exiting = false;
  connection_handler_ready = false;
  amqp_connection = none;
  made = 0;
  work = false;
  on_started = false;
  on_exit = false;
  calls = [];
}

-- `transceiver`; the iterator that it returns is the first place of the list.
abbrev pub add_transceiver : String → String → String → Bool → Connector → Connector
add_transceiver exchange queue route_in listener c = record c {
  transceivers = new exchange queue route_in listener ∷ c.transceivers;
}

abbrev pub erase {ℓ} : {A : Type ℓ} → ℕ → List A → List A
erase i [] = []
erase zero (x ∷ xs) = xs
erase (suc i) (x ∷ xs) = x ∷ erase i xs

-- `remove` at a place of the list.
abbrev pub remove : ℕ → Connector → Connector
remove i c = record c { transceivers = erase i c.transceivers }

-- `async_start`; the flag says whether a callback is given.
abbrev pub async_start : Bool → Connector → Connector
async_start callback c = if c.connection_handler_ready then c else record c {
  exiting = false;
  on_started = callback;
  work = true;
  calls = start_handler ∷ c.calls;
}

abbrev pub prepend : Outcome → Option (List Transceiver) → Option (List Transceiver)
prepend (done t) (some ts) = some (t ∷ ts)
prepend (done t) none = none
prepend fault ts = none

-- A call for each transceiver; `none` is a null pointer that is followed.
abbrev pub for_each : (Transceiver → Outcome) → List Transceiver → Option (List Transceiver)
for_each f [] = some []
for_each f (t ∷ ts) = prepend (f t) (for_each f ts)

abbrev pub with_all :
    (Connector → Connector) → Connector → Option (List Transceiver) → Option Connector
with_all next c none = none
with_all next c (some ts) = some (next (record c { transceivers = ts }))

-- `stop`, up to the function that it posts.
unfoldable pub stop_connector : Connector → Option Connector
stop_connector c =
    if not c.connection_handler_ready
    then some c
    else with_all (λ u. record u { calls = post_stop ∷ u.calls }) c (for_each stop c.transceivers)

-- `onConnected`.
unfoldable pub connect : Connector → Connector
connect c = record c {
  connection_handler_ready = true;
  amqp_connection = some c.made;
  made = suc c.made;
  work = false;
  calls = if c.on_started then started_callback ∷ c.calls else c.calls;
}

-- `m_amqpConnection.reset()`, `m_sentinel.reset()` and the exit callback.
abbrev pub disconnect : ExitCode → Connector → Connector
disconnect code c = record c {
  amqp_connection = none;
  work = false;
  calls = if c.on_exit then exit_callback code ∷ c.calls else c.calls;
}

-- The same, with the flag cleared first.
abbrev pub leave : ExitCode → Connector → Connector
leave code c = disconnect code (record c { connection_handler_ready = false })

-- `onShutdown`; `error` is `amqp_error()` of the connection handler.
unfoldable pub disconnected : Bool → Connector → Option Connector
disconnected error c =
    if c.exiting
    then some (leave normal c)
    else if not c.connection_handler_ready
    then some (disconnect broker_connect_error c)
    else if error
    then with_all (leave amqp_error) c (for_each drop c.transceivers)
    else stop_connector c

-- The function that `stop` posts, after its loop that waits for the transceivers; `stopped` is
-- `stopped()` of the connection handler.
unfoldable pub finish_stop : Bool → Connector → Connector
finish_stop stopped c =
    if stopped
    then (if c.connection_handler_ready then leave normal c else c)
    else record c { exiting = true; calls = stop_handler ∷ c.calls }
