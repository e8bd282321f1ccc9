-- ===== src/Programs.antt =====
-- The programs examples/sender.cpp and examples/receiver.cpp. A line that is printed is a text.
pub mod Sender
pub mod Receiver
mod Examples
use Prim.Native.String.{◌++◌ as str_append}
use amqp_cpp_asio.Base.{
  ℕ, String, Bool, true, false, some, [], ◌∷◌, List, ◌==◌, if◌then◌else◌, Option, none,
}
use amqp_cpp_asio.Connector.{ExitCode, normal, broker_connect_error, amqp_error}
use amqp_cpp_asio.Connector.Machine.{Connector, new_connector, add_transceiver}
use amqp_cpp_asio.Connector.Service.{Delivery}
use amqp_cpp_asio.AutoReconnect.{original}
use amqp_cpp_asio.AutoReconnect as AutoReconnect
use amqp_cpp_asio.Client.{Client, Result, returns, start, stop}

-- `amqpExchange` and `amqpRoute`.
abbrev pub exchange_name : String
exchange_name = "test.client"

abbrev pub route_name : String
route_name = "incoming"

-- An enumerator is printed as its number.
abbrev pub code_text : ExitCode → String
code_text normal = "0"
code_text broker_connect_error = "1"
code_text amqp_error = "2"

-- The lambda that is given to `onExit`.
abbrev pub finished : ExitCode → List String
finished code = str_append "AMQP client finished with code " (code_text code) ∷ []

abbrev pub print : String → Client → Client
print line s = record s { output = line ∷ s.output }

-- What `main` makes before it starts the client: the connector with one transceiver and the exit
-- callback, in its wrapper.
abbrev pub made : String → Bool → Client
made route listener = record {
  wrapper =
      AutoReconnect.new (record { connection_handler_ready = false; exit_cb = some (original 0) });
  connector = record (add_transceiver exchange_name "" route listener new_connector) {
    on_exit = true;
  };
  output = [];
}

-- The lambda that waits for a signal; `signal` is its number as it is printed.
pub on_signal : (Connector → Delivery) → Bool → String → Client → Result
on_signal loop aborted signal s =
    if aborted
    then returns s
    else stop loop finished (print (str_append "Signal " (str_append signal " received")) s)
