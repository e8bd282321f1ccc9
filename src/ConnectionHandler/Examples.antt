-- ===== src/ConnectionHandler/Examples.antt =====
-- The theorems on class ConnectionHandler at concrete members and deliveries.
use amqp_cpp_asio.Base.{
  ◌≡◌, refl, true, false, none, some, [], ◌∷◌, ◌++◌, arith, length, leb, if◌then◌else◌,
}
use amqp_cpp_asio.ConnectionHandler.{
  ready, resolving, resolved, out, closed, write, received, written, Parser, Handler, Result,
  returns, new,
}
use amqp_cpp_asio.ConnectionHandler.Machine.{on_data, on_write, stop}
use amqp_cpp_asio.ConnectionHandler.Shutdown.{state_machine}
use amqp_cpp_asio.ConnectionHandler.Output.{
  IsSending, Sends, here, gave, wrote, flat, Sends-flat, on_write-Returns,
}
use amqp_cpp_asio.ConnectionHandler.Fuel.{UnlessOut}
use amqp_cpp_asio.ConnectionHandler.Stopping.{
  IsCleared, Returned, Stopped, state_machine-IsCleared, stop-Stopped,
}
use amqp_cpp_asio.ConnectionHandler.Input.{deliver, on_read}
use amqp_cpp_asio.ConnectionHandler.Diagram.Parsing.{Moves}
use amqp_cpp_asio.ConnectionHandler.Returning.{Returns, WhenReturns}
use amqp_cpp_asio.ConnectionHandler.Diagram.Steps.{deliver-Follows}
use amqp_cpp_asio.ConnectionHandler.Stream.{IsQuiet, Reading, on_read-Reading}
use amqp_cpp_asio.ConnectionHandler.Early.{Gone, stop-Gone}
use amqp_cpp_asio.ConnectionHandler.Twice.{notices, stop-twice}

-- A parser that takes every buffer whole and reports that the connection is closed.
abbrev closing_parser : Parser
closing_parser = record {
  expected = 1;
  parse = λ xs. record { reactions = closed 1 ∷ []; consumed = 0; expected = 1 };
}

-- A connection in use: a read is pending, and a buffer of three bytes is being written.
abbrev busy : Handler
busy = record {
  host = "localhost";
  port = "5672";
  state = ready;
  connection = some 1;
  last_error = "";
  sentinel = true;
  in_buf = [];
  out_bufs = (1 ∷ 2 ∷ 3 ∷ []) ∷ [];
  connected_cb = true;
  shutdown_cb = true;
  amqp_error = false;
  read_req = true;
  write_req = true;
  incoming = received (some "aborted") [] closing_parser ∷ written (some "aborted") 0 ∷ [];
  calls = [];
}

-- The same with no write pending, where the read is about to bring a byte.
abbrev reading : Handler
reading = record busy {
  out_bufs = [];
  write_req = false;
  incoming = received none (7 ∷ []) closing_parser ∷ [];
}

abbrev no_shutdown : Handler → Result
no_shutdown h = returns h

busy-IsSending : IsSending busy
busy-IsSending = record { on_line = refl; busy = refl }

-- Two of the three bytes are sent, and then two more bytes are given.
abbrev half_sent : Handler
half_sent = record busy { out_bufs = (3 ∷ []) ∷ []; calls = write (3 ∷ []) ∷ [] }

half_sent-Sends :
    Sends no_shutdown busy ([] ++ 8 ∷ 9 ∷ []) ([] ++ 1 ∷ 2 ∷ []) (on_data 1 (8 ∷ 9 ∷ []) half_sent)
unfolding on_write
half_sent-Sends = gave 1 (8 ∷ 9 ∷ []) (wrote {w = half_sent} 2 here refl refl)

Sends-flat_example :
    IsSending (on_data 1 (8 ∷ 9 ∷ []) half_sent)
    × ((1 ∷ 2 ∷ []) ++ flat (on_data 1 (8 ∷ 9 ∷ []) half_sent).out_bufs
        ≡ flat busy.out_bufs ++ 8 ∷ 9 ∷ [])
Sends-flat_example = Sends-flat no_shutdown busy _ _ _ busy-IsSending half_sent-Sends

on_write-Returns_example : Returns IsSending (on_write no_shutdown none 2 busy)
on_write-Returns_example = on_write-Returns no_shutdown 2 busy busy-IsSending refl

state_machine-IsCleared_example : UnlessOut IsCleared (state_machine (λ _. true) busy)
state_machine-IsCleared_example =
    state_machine-IsCleared (λ _. true) busy ((λ xs. omega arith), (tt, tt))

stop-Stopped_example : Returned (Stopped true busy []) (stop (state_machine (λ _. true)) busy)
stop-Stopped_example = stop-Stopped (λ _. true) busy "aborted" closing_parser 0 [] true refl refl

stop-twice_example : Returned (λ u. notices u.calls ≡ 2) (stop (state_machine (λ _. true)) reading)
stop-twice_example =
    stop-twice reading 1 (7 ∷ []) closing_parser [] true refl refl refl refl refl refl refl refl

deliver-Follows_example :
    WhenReturns
      (Moves (received none (7 ∷ []) closing_parser) ready)
      (deliver (state_machine (λ h. true)) (received none (7 ∷ []) closing_parser) reading)
deliver-Follows_example =
    deliver-Follows (λ h. true) (received none (7 ∷ []) closing_parser) reading

-- A parser of frames of two bytes that answers each frame.
abbrev framing : Parser
framing = record {
  expected = 2;
  parse = λ xs. record {
    reactions = out 1 (9 ∷ []) ∷ [];
    consumed = if leb 2 (length xs) then 2 else 0;
    expected = 2;
  };
}

framing-IsQuiet : IsQuiet framing
framing-IsQuiet = record { outs = λ xs. (refl, tt); within = λ xs. ground arith }

on_read-Reading_example :
    Returns
      (Reading no_shutdown (1 ∷ 2 ∷ 3 ∷ 4 ∷ []) (1 ∷ 2 ∷ 3 ∷ 4 ∷ 5 ∷ []))
      (on_read no_shutdown none (2 ∷ 3 ∷ 4 ∷ 5 ∷ []) framing (record busy { in_buf = 1 ∷ [] }))
on_read-Reading_example =
    on_read-Reading no_shutdown framing framing-IsQuiet (2 ∷ 3 ∷ 4 ∷ 5 ∷ [])
      (record busy { in_buf = 1 ∷ [] }) (record { on_line = refl; attached = refl })

-- The address of the broker is being resolved.
abbrev seeking : Handler
seeking = record (new "host" "5672" true (resolved none ∷ [])) {
  state = resolving;
  connected_cb = true;
}

stop-Gone_example : Returned (Gone true seeking) (stop (state_machine (λ _. true)) seeking)
unfolding new
stop-Gone_example = stop-Gone (λ _. true) seeking refl refl refl
