-- ===== src/ConnectionHandler/Input.antt =====
-- `onRead` of class ConnectionHandler (src/AmqpConnectionHandler.cpp), and the calls that AMQP-CPP makes
-- while it parses.
use Prim.Native.String.{◌++◌ as str_append}
use amqp_cpp_asio.Base.{
  ℕ, zero, suc, String, true, false, ◌&&◌, not, Option, none, some, List, [], ◌∷◌, ◌++◌, leb, ◌==◌,
  is_set, length, drop, if◌then◌else◌,
}
use amqp_cpp_asio.ConnectionHandler.{
  read_some, Reaction, out, failed, closed, Parsed, Parser, Completion, resolved, connected,
  received, written, Handler, is_connected, Result, returns, crashes, exhausted, and_then,
}
use amqp_cpp_asio.ConnectionHandler.Machine.{
  on_data, on_error, on_closed, on_write, on_resolved, on_connected, stop_by,
}

unfoldable pub react : (Handler → Result) → Reaction → Handler → Result
unfolding on_data on_error on_closed
react sm (out c buffer) h = returns (on_data c buffer h)
react sm (failed c message) h = on_error sm c message h
react sm (closed c) h = on_closed sm c h

unfoldable pub react_all : (Handler → Result) → List Reaction → Handler → Result
react_all sm [] h = returns h
react_all sm (r ∷ rs) h = and_then (react sm r h) (react_all sm rs)

-- The read is started again, with room for `m_connection->maxFrame()` bytes.
abbrev pub read_again : Handler → Result
read_again h =
    if is_set h.connection
    then returns (record h { read_req = true; calls = read_some ∷ h.calls })
    else crashes

-- The end of one pass of the loop in `onRead`; `again` is the next pass.
abbrev pub parsed_then : (Handler → Result) → Parsed → Handler → Result
parsed_then again r h =
    let rest = record h { in_buf = drop r.consumed h.in_buf } in
    if is_connected h.state
    then if is_set h.connection
      then if leb r.expected (length rest.in_buf) && not (r.consumed == 0)
        then again rest
        else read_again rest
      else crashes
    else returns h

-- `do … while` with fuel.
unfoldable pub parse_loop : (Handler → Result) → Parser → ℕ → Handler → Result
parse_loop sm p zero h = exhausted
parse_loop sm p (suc n) h =
    and_then (react_all sm (p.parse h.in_buf).reactions h)
      (parsed_then (parse_loop sm p n) (p.parse h.in_buf))

-- What `async_read_some` has put into the buffer is committed and parsed.
abbrev pub on_bytes : (Handler → Result) → Parser → Handler → Result
on_bytes sm p h =
    if is_set h.connection
    then if leb p.expected (length h.in_buf)
      then parse_loop sm p (suc (length h.in_buf)) h
      else read_again h
    else crashes

unfoldable pub on_read : (Handler → Result) → Option String → List ℕ → Parser → Handler → Result
unfolding parse_loop
on_read sm ec bytes p h =
    let g = record h { read_req = false } in
    if is_connected h.state
    then elim ec [
      | none ↦ on_bytes sm p (record g { in_buf = h.in_buf ++ bytes })
      | some message ↦ stop_by sm (str_append "read error: " message) g
    ]
    else returns g

-- The event loop calls one handler.
unfoldable pub deliver : (Handler → Result) → Completion → Handler → Result
deliver sm (resolved ec) h = returns (on_resolved ec h)
deliver sm (connected ec) h = returns (on_connected ec h)
deliver sm (received ec bytes p) h = on_read sm ec bytes p h
deliver sm (written ec n) h = on_write sm ec n h
