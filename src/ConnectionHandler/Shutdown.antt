-- ===== src/ConnectionHandler/Shutdown.antt =====
-- `StateMachine()` of class ConnectionHandler in the state `eShutdown` (src/AmqpConnectionHandler.cpp).
-- It runs the event loop until no operation on the socket is pending, and the handlers that are called
-- then may shut the connection down themselves: the fuel counts how deep such calls are nested.
use amqp_cpp_asio.Base.{ℕ, zero, suc, Bool, ◌||◌, none, List, [], ◌∷◌, length, if◌then◌else◌}
use amqp_cpp_asio.ConnectionHandler.{
  not_connected, socket_shutdown, socket_close, Completion, Handler, Result, returns, waits,
  exhausted, and_then,
}
use amqp_cpp_asio.ConnectionHandler.Machine.{call, enter_not_connected}
use amqp_cpp_asio.ConnectionHandler.Input.{deliver}

abbrev pub is_pending : Handler → Bool
is_pending h = h.read_req || h.write_req

-- `run_one`: the first handler that is to be called is called; with none the program waits.
abbrev pub run_one : (Handler → Result) → List Completion → Handler → Result
run_one sm [] h = waits
run_one sm (c ∷ cs) h = deliver sm c (record h { incoming = cs })

-- `while (m_readReq || m_writeReq) m_service.run_one();`
unfoldable pub drain : (Handler → Result) → ℕ → Handler → Result
drain sm zero h = if is_pending h then exhausted else returns h
drain sm (suc n) h =
    let rest = and_then (run_one sm h.incoming h) (drain sm n) in
    if is_pending h then rest else returns h

-- Everything is cleared, and the state machine goes on in `eNotConnected`.
abbrev pub clear : Bool → Handler → Handler
clear peer h = enter_not_connected (record h {
  in_buf = [];
  out_bufs = [];
  connection = none;
  state = not_connected;
  calls = if peer then socket_close ∷ h.calls else h.calls;
})

-- `has_peer` says whether `m_socket.remote_endpoint` finds the other side.
module _ (has_peer : Handler → Bool) where
  unfoldable pub shut_down : ℕ → Handler → Result
  unfolding drain enter_not_connected
  shut_down zero h = exhausted
  shut_down (suc d) h =
      and_then
        (drain (shut_down d) (suc (length h.incoming))
          (if has_peer h then call h socket_shutdown else h))
        (λ u. returns (clear (has_peer h) u))

  -- `StateMachine()` in `eShutdown`.
  unfoldable pub state_machine : Handler → Result
  unfolding shut_down
  state_machine h = shut_down (suc (length h.incoming)) h
