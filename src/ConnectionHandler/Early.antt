-- ===== src/ConnectionHandler/Early.antt =====
-- `stop` of a ConnectionHandler before its connection is made (src/AmqpConnectionHandler.cpp).
use amqp_cpp_asio.Base.{◌≡◌, refl, arith, String, Bool, true, false, Option}
use amqp_cpp_asio.ConnectionHandler.{
  State, not_connected, resolving, connecting, shutdown, resolved, connected, stopped, Handler,
  Result, returns, waits, crashes, exhausted,
}
use amqp_cpp_asio.ConnectionHandler.Machine.{stop, on_resolved, on_connected}
use amqp_cpp_asio.ConnectionHandler.Input.{deliver}
use amqp_cpp_asio.ConnectionHandler.Shutdown.{state_machine, shut_down, drain}
use amqp_cpp_asio.ConnectionHandler.Stopping.{Returned, Stopped}

-- A handler of `async_resolve` or `async_connect` is still to be called.
abbrev pub is_waiting : State → Bool
is_waiting resolving = true
is_waiting connecting = true
is_waiting _ = false

-- The handlers of `async_resolve` and `async_connect`, called late, do nothing.
abbrev pub IsDeaf : Handler → Type 0
IsDeaf u =
    (sm : Handler → Result) (ec : Option String)
    → (deliver sm (resolved ec) u ≡ returns u) × (deliver sm (connected ec) u ≡ returns u)

abbrev pub Gone : Bool → Handler → Handler → Type 0
Gone peer h u = Stopped peer h h.incoming u × IsDeaf u

closed-IsDeaf : (u : Handler) → u.state ≡ not_connected → IsDeaf u
unfolding deliver on_resolved on_connected
closed-IsDeaf u e sm ec = rw e (refl, refl)

waiting-started : (s : State) → is_waiting s ≡ true → stopped s ≡ false
waiting-started s w = ground arith

module _ (has_peer : Handler → Bool) where
  state_machine-Stopped :
      (h : Handler)
      → h.read_req ≡ false
      → h.write_req ≡ false
      → let g = record h { state = shutdown; last_error = "" } in
        Returned (Stopped (has_peer g) h h.incoming) (state_machine has_peer g)
  unfolding state_machine shut_down drain
  state_machine-Stopped h r w = ground arith

  Gone-map :
      (peer : Bool) (h : Handler) (o : Result)
      → Returned (Stopped peer h h.incoming) o
      → Returned (Gone peer h) o
  Gone-map peer h (returns u) (c, i, e) = ((c, i, e), closed-IsDeaf u c.closed)
  Gone-map peer h waits x = x
  Gone-map peer h crashes x = x
  Gone-map peer h exhausted x = x

  -- Stop of a handler that resolves or connects, with no read and no write pending, returns
  -- without running the event loop: the connection is cleared, the socket is closed if the other
  -- side is there and the owner is told once, with no error; the handlers of async_resolve and
  -- async_connect, if the event loop calls them on the members that stop leaves, with an error
  -- or without, change nothing and call nothing
  pub stop-Gone :
      (h : Handler)
      → is_waiting h.state ≡ true
      → h.read_req ≡ false
      → h.write_req ≡ false
      → Returned
          (Gone (has_peer (record h { state = shutdown; last_error = "" })) h)
          (stop (state_machine has_peer) h)
  unfolding stop
  stop-Gone h s r w = rw (waiting-started h.state s) (
      Gone-map (has_peer (record h { state = shutdown; last_error = "" })) h _
        (state_machine-Stopped h r w))
