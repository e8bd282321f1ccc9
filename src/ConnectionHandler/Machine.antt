-- ===== src/ConnectionHandler/Machine.antt =====
-- The operations of class ConnectionHandler (src/AmqpConnectionHandler.cpp). `sm` is `StateMachine()` in
-- the state `eShutdown`, which runs the event loop, and so the other operations, until no operation on
-- the socket is pending.
use Prim.Native.String.{◌++◌ as str_append}
use amqp_cpp_asio.Base.{
  ℕ, String, Bool, true, false, Option, none, some, List, [], ◌∷◌, ◌++◌, drop, if◌then◌else◌,
}
use amqp_cpp_asio.ConnectionHandler.{
  State, not_connected, resolving, connecting, receiver_init, ready, shutdown, Call, resolve,
  connect, read_some, write, connected_callback, shutdown_callback, Handler, stopped, is_connected,
  Result, returns, crashes,
}

abbrev pub call : Handler → Call → Handler
call h c = record h { calls = c ∷ h.calls }

-- `StateMachine()` in `eNotConnected`.
unfoldable pub enter_not_connected : Handler → Handler
enter_not_connected h = record h {
  last_error = "";
  sentinel = false;
  calls = if h.shutdown_cb then shutdown_callback h.last_error ∷ h.calls else h.calls;
}

-- `StateMachine()` in `eResolving`.
abbrev enter_resolving : Handler → Handler
enter_resolving h = record h { sentinel = true; calls = resolve h.host h.port ∷ h.calls }

-- `StateMachine()` in `eReceiverInit`.
abbrev enter_receiver_init : Handler → Handler
enter_receiver_init h = if h.connected_cb then call h connected_callback else h

-- `StateMachine()` in `eReady`: a read is started.
abbrev enter_ready : Handler → Handler
enter_ready h = record h { read_req = true; calls = read_some ∷ h.calls }

unfoldable pub start : Bool → Handler → Handler
start callback h =
    if stopped h.state
    then enter_resolving
        (record h { connected_cb = callback; amqp_error = false; state = resolving })
    else h

-- The handler of `async_resolve`, by the state that it finds.
resolved_in : State → Option String → Handler → Handler
resolved_in resolving none h = call (record h { state = connecting }) connect
resolved_in resolving (some message) h =
    enter_not_connected
      (record h { last_error = str_append "failed to resolve: " message; state = not_connected })
resolved_in _ ec h = h

unfoldable pub on_resolved : Option String → Handler → Handler
unfolding resolved_in enter_not_connected
on_resolved ec h = resolved_in h.state ec h

-- The handler of `async_connect`; a connect that reached no endpoint counts as an error.
connected_in : State → Option String → Handler → Handler
connected_in connecting none h = enter_receiver_init (record h { state = receiver_init })
connected_in connecting (some message) h =
    enter_not_connected
      (record h { last_error = str_append "failed to connect: " message; state = not_connected })
connected_in _ ec h = h

unfoldable pub on_connected : Option String → Handler → Handler
unfolding connected_in enter_not_connected
on_connected ec h = connected_in h.state ec h

-- `if (!m_connection) m_connection = connection;`
abbrev adopt : ℕ → Handler → Handler
adopt c h = record h { connection = elim h.connection [ none ↦ some c | some b ↦ some b ] }

-- The step from `eReceiverInit` to `eReady` on the first data out.
abbrev first_data : State → Handler → Handler
first_data receiver_init h = enter_ready (record h { state = ready })
first_data _ h = h

-- `async_write` of the front buffer, if no write is pending.
abbrev write_front : List (List ℕ) → Handler → Handler
write_front [] h = h
write_front (b ∷ bs) h =
    if h.write_req then h else record h { write_req = true; calls = write b ∷ h.calls }

-- The buffer goes to the end of the queue.
abbrev push_out : List ℕ → Handler → Handler
push_out buffer h = record h { out_bufs = h.out_bufs ++ buffer ∷ [] }

abbrev queue_out : List ℕ → Handler → Handler
queue_out buffer h = write_front (push_out buffer h).out_bufs (push_out buffer h)

-- `onData`.
unfoldable pub on_data : ℕ → List ℕ → Handler → Handler
on_data c buffer h =
    if is_connected h.state then queue_out buffer (first_data h.state (adopt c h)) else h

abbrev pub is_shutdown : State → Bool
is_shutdown shutdown = true
is_shutdown _ = false

-- An error of an operation on the socket.
abbrev pub stop_by : (Handler → Result) → String → Handler → Result
stop_by sm message h =
    if is_shutdown h.state
    then returns h
    else sm (record h { last_error = message; state = shutdown })

-- The end of `onWrite`: an empty front buffer is dropped, and the next one is written. The front of an
-- empty queue is undefined.
abbrev pub next_write : List (List ℕ) → Handler → Result
next_write [] h = crashes
next_write ([] ∷ bs) h = returns (write_front bs (record h { out_bufs = bs }))
next_write ((x ∷ b) ∷ bs) h = returns (write_front ((x ∷ b) ∷ bs) h)

-- What `async_write` has sent is gone from the front buffer.
abbrev pub send_front : ℕ → List (List ℕ) → List (List ℕ)
send_front n [] = []
send_front n (b ∷ bs) = drop n b ∷ bs

-- `onWrite`, once `bytes` of the front buffer are sent.
unfoldable pub on_write : (Handler → Result) → Option String → ℕ → Handler → Result
on_write sm ec bytes h =
    let g = record h { write_req = false; out_bufs = send_front bytes h.out_bufs } in
    if is_connected h.state
    then elim ec [
      | none ↦ next_write g.out_bufs g
      | some message ↦ stop_by sm (str_append "write error: " message) g
    ]
    else returns g

-- `stop`.
unfoldable pub stop : (Handler → Result) → Handler → Result
stop sm h =
    if stopped h.state then returns h else sm (record h { last_error = ""; state = shutdown })

-- `onError` and `onClosed`.
unfoldable pub on_error : (Handler → Result) → ℕ → String → Handler → Result
on_error sm c message h =
    if is_connected h.state
    then sm (record (adopt c h) {
      last_error = str_append "AMQP-CPP error: " message;
      amqp_error = true;
      state = shutdown;
    })
    else returns h

unfoldable pub on_closed : (Handler → Result) → ℕ → Handler → Result
on_closed sm c h =
    if is_connected h.state
    then sm (record (adopt c h) { last_error = ""; state = shutdown })
    else returns h
