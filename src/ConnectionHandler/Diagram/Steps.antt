-- ===== src/ConnectionHandler/Diagram/Steps.antt =====
-- The calls of the event loop move class ConnectionHandler (src/AmqpConnectionHandler.cpp) along the
-- edges of its diagram.
use Prim.Native.String.{◌++◌ as str_append}
use amqp_cpp_asio.Base.{
  ℕ, zero, suc, String, ◌≡◌, ◌≢◌, refl, subst, Bool, true, false, Option, none, some, List, ◌++◌,
  arith, Bool-cases, inl, inr, length,
}
use amqp_cpp_asio.ConnectionHandler.{
  State, not_connected, resolving, connecting, receiver_init, ready, shutdown, Parser, Completion,
  resolved, connected, received, written, Handler, is_connected, Result, returns, waits, crashes,
  exhausted,
}
use amqp_cpp_asio.ConnectionHandler.Machine.{
  on_write, on_resolved, on_connected, stop_by, next_write, send_front, enter_not_connected,
}
use amqp_cpp_asio.ConnectionHandler.Input.{on_bytes, on_read, deliver}
use amqp_cpp_asio.ConnectionHandler.Shutdown.{shut_down, state_machine, clear}
use amqp_cpp_asio.ConnectionHandler.Returning.{WhenReturns, WhenReturns-map, WhenReturns-and_then}
use amqp_cpp_asio.ConnectionHandler.Diagram.{
  resolve_success, resolve_fail, connect_success, connect_fail, Brings, here, onward, name_resolved,
  not_resolved, joined, not_joined, Follows, stays,
}
use amqp_cpp_asio.ConnectionHandler.Diagram.Parsing.{
  Stops, At, leaves, Moves, ready-unconnected, stop_by-GivenUp, on_bytes-At, next_write-At,
}

module _ (sm : Handler → Result) (stops : Stops sm) where
  on_read-Moves :
      (ec : Option String) (bytes : List ℕ) (p : Parser) (h : Handler)
      → WhenReturns (Moves (received ec bytes p) h.state) (on_read sm ec bytes p h)
  unfolding on_read
  on_read-Moves ec bytes p h = elim (Bool-cases (is_connected h.state)) [
    | inl y ↦ rw (y, on_read) (read_in y ec)
    | inr k ↦ rw (k, on_read) (unmoved h.state ec k)
  ]
    where
      unmoved :
          (s : State) (e : Option String)
          → is_connected s ≡ false
          → Moves (received e bytes p) s (record h { state = s; read_req = false })
      unmoved s none k = (stays (Brings (received none bytes p)) s, λ l. cc)
      unmoved s (some m) k =
          (stays (Brings (received (some m) bytes p)) s, λ l. absurd (ready-unconnected s l k))

      read_in :
          is_connected h.state ≡ true
          → (e : Option String)
          → WhenReturns (Moves (received e bytes p) h.state) (elim e [
            | none ↦ on_bytes sm p (record h { read_req = false; in_buf = h.in_buf ++ bytes })
            | some m ↦ stop_by sm (str_append "read error: " m) (record h { read_req = false })
          ])
      read_in y none =
          WhenReturns-map (At (Brings (received none bytes p)) h.state)
            (Moves (received none bytes p) h.state) (λ v q. (q, λ l. cc)) _
            (on_bytes-At sm stops (Brings (received none bytes p)) tt tt p _)
      read_in y (some m) = stop_by-GivenUp sm stops (Brings (received (some m) bytes p)) _ _ tt y

  on_write-Moves :
      (ec : Option String) (n : ℕ) (h : Handler)
      → WhenReturns (Moves (written ec n) h.state) (on_write sm ec n h)
  unfolding on_write
  on_write-Moves ec n h = elim (Bool-cases (is_connected h.state)) [
    | inl y ↦ rw (y, on_write) (write_in y ec)
    | inr k ↦ rw (k, on_write) (unmoved h.state ec k)
  ]
    where
      unmoved :
          (s : State) (e : Option String)
          → is_connected s ≡ false
          → Moves (written e n) s (record h { state = s; write_req = false })
      unmoved s none k = (stays (Brings (written none n)) s, λ l. cc)
      unmoved s (some m) k =
          (stays (Brings (written (some m) n)) s, λ l. absurd (ready-unconnected s l k))

      write_in :
          is_connected h.state ≡ true
          → (e : Option String)
          → WhenReturns (Moves (written e n) h.state) (elim e [
            | none ↦
                next_write
                  (send_front n h.out_bufs)
                  (record h { write_req = false; out_bufs = send_front n h.out_bufs })
            | some m ↦
                stop_by sm
                  (str_append "write error: " m)
                  (record h { write_req = false; out_bufs = send_front n h.out_bufs })
          ])
      write_in y none =
          WhenReturns-map (At (Brings (written none n)) h.state) (Moves (written none n) h.state)
            (λ v q. (q, λ l. cc)) _
            (next_write-At sm stops (Brings (written none n)) (send_front n h.out_bufs) _)
      write_in y (some m) = stop_by-GivenUp sm stops (Brings (written (some m) n)) _ _ tt y

-- The states after the name is resolved, and after the socket is connected.
abbrev resolved_to : State → Option String → State
resolved_to resolving none = connecting
resolved_to resolving (some m) = not_connected
resolved_to s ec = s

abbrev connected_to : State → Option String → State
connected_to connecting none = receiver_init
connected_to connecting (some m) = not_connected
connected_to s ec = s

state-on_resolved :
    (ec : Option String) (h : Handler) → resolved_to h.state ec ≡ (on_resolved ec h).state
unfolding on_resolved
state-on_resolved ec h = ground arith

state-on_connected :
    (ec : Option String) (h : Handler) → connected_to h.state ec ≡ (on_connected ec h).state
unfolding on_connected
state-on_connected ec h = ground arith

resolved_to-Follows :
    (s : State) (ec : Option String)
    → Follows (Brings (resolved ec)) s (resolved_to s ec)
      × (leaves (resolved ec) s ≡ true → resolved_to s ec ≢ s)
resolved_to-Follows resolving none =
    ((onward resolve_success tt name_resolved here, λ e. cc), λ l e. cc)
resolved_to-Follows resolving (some m) =
    ((onward resolve_fail tt not_resolved here, λ e. cc), λ l e. cc)
resolved_to-Follows not_connected ec = (stays _ not_connected, λ l. cc)
resolved_to-Follows connecting ec = (stays _ connecting, λ l. cc)
resolved_to-Follows receiver_init ec = (stays _ receiver_init, λ l. cc)
resolved_to-Follows ready ec = (stays _ ready, λ l. cc)
resolved_to-Follows shutdown ec = (stays _ shutdown, λ l. cc)

connected_to-Follows :
    (s : State) (ec : Option String)
    → Follows (Brings (connected ec)) s (connected_to s ec)
      × (leaves (connected ec) s ≡ true → connected_to s ec ≢ s)
connected_to-Follows connecting none = ((onward connect_success tt joined here, λ e. cc), λ l e. cc)
connected_to-Follows connecting (some m) =
    ((onward connect_fail tt not_joined here, λ e. cc), λ l e. cc)
connected_to-Follows not_connected ec = (stays _ not_connected, λ l. cc)
connected_to-Follows resolving ec = (stays _ resolving, λ l. cc)
connected_to-Follows receiver_init ec = (stays _ receiver_init, λ l. cc)
connected_to-Follows ready ec = (stays _ ready, λ l. cc)
connected_to-Follows shutdown ec = (stays _ shutdown, λ l. cc)

module _ (has_peer : Handler → Bool) where
  shut_down-Stops : (d : ℕ) → Stops (shut_down has_peer d)
  unfolding shut_down enter_not_connected
  shut_down-Stops zero u = tt
  shut_down-Stops (suc d) u =
      WhenReturns-and_then (λ v. Unit {0}) (λ v. not_connected ≡ v.state)
        (λ v. returns (clear (has_peer u) v)) (λ v p. refl) _ (any_result _)
    where
      any_result : (r : Result) → WhenReturns (λ v. Unit {0}) r
      any_result (returns v) = tt
      any_result waits = tt
      any_result crashes = tt
      any_result exhausted = tt

  state_machine-Stops : Stops (state_machine has_peer)
  unfolding state_machine
  state_machine-Stops u = shut_down-Stops (suc (length u.incoming)) u

  -- Whatever handler the event loop calls, with whatever calls AMQP-CPP makes meanwhile and the
  -- shutdowns that these bring about, if the call returns then the state was left only along
  -- edges of the diagram of the class, with the connection given up for the same reasons in
  -- eReceiverInit and eReady, with a label that this handler can bring about: the result of the
  -- resolver or of the connect by these handlers, data and a connection that is given up by a
  -- read, a connection that is given up by a write that fails, and nothing by one that does not;
  -- the state is eShutdown only where it was before; and the result of the resolver or of the
  -- connect that is waited for, and an error of a read or a write while the connection is in
  -- use, do leave the state
  pub deliver-Follows :
      (c : Completion) (h : Handler)
      → WhenReturns (Moves c h.state) (deliver (state_machine has_peer) c h)
  unfolding deliver
  deliver-Follows (resolved ec) h =
      subst
        (λ t.
          Follows (Brings (resolved ec)) h.state t
          × (leaves (resolved ec) h.state ≡ true → t ≢ h.state))
        (state-on_resolved ec h) (resolved_to-Follows h.state ec)
  deliver-Follows (connected ec) h =
      subst
        (λ t.
          Follows (Brings (connected ec)) h.state t
          × (leaves (connected ec) h.state ≡ true → t ≢ h.state))
        (state-on_connected ec h) (connected_to-Follows h.state ec)
  deliver-Follows (received ec bytes p) h =
      on_read-Moves (state_machine has_peer) state_machine-Stops ec bytes p h
  deliver-Follows (written ec n) h =
      on_write-Moves (state_machine has_peer) state_machine-Stops ec n h
