-- ===== src/Connector/Network/Starting.antt =====
-- What `start` of class Connector leads to (src/AmqpConnector.cpp).
use Prim.Native.String.{◌++◌ as str_append}
use amqp_cpp_asio.Base.{
  ℕ, String, ◌≡◌, refl, sym, subst, true, false, Option, none, some, List, [], ◌∷◌, arith,
  if◌then◌else◌, ◌⊎◌, inl, inr,
}
use amqp_cpp_asio.Connector.{broker_connect_error}
use amqp_cpp_asio.Connector.Machine.{Connector, disconnect, start_handler, connect, disconnected}
use amqp_cpp_asio.Connector.Shutdown.{Gives}
use amqp_cpp_asio.Connector.Network.{
  Network, begin, run_one, start_connector, wait_connected, wait_more, with_connector,
}
use amqp_cpp_asio.Connector.Network.Outcomes.{fits, Serves, Connected, Refused, Ends}
use amqp_cpp_asio.ConnectionHandler.{
  Call, resolve, shutdown_callback, not_connected, connect as connect_socket, Completion, resolved,
  connected, received, written, Handler, resolving, connecting, State, new,
}
use amqp_cpp_asio.ConnectionHandler.Machine.{start, on_resolved, on_connected, on_data}

Gives-map :
    (P Q : Network → Type 0)
    → ((n : Network) → P n → Q n)
    → (o : Option Network) → Gives P o
    → Gives Q o
Gives-map P Q f none g = g
Gives-map P Q f (some n) g = f n g

-- The connection is being made: `n` is what `start` found, and is not ready.
abbrev trying : String → String → State → Network → List Call → Network
trying host port s n cs = record {
  connector = record n.connector {
    exiting = false;
    on_started = false;
    work = true;
    calls = start_handler ∷ n.connector.calls;
  };
  handler = record {
    host = host;
    port = port;
    state = s;
    connection = none;
    last_error = "";
    sentinel = true;
    in_buf = [];
    out_bufs = [];
    connected_cb = true;
    shutdown_cb = true;
    amqp_error = false;
    read_req = false;
    write_req = false;
    incoming = [];
    calls = cs;
  };
}

module _ (host port : String) (header : List ℕ) (n : Network)
    (idle : n.connector.connection_handler_ready ≡ false) where
  begin-trying :
      begin host port header false n ≡ trying host port resolving n (resolve host port ∷ [])
  unfolding begin start new
  begin-trying = ground arith

  abbrev Ended : Network → Type 0
  Ended u = Connected n u ⊎ Refused n u

  refuse :
      (c : Connector)
      → c.connection_handler_ready ≡ false
      → c.exiting ≡ false
      → disconnected false c ≡ some (disconnect broker_connect_error c)
  unfolding disconnected
  refuse c r e = rw (r, e) refl

  -- The handler, once the attempt has failed.
  abbrev gone : State → String → String → List Call → Handler
  gone s cause m cs =
      let h = (trying host port s n cs).handler in
      record h {
        state = not_connected;
        sentinel = false;
        calls = shutdown_callback (str_append cause m) ∷ cs;
      }

  resolved-trying :
      (cs : List Call)
      → run_one host port header (resolved none) (trying host port resolving n cs)
        ≡ some (trying host port connecting n (connect_socket ∷ cs))
  unfolding run_one on_resolved
  resolved-trying cs = refl

  resolved-Refused :
      (m : String) (cs : List Call)
      → Gives
          (Refused n)
          (run_one host port header (resolved (some m)) (trying host port resolving n cs))
  unfolding run_one on_resolved
  resolved-Refused m cs =
      let u = trying host port resolving n cs in
      subst
        (λ o. Gives (Refused n) (
          with_connector host port header
            (record u { handler = gone resolving "failed to resolve: " m cs }) o))
        (sym (refuse u.connector idle refl)) (idle, refl, refl, refl, refl)

  connected-Ended :
      (ec : Option String) (cs : List Call)
      → Gives Ended (run_one host port header (connected ec) (trying host port connecting n cs))
  unfolding run_one on_connected on_data connect
  connected-Ended none cs = inl (refl, refl, refl, refl, refl, refl, refl)
  connected-Ended (some m) cs =
      let u = trying host port connecting n cs in
      subst
        (λ o. Gives Ended (
          with_connector host port header
            (record u { handler = gone connecting "failed to connect: " m cs }) o))
        (sym (refuse u.connector idle refl)) (inr (idle, refl, refl, refl, refl))

  first :
      (d : Completion) (cs : List Call)
      → fits resolving d ≡ true
      → Gives
          (λ m. (m ≡ trying host port connecting n (connect_socket ∷ cs)) ⊎ Refused n m)
          (run_one host port header d (trying host port resolving n cs))
  first (resolved none) cs f =
      subst (Gives (λ m. (m ≡ trying host port connecting n (connect_socket ∷ cs)) ⊎ Refused n m))
        (sym (resolved-trying cs)) (inl refl)
  first (resolved (some m)) cs f =
      Gives-map (Refused n)
        (λ m'. (m' ≡ trying host port connecting n (connect_socket ∷ cs)) ⊎ Refused n m')
        (λ m' r. inr r)
        (run_one host port header (resolved (some m)) (trying host port resolving n cs))
        (resolved-Refused m cs)
  first (connected ec) cs f = cc
  first (received ec bytes p) cs f = cc
  first (written ec k) cs f = cc

  last :
      (d : Completion) (cs : List Call)
      → fits connecting d ≡ true
      → Gives Ended (run_one host port header d (trying host port connecting n cs))
  last (resolved ec) cs f = cc
  last (connected ec) cs f = connected-Ended ec cs
  last (received ec bytes p) cs f = cc
  last (written ec k) cs f = cc

  rest :
      (again : Network → Option (Option Network)) (o : Option Network)
      → Gives Ended o
      → Ends Ended (wait_more host port header again o)
  rest again none g = g
  rest again (some m) (inl c) = ground arith
  rest again (some m) (inr r) = ground arith

  module _ (loop : Network → Completion) (serves : Serves loop) where
    go_on :
        (cs : List Call) (o : Option Network)
        → Gives (λ m. (m ≡ trying host port connecting n (connect_socket ∷ cs)) ⊎ Refused n m) o
        → Ends Ended (wait_more host port header (wait_connected host port header loop 1) o)
    unfolding wait_connected
    go_on cs none g = g
    go_on cs (some m) (inl e) =
        let u = trying host port connecting n (connect_socket ∷ cs) in
        subst
          (λ x.
            Ends Ended
              (wait_more host port header (wait_connected host port header loop 1) (some x)))
          (sym e)
          (rest (wait_connected host port header loop 0) (run_one host port header (loop u) u)
            (last (loop u) (connect_socket ∷ cs) (serves u)))
    go_on cs (some m) (inr r) = rest (wait_connected host port header loop 1) (some m) (inr r)

    -- If the event loop delivers the result of each operation of the connection handler that is
    -- under way, Connector::start of a connector that is not ready returns: connector and
    -- handler are then both ready and have the AMQP connection that was made, or the handler is
    -- stopped, the connector is not ready and has no connection, and the exit callback, if it is
    -- set, was called once with eBrokerConnectError; no transceiver was touched
    pub start_connector-Ends :
        Ends (λ u. Connected n u ⊎ Refused n u) (start_connector host port header loop n)
    unfolding start_connector wait_connected
    start_connector-Ends =
        let u = trying host port resolving n (resolve host port ∷ []) in
        subst
          (λ b. Ends Ended (
            if b
            then some (some n)
            else wait_connected host port header loop 2 (begin host port header false n)))
          (sym idle)
          (subst (λ x. Ends Ended (wait_connected host port header loop 2 x)) (sym begin-trying)
            (go_on (resolve host port ∷ []) (run_one host port header (loop u) u)
              (first (loop u) (resolve host port ∷ []) (serves u))))
