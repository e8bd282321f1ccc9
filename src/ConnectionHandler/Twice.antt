-- ===== src/ConnectionHandler/Twice.antt =====
-- A shutdown inside a shutdown (src/AmqpConnectionHandler.cpp): while `stop` waits for the pending read,
-- the read may still bring data, and AMQP-CPP may close the connection when it parses them.
use amqp_cpp_asio.Base.{
  ℕ, ◌≡◌, ◌+◌, Bool, true, false, none, some, List, [], ◌∷◌, ◌++◌, arith, leb, length,
}
use amqp_cpp_asio.ConnectionHandler.{
  closed, shutdown, shutdown_callback, Call, Completion, received, Handler, Parser, is_connected,
}
use amqp_cpp_asio.ConnectionHandler.Machine.{stop, on_closed}
use amqp_cpp_asio.ConnectionHandler.Input.{deliver, on_read, parse_loop, react_all, react}
use amqp_cpp_asio.ConnectionHandler.Shutdown.{drain, shut_down, state_machine}
use amqp_cpp_asio.ConnectionHandler.Stopping.{Returned, connected-stopped}

-- How often the owner has been told of a shutdown.
abbrev pub notices : List Call → ℕ
notices [] = 0
notices (shutdown_callback message ∷ cs) = notices cs + 1
notices (c ∷ cs) = notices cs

module _ (h : Handler) (c : ℕ) (bytes : List ℕ) (p : Parser) (rest : List Completion) where
  abbrev reading : Handler
  reading = record h {
    state = shutdown;
    connection = some c;
    last_error = "";
    shutdown_cb = true;
    read_req = true;
    write_req = false;
    incoming = received none bytes p ∷ rest;
  }

  twice_told :
      (peer : Bool)
      → leb p.expected (length (h.in_buf ++ bytes)) ≡ true
      → (p.parse (h.in_buf ++ bytes)).reactions ≡ closed c ∷ []
      → Returned (λ u. notices u.calls ≡ notices h.calls + 2) (state_machine (λ _. peer) reading)
  unfolding state_machine shut_down drain deliver on_read parse_loop react_all react on_closed
  twice_told true x q = rw x (rw q (omega arith))
  twice_told false x q = rw x (rw q (omega arith))

  reading_eq :
      h.connection ≡ some c
      → h.shutdown_cb ≡ true
      → h.read_req ≡ true
      → h.write_req ≡ false
      → h.incoming ≡ received none bytes p ∷ rest
      → record h { state = shutdown; last_error = "" } ≡ reading
  reading_eq e cb r w i = ground arith

  -- If the read that is pending at a stop of a connected handler still brings data, no write is
  -- pending, and AMQP-CPP reports that the connection is closed when it parses the data, then
  -- stop returns after it has made the shutdown callback twice
  pub stop-twice :
      (peer : Bool)
      → is_connected h.state ≡ true
      → h.connection ≡ some c
      → h.shutdown_cb ≡ true
      → h.read_req ≡ true
      → h.write_req ≡ false
      → h.incoming ≡ received none bytes p ∷ rest
      → leb p.expected (length (h.in_buf ++ bytes)) ≡ true
      → (p.parse (h.in_buf ++ bytes)).reactions ≡ closed c ∷ []
      → Returned (λ u. notices u.calls ≡ notices h.calls + 2) (stop (state_machine (λ _. peer)) h)
  unfolding stop
  stop-twice peer o e cb r w i x q =
      rw (connected-stopped h.state o, reading_eq e cb r w i) (twice_told peer x q)
