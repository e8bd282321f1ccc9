-- ===== src/Connector/Network/Session.antt =====
-- `start` of class Connector and then `run` (src/AmqpConnector.cpp).
use amqp_cpp_asio.Base.{
  ℕ, String, ◌≡◌, sym, subst, ap, ◌∙◌, true, false, List, All, ◌⊎◌, inl, inr, is_set,
}
use amqp_cpp_asio.Transceiver.Invariant.{IsValid}
use amqp_cpp_asio.Connector.Machine.{Connector}
use amqp_cpp_asio.Connector.Waiting.{Opened}
use amqp_cpp_asio.Connector.Service.{Delivery, returns, run}
use amqp_cpp_asio.Connector.Service.Rounds.{Serves}
use amqp_cpp_asio.Connector.Service.Returning.{Returns}
use amqp_cpp_asio.Connector.Service.Settling.{IsServed}
use amqp_cpp_asio.Connector.Service.Resting.{is_fresh, run-Opened, run-idle}
use amqp_cpp_asio.ConnectionHandler.{Completion}
use amqp_cpp_asio.Connector.Network.{Network, start_connector}
use amqp_cpp_asio.Connector.Network.Outcomes.{
  Serves as ServesNetwork, Connected, Refused, Ends, Ends-map,
}
use amqp_cpp_asio.Connector.Network.Starting.{start_connector-Ends}

-- Each transceiver is ready and reports no error, or it has ended and reports an error.
abbrev pub AllOpened : Connector → Connector → Type 0
AllOpened begun u = IsServed begun u × All (λ t. IsValid t × Opened t) u.transceivers

-- `start` from `n` leaves `u`, and `run` follows.
abbrev pub Runs : (Connector → Delivery) → Network → Network → Type 0
Runs loop n u =
    (Connected n u × Returns (AllOpened u.connector) (run loop u.connector))
    ⊎ (Refused n u × (run loop u.connector ≡ returns u.connector))

module _ (loop : Connector → Delivery) (serves : Serves loop) (n : Network)
    (valid : All IsValid n.connector.transceivers)
    (idle : All (λ t. is_fresh t ≡ true) n.connector.transceivers) where
  Connected-Opened :
      (u : Network) → Connected n u → Returns (AllOpened u.connector) (run loop u.connector)
  Connected-Opened u (r, a, c, b, k, e, ts) =
      run-Opened loop serves u.connector
        (record { valid = subst (All IsValid) (sym ts) valid; linked = ap is_set c ∙ sym r }) r e
        (subst (All (λ t. is_fresh t ≡ true)) (sym ts) idle)

  Ended-Runs : (u : Network) → Connected n u ⊎ Refused n u → Runs loop n u
  Ended-Runs u (inl c) = inl (c, Connected-Opened u c)
  Ended-Runs u (inr r) = inr (r, run-idle loop u.connector r.0)

  -- If the event loop delivers the result of each operation of the connection handler that is
  -- under way, and then, while a transceiver waits, an answer to a request that one of them
  -- waits for or the end of the connection by an error of AMQP-CPP, then Connector::start of a
  -- connector that is not ready, with valid transceivers that do not run or are on their way to
  -- be ready, returns; if it has connected, the call of Connector::run that follows returns with
  -- each transceiver ready and no error reported, or ended and an error reported; if it was
  -- refused, that call changes nothing
  pub start_connector-Runs :
      (host port : String) (header : List ℕ) (attempt : Network → Completion)
      → ServesNetwork attempt
      → n.connector.connection_handler_ready ≡ false
      → Ends (Runs loop n) (start_connector host port header attempt n)
  start_connector-Runs host port header attempt w r =
      Ends-map (λ u. Connected n u ⊎ Refused n u) (Runs loop n) Ended-Runs
        (start_connector host port header attempt n)
        (start_connector-Ends host port header n r attempt w)
