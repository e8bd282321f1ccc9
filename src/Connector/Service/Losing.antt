-- ===== src/Connector/Service/Losing.antt =====
-- What the loss of the TCP connection does to the loop in the function that `stop` of class Connector
-- posts (src/AmqpConnector.cpp).
use amqp_cpp_asio.Base.{
  ℕ, zero, suc, ◌≡◌, refl, true, false, Option, none, some, List, [], ◌∷◌, All, arith,
}
use amqp_cpp_asio.Transceiver.{Transceiver, Outcome, done, fault, After, is_running, is_ready}
use amqp_cpp_asio.Transceiver.Control.{stop}
use amqp_cpp_asio.Transceiver.Invariant.{IsValid, stop-IsValid}
use amqp_cpp_asio.Connector.Machine.{
  Connector, post_stop, prepend, for_each, stop_connector, disconnected,
}
use amqp_cpp_asio.Connector.Shutdown.{IsLinked, Gives, for_each-All, with_all-Gives}
use amqp_cpp_asio.Connector.Service.{Delivery, run_one, waits_at, exhausted, wait_at}

-- A transceiver that is ready still runs after its `stop`: it waits for the broker.
stop-running :
    (t : Transceiver) → IsValid t → is_ready t ≡ true → After (λ u. is_running u ≡ true) (stop t)
unfolding stop
stop-running t v y = ground arith

prepend-Gives :
    (P : Transceiver → Type 0) (Q R : List Transceiver → Type 0)
    → ((t : Transceiver) (ts : List Transceiver) → P t → Q ts → R (t ∷ ts))
    → (o : Outcome) (ts : Option (List Transceiver)) → After P o
    → Gives Q ts
    → Gives R (prepend o ts)
prepend-Gives P Q R f (done t) (some ts) p q = f t ts p q
prepend-Gives P Q R f (done t) none p q = q
prepend-Gives P Q R f fault ts p q = absurd p

stop-waits :
    (i : ℕ) (ts : List Transceiver)
    → All IsValid ts
    → waits_at is_ready i ts ≡ true
    → Gives (λ us. waits_at is_running i us ≡ true) (for_each stop ts)
stop-waits i [] v y = cc
stop-waits zero (t ∷ ts) (v, vs) y =
    prepend-Gives (λ u. is_running u ≡ true) (All IsValid)
      (λ us. waits_at is_running zero us ≡ true) (λ u us p q. p) (stop t) (for_each stop ts)
      (stop-running t v y) (for_each-All stop IsValid IsValid stop-IsValid ts vs)
stop-waits (suc i) (t ∷ ts) (v, vs) y =
    prepend-Gives IsValid (λ us. waits_at is_running i us ≡ true)
      (λ us. waits_at is_running (suc i) us ≡ true) (λ u us p q. q) (stop t) (for_each stop ts)
      (stop-IsValid t v) (stop-waits i ts vs y)

-- The event loop calls nothing that belongs to the connector: no reply comes.
abbrev pub IsSilent : (Connector → Delivery) → Type 0
IsSilent loop = (c : Connector) → run_one (loop c) c ≡ some c

module _ (loop : Connector → Delivery) (silent : IsSilent loop) where
  wait_at-exhausted :
      (i n : ℕ) (c : Connector)
      → waits_at is_running i c.transceivers ≡ true
      → wait_at is_running loop i n c ≡ exhausted
  unfolding wait_at
  wait_at-exhausted i zero c y = rw y refl
  wait_at-exhausted i (suc n) c y = rw (y, wait_at, silent c) (wait_at-exhausted i n c y)

  -- If the connection of a ready connector with valid transceivers that is not exiting ends
  -- without an error of AMQP-CPP while the transceiver at a place is ready, onShutdown returns,
  -- and from then on, as long as the event loop delivers nothing for the connector, the loop at
  -- this place of the function that was posted does not end, whatever the fuel
  pub lost-waits :
      (i n : ℕ) (c : Connector)
      → IsLinked c
      → c.connection_handler_ready ≡ true
      → c.exiting ≡ false
      → waits_at is_ready i c.transceivers ≡ true
      → Gives (λ u. wait_at is_running loop i n u ≡ exhausted) (disconnected false c)
  unfolding disconnected stop_connector
  lost-waits i n c v r e y = ground (
    arith,
    with_all-Gives (λ u. record u { calls = post_stop ∷ u.calls })
        (λ u. wait_at is_running loop i n u ≡ exhausted) (λ us. waits_at is_running i us ≡ true) c
        (for_each stop c.transceivers)
        (λ us w.
          wait_at-exhausted i n (record c { transceivers = us; calls = post_stop ∷ c.calls }) w)
        (stop-waits i c.transceivers v.valid y),
  )
