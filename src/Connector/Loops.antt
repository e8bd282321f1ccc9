-- ===== src/Connector/Loops.antt =====
-- `Connector::open` and `Connector::close` (src/AmqpConnector.cpp) for one transceiver: the loops
-- `while (…) m_service.run_one()`, where the event loop of boost::asio delivers the broker's replies.
use amqp_cpp_asio.Base.{
  ℕ, zero, suc, ◌&&◌, not, Bool, true, false, Option, none, some, if◌then◌else◌,
}
use amqp_cpp_asio.Transceiver.{Transceiver, Outcome, done, fault, is_running}
use amqp_cpp_asio.Transceiver.Replies.{Reply, handle}
use amqp_cpp_asio.Transceiver.Control.{start, stop}
use amqp_cpp_asio.Transceiver.Progress.{is_waiting}

-- `while (waits(t)) m_service.run_one();` where `broker` says which handler the event loop calls next;
-- `none` means that the fuel ran out.
unfoldable pub await :
    (Transceiver → Bool) → (Transceiver → Reply) → ℕ → Transceiver → Option Outcome
await waits broker zero t = if waits t then none else some (done t)
await waits broker (suc n) t = elim (waits t) [
  | true ↦ elim (handle (broker t) t) [ done u ↦ await waits broker n u | fault ↦ some fault ]
  | false ↦ some (done t)
]

abbrev pub and_await : (Transceiver → Bool) → (Transceiver → Reply) → Outcome → Option Outcome
and_await waits broker (done t) = await waits broker 11 t
and_await waits broker fault = some fault

-- `open`, with the connector's own `ready()` and connection.
unfoldable pub open_transceiver :
    Bool → Option ℕ → (Transceiver → Reply) → Transceiver → Option Outcome
unfolding await
open_transceiver connected connection broker t =
    if not (is_running t) && connected
    then and_await is_waiting broker (start connection t)
    else some (done t)

unfoldable pub close_transceiver : (Transceiver → Reply) → Transceiver → Option Outcome
unfolding await
close_transceiver broker t =
    if is_running t then and_await is_running broker (stop t) else some (done t)
