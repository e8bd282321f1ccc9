-- ===== src/Connector/Service.antt =====
-- The operations of class Connector that run the event loop for several transceivers
-- (src/AmqpConnector.cpp): `run`, and the function that `stop` posts. `send` is here too
-- (src/AmqpConnector.hpp).
pub mod Returning
pub mod Rounds
pub mod Settling
pub mod Places
pub mod Resting
pub mod Closing
pub mod Sending
pub mod Losing
pub mod Breaking
pub mod Leading
pub mod Examples
use mathlib.Core.Option
use amqp_cpp_asio.Base.{
  ℕ, zero, suc, ◌*◌, String, Bool, true, false, Option, none, some, List, [], ◌∷◌, not, length,
  if◌then◌else◌,
}
use amqp_cpp_asio.Transceiver.{Transceiver, Outcome, done, is_running}
use amqp_cpp_asio.Transceiver.Replies.{Reply, handle}
use amqp_cpp_asio.Transceiver.Control.{start, send as send_text}
use amqp_cpp_asio.Transceiver.Progress.{is_waiting}
use amqp_cpp_asio.Connector.Machine.{
  Connector, prepend, for_each, with_all, disconnected, stop_connector, finish_stop,
}

-- What `run_one` calls: a lambda of the transceiver at a place of the list, or `onShutdown`.
pub data Delivery : Type 0 where
  replies : ℕ → Reply → Delivery
  loses : Bool → Delivery

-- A call returns, or follows a null pointer. `exhausted` is for the fuel of the model.
pub data Result : Type 0 where
  returns : Connector → Result
  crashes exhausted : Result

abbrev pub then_run : (Connector → Result) → Option Connector → Result
then_run f none = crashes
then_run f (some c) = f c

abbrev pub and_run : (Connector → Result) → Result → Result
and_run f (returns c) = f c
and_run f crashes = crashes
and_run f exhausted = exhausted

-- A call of the transceiver at a place of the list.
abbrev pub update_at : (Transceiver → Outcome) → ℕ → List Transceiver → Option (List Transceiver)
update_at f i [] = some []
update_at f zero (t ∷ ts) = prepend (f t) (some ts)
update_at f (suc i) (t ∷ ts) = prepend (done t) (update_at f i ts)

pub run_one : Delivery → Connector → Option Connector
run_one (replies i r) c = with_all (λ u. u) c (update_at (handle r) i c.transceivers)
run_one (loses error) c = disconnected error c

abbrev pub waits_at : (Transceiver → Bool) → ℕ → List Transceiver → Bool
waits_at p i [] = false
waits_at p zero (t ∷ ts) = p t
waits_at p (suc i) (t ∷ ts) = waits_at p i ts

module _ (p : Transceiver → Bool) (loop : Connector → Delivery) where
  -- `while (p(*i)) m_service.run_one();` where `loop` says what the event loop calls next.
  pub wait_at : ℕ → ℕ → Connector → Result
  wait_at i zero c = if waits_at p i c.transceivers then exhausted else returns c
  wait_at i (suc n) c = elim (waits_at p i c.transceivers) [
    | true ↦ then_run (wait_at i n) (run_one (loop c) c)
    | false ↦ returns c
  ]

  -- The loop over the transceivers, with as many of them left and from a place on.
  pub wait_each : ℕ → ℕ → Connector → Result
  wait_each zero i c = returns c
  wait_each (suc k) i c = and_run (wait_each k (suc i)) (wait_at i (11 * length c.transceivers) c)

abbrev pub start_idle : Option ℕ → Transceiver → Outcome
start_idle connection t = if is_running t then done t else start connection t

-- `run`.
pub run : (Connector → Delivery) → Connector → Result
run loop c =
    if not c.connection_handler_ready
    then returns c
    else then_run (λ u. wait_each is_waiting loop (length u.transceivers) 0 u)
        (with_all (λ u. u) (record c { work = true })
          (for_each (start_idle c.amqp_connection) c.transceivers))

-- The function that `stop` posts, whole; `handler_stopped` is `stopped()` of the connection handler.
pub posted : (Connector → Delivery) → (Connector → Bool) → Connector → Result
posted loop handler_stopped c =
    and_run (λ u. returns (finish_stop (handler_stopped u) u))
      (wait_each is_running loop (length c.transceivers) 0 c)

-- `stop`, and the function that it posts once the event loop calls it.
pub stop : (Connector → Delivery) → (Connector → Bool) → Connector → Result
stop loop handler_stopped c =
    if not c.connection_handler_ready
    then returns c
    else then_run (posted loop handler_stopped) (stop_connector c)

abbrev pub send_at :
    String → String → Bool → ℕ → List Transceiver → Option (List Transceiver × Bool)
send_at message route required i [] = none
send_at message route required zero (t ∷ ts) =
    Option.map (λ (u, b). (u ∷ ts, b)) (send_text message route required t)
send_at message route required (suc i) (t ∷ ts) =
    Option.map (λ (us, b). (t ∷ us, b)) (send_at message route required i ts)

-- `send` of a text through the transceiver at a place of the list; `none` is a null channel, or an
-- iterator that is not of this list.
pub send : ℕ → String → String → Bool → Connector → Option (Connector × Bool)
send i message route required c =
    if not c.connection_handler_ready
    then some (c, false)
    else Option.map (λ (ts, b). (record c { transceivers = ts }, b))
        (send_at message route required i c.transceivers)
