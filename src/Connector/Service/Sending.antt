-- ===== src/Connector/Service/Sending.antt =====
-- What `send` of class Connector does (src/AmqpConnector.hpp).
use amqp_cpp_asio.Base.{
  ℕ, zero, suc, String, ◌≡◌, Bool, true, false, ◌&&◌, some, List, [], ◌∷◌, All, arith, get_elem?,
  set, if◌then◌else◌,
}
use amqp_cpp_asio.Transceiver.{Transceiver, Envelope, publish, is_ready}
use amqp_cpp_asio.Transceiver.Machine.{call}
use amqp_cpp_asio.Transceiver.Control.{send_envelope, publish_flags}
use amqp_cpp_asio.Transceiver.Invariant.{IsValid}
use amqp_cpp_asio.Connector.Machine.{Connector}
use amqp_cpp_asio.Connector.Shutdown.{IsLinked}
use amqp_cpp_asio.Connector.Service.{send_at, send}

-- A text as a message.
abbrev pub text : String → Envelope
text message = record { body = message; content_type = "text/plain"; content_encoding = "utf-8" }

-- The transceiver after the message is published.
abbrev pub published : String → String → Bool → Transceiver → Transceiver
published message route required t =
    call t (publish t.exchange route (text message) (publish_flags required))

module _ (message route : String) (required : Bool) (t : Transceiver) where
  send_at_lem :
      (i : ℕ) (ts : List Transceiver)
      → All IsValid ts
      → get_elem? ts i ≡ some t
      → send_at message route required i ts
        ≡ some (
            if is_ready t
            then (set ts i (published message route required t), true)
            else (ts, false))
  unfolding send_envelope
  send_at_lem i [] v e = cc
  send_at_lem zero (u ∷ ts) (v, vs) e = ground arith
  send_at_lem (suc i) (u ∷ ts) (v, vs) e = ground (arith, send_at_lem i ts vs e)

  -- Connector::send of a text through a transceiver of a connector with valid transceivers never
  -- follows a null channel; it reports success exactly if the connector and the transceiver are
  -- ready, and has then published the text once through this transceiver, with its route and
  -- flag, and changed no other; otherwise it changes nothing
  pub send-published :
      (i : ℕ) (c : Connector)
      → IsLinked c
      → get_elem? c.transceivers i ≡ some t
      → send i message route required c
        ≡ some (
            if c.connection_handler_ready && is_ready t
            then (
              record c { transceivers = set c.transceivers i (published message route required t) },
              true,
            )
            else (c, false))
  unfolding send
  send-published i c v e = ground (arith, send_at_lem i c.transceivers v.valid e)
