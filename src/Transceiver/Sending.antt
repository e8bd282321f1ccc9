-- ===== src/Transceiver/Sending.antt =====
-- What `Transceiver::send` does (src/AmqpTransceiver.cpp), and which messages are passed on.
use amqp_cpp_asio.Base.{String, ◌≡◌, Bool, true, false, some, arith, if◌then◌else◌}
use amqp_cpp_asio.Transceiver.{Envelope, publish, Transceiver, is_ready}
use amqp_cpp_asio.Transceiver.Machine.{call}
use amqp_cpp_asio.Transceiver.Control.{send_envelope, publish_flags}
use amqp_cpp_asio.Transceiver.Invariant.{IsValid}

-- Send of a valid transceiver never follows a null channel; it reports success exactly if the
-- transceiver is ready, and has then published the message once, to its own exchange by the
-- given route with the flag mandatory if that is asked for; otherwise it changes nothing
pub send_envelope-ready :
    (m : Envelope) (route : String) (required : Bool) (t : Transceiver)
    → IsValid t
    → send_envelope m route required t
      ≡ some (
          if is_ready t
          then (call t (publish t.exchange route m (publish_flags required)), true)
          else (t, false))
unfolding send_envelope
send_envelope-ready m route required t v = ground arith
