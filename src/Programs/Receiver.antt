-- ===== src/Programs/Receiver.antt =====
-- The program examples/receiver.cpp, which acknowledges and prints what it receives.
pub mod Receiving
pub mod Listening
pub mod Main
pub mod Safety
use amqp_cpp_asio.Base.{ℕ, String, true, [], ◌∷◌, List, ◌&&◌, if◌then◌else◌}
use amqp_cpp_asio.Transceiver.{Transceiver, Delivery, is_ready}
use amqp_cpp_asio.Transceiver.Replies.{receive}
use amqp_cpp_asio.Transceiver.Control.{on_message}
use amqp_cpp_asio.JsonConverter.{RapidJson, convert_to_json}
use amqp_cpp_asio.Connector.Machine.{Connector}
use amqp_cpp_asio.Connector.Service as Service
use amqp_cpp_asio.Client.{Client, Result, returns, and_then, start, run_link}
use amqp_cpp_asio.Programs.{finished, print, made, route_name}

-- What the program has done with the messages: the tags that it has acknowledged and the lines that it
-- has printed, the newest first.
pub record Inbox : Type 0 where
  pub acknowledged : List ℕ
  pub output : List String

-- The lambda that is given to `AutoReconnect::start`.
unfoldable pub on_started : (Connector → Service.Delivery) → Client → Result
on_started loop s =
    and_then (λ t. returns (print "AMQP client started" t)) (run_link loop finished s)

abbrev pub with_first : (Transceiver → Transceiver) → List Transceiver → List Transceiver
with_first f [] = []
with_first f (t ∷ ts) = f t ∷ ts

-- `main` up to `io_service.run()`.
unfoldable pub main : Client
unfolding start on_message
main =
    let s : Client = made route_name true in
    start (record s {
      connector = record s.connector {
        transceivers = with_first (on_message true) s.connector.transceivers;
      };
    })

-- `pretty` is what `PrettyWriter` writes of a document.
module _ (r : RapidJson) (pretty : r.Document → String) where
  open r use {null}

  -- `onAmqpMessage`.
  unfoldable pub on_amqp_message : Delivery → Inbox → Inbox
  unfolding convert_to_json
  on_amqp_message d i = record i {
    acknowledged = d.delivery_tag ∷ i.acknowledged;
    output =
        pretty (convert_to_json r d.message null)
        ∷ "JSON:"
        ∷ d.message.body
        ∷ "AMQP raw message content:"
        ∷ i.output;
  }

  -- A message that AMQP-CPP delivers to the transceiver, and the callback that this makes.
  unfoldable pub deliver : Delivery → Transceiver × Inbox → Transceiver × Inbox
  unfolding on_amqp_message
  deliver d (t, i) = (receive d t, if is_ready t && t.on_message then on_amqp_message d i else i)
