-- ===== src/JsonConverter.antt =====
-- src/AmqpJsonConverter.cpp, and `Transceiver::send` of a JSON document (src/AmqpTransceiver.cpp).
-- RapidJSON is a parameter: its documents, its parser and its writer.
use amqp_cpp_asio.Base.{String, ◌≡◌, refl, Bool, true, Option, none, some, if◌then◌else◌}
use text.Mathlib.Text.{◌==◌ as str_eq}
use amqp_cpp_asio.Transceiver.{Envelope, publish, Transceiver, is_ready}
use amqp_cpp_asio.Transceiver.Machine.{call}
use amqp_cpp_asio.Transceiver.Control.{send_envelope, publish_flags}
use amqp_cpp_asio.Transceiver.Invariant.{IsValid}
use amqp_cpp_asio.Transceiver.Sending.{send_envelope-ready}

-- What the code uses of RapidJSON. `parse` fails where `HasParseError()` holds.
pub record RapidJson : Type 1 where
  pub Document : Type 0
  pub null : Document
  pub parse : String → Option Document
  pub write : Document → String

-- RapidJSON reads what it has written.
abbrev pub ReadsBack : RapidJson → Type 0
ReadsBack r = (j : r.Document) → r.parse (r.write j) ≡ some j

module _ (r : RapidJson) where
  open r use {Document, null, parse, write}

  -- `ConvertToJson`: the new value of `json`, from its old one.
  unfoldable pub convert_to_json : Envelope → Document → Document
  convert_to_json message json =
      if str_eq message.content_type "application/json"
      then elim (parse message.body) [ none ↦ null | some j ↦ j ]
      else json

  -- `ConvertFromJson`: the envelope, and the buffer that holds its body.
  unfoldable pub convert_from_json : Document → Envelope × String
  convert_from_json json =
      let buffer : String = write json in
      (
        record { body = buffer; content_type = "application/json"; content_encoding = "utf-8" },
        buffer,
      )

  -- `send` of a document.
  unfoldable pub send_json : Document → String → Bool → Transceiver → Option (Transceiver × Bool)
  unfolding convert_from_json
  send_json message = send_envelope (convert_from_json message).0

  -- A document that is sent is read back by the receiver, whatever was in the document before.
  pub convert_to_json-convert_from_json :
      ReadsBack r → (j old : Document) → convert_to_json (convert_from_json j).0 old ≡ j
  unfolding convert_to_json convert_from_json
  convert_to_json-convert_from_json back j old = rw (back j)

  -- If RapidJSON reads back what it writes, send of a document by a valid transceiver that is
  -- ready publishes one envelope, from which ConvertToJson gives the document back, whatever its
  -- output held before
  pub send_json-publish :
      ReadsBack r
      → (j old : Document) (route : String) (required : Bool) (t : Transceiver) → IsValid t
      → is_ready t ≡ true
      → (m : Envelope) × (send_json j route required t
          ≡ some (call t (publish t.exchange route m (publish_flags required)), true))
        × (m.body ≡ write j)
        × (convert_to_json m old ≡ j)
  unfolding send_json convert_from_json
  send_json-publish back j old route required t v e = (
    (convert_from_json j).0,
    rw (send_envelope-ready _ route required t v, e),
    refl,
    convert_to_json-convert_from_json back j old,
  )
