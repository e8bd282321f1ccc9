-- ===== src/Programs/Receiver/Receiving.antt =====
-- What examples/receiver.cpp makes of a document that examples/sender.cpp sends.
use amqp_cpp_asio.Base.{String, ℕ, ◌≡◌, Bool, true, some, ◌∷◌, arith, ap, ◌∙◌}
use amqp_cpp_asio.Transceiver.{Transceiver, Delivery, Envelope, publish, message_callback, is_ready}
use amqp_cpp_asio.Transceiver.Machine.{call}
use amqp_cpp_asio.Transceiver.Control.{publish_flags}
use amqp_cpp_asio.Transceiver.Invariant.{IsValid}
use amqp_cpp_asio.JsonConverter.{
  RapidJson, ReadsBack, convert_to_json, send_json, send_json-publish,
}
use amqp_cpp_asio.Programs.Receiver.{Inbox, deliver, on_amqp_message}

module _ (r : RapidJson) (pretty : r.Document → String) where
  open r use {Document, null, write}

  -- The inbox after a message whose body and document are these.
  abbrev pub received : ℕ → String → Document → Inbox → Inbox
  received tag body j i = record i {
    acknowledged = tag ∷ i.acknowledged;
    output = pretty j ∷ "JSON:" ∷ body ∷ "AMQP raw message content:" ∷ i.output;
  }

  on_amqp_message-received :
      (d : Delivery) (j : Document) (i : Inbox)
      → convert_to_json r d.message null ≡ j
      → on_amqp_message r pretty d i ≡ received d.delivery_tag d.message.body j i
  unfolding on_amqp_message
  on_amqp_message-received d j i e = rw e

  deliver-received :
      (d : Delivery) (j : Document) (u : Transceiver) (i : Inbox)
      → convert_to_json r d.message null ≡ j
      → is_ready u ≡ true
      → u.on_message ≡ true
      → deliver r pretty d (u, i)
        ≡ (call u (message_callback d), received d.delivery_tag d.message.body j i)
  unfolding deliver
  deliver-received d j u i e y c = ground (arith, y, c, on_amqp_message-received d j i e)

  -- If RapidJSON reads back what it writes, send of a document by a valid transceiver that is
  -- ready publishes one envelope, and when it is delivered to examples/receiver.cpp at a
  -- transceiver that is ready and has its callback, the program acknowledges its tag once and
  -- prints the text that was written and then the same document
  pub deliver-send_json :
      ReadsBack r
      → (j : Document) (route : String) (required : Bool) (t : Transceiver) → IsValid t
      → is_ready t ≡ true
      → (u : Transceiver) → is_ready u ≡ true
      → u.on_message ≡ true
      → (tag : ℕ) (again : Bool) (i : Inbox)
      → (m : Envelope) × (send_json r j route required t
          ≡ some (call t (publish t.exchange route m (publish_flags required)), true))
        × (deliver r pretty (record { message = m; delivery_tag = tag; redelivered = again }) (u, i)
            ≡ (
              call u (
                  message_callback
                    (record { message = m; delivery_tag = tag; redelivered = again })),
              received tag (write j) j i,
            ))
  deliver-send_json back j route required t v e u y c tag again i =
      let (m, p, b, q) = send_json-publish r back j null route required t v e in
      (
        m,
        p,
        deliver-received (record { message = m; delivery_tag = tag; redelivered = again }) j u i q y
              c
            ∙ ap
                (λ x. (
                  call u (
                      message_callback
                        (record { message = m; delivery_tag = tag; redelivered = again })),
                  received tag x j i,
                ))
                b,
      )
