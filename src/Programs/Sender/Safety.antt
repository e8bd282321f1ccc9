-- ===== src/Programs/Sender/Safety.antt =====
-- examples/sender.cpp follows no null pointer and does not take the front of an empty list.
use amqp_cpp_asio.Base.{
  ℕ, ◌==◌, ◌≡◌, refl, String, Bool, true, false, Option, none, some, List, [], ◌∷◌, arith, length,
  if◌then◌else◌, subst, sym,
}
use amqp_cpp_asio.Transceiver.{Transceiver, Envelope, Call, publish, new, is_ready}
use amqp_cpp_asio.Transceiver.Machine.{call}
use amqp_cpp_asio.Transceiver.Control.{send_envelope, publish_flags}
use amqp_cpp_asio.Transceiver.Invariant.{IsValid}
use amqp_cpp_asio.Transceiver.Sending.{send_envelope-ready}
use amqp_cpp_asio.AutoReconnect as AutoReconnect
use amqp_cpp_asio.JsonConverter.{RapidJson, send_json, convert_from_json}
use amqp_cpp_asio.Connector.Machine.{Connector}
use amqp_cpp_asio.Connector.Shutdown.{Each}
use amqp_cpp_asio.Connector.Service.{Delivery}
use amqp_cpp_asio.Connector.Service.Leading.{MayCome}
use amqp_cpp_asio.Client.{Client, Event, run_events, run_link, start, stop, and_then}
use amqp_cpp_asio.Client.Safety.{run_link-Keeps, run_events-Keeps}
use amqp_cpp_asio.Client.Keeping.{Keeps, Keeps-and_then, HasLink, IsSafe, stop-Keeps}
use amqp_cpp_asio.Programs.{finished, print, made, route_name}
use amqp_cpp_asio.Programs.Sender.{
  main, on_started, put_back, send_first, report_sent, send_text, send_document, send_parsed,
  send_result,
}

-- The transceivers after a call of `send`.
abbrev Sent : Option (List Transceiver × Bool) → Type 0
Sent none = ⊥
Sent (some (ts, b)) = Each IsValid 1 ts

abbrev Valid : Option (Transceiver × Bool) → Type 0
Valid none = ⊥
Valid (some (t, b)) = IsValid t

call-IsValid : (t : Transceiver) (c : Call) → IsValid t → IsValid (call t c)
call-IsValid t c v = ground arith

answer-Valid :
    (m : Envelope) (route : String) (t : Transceiver) (b : Bool)
    → IsValid t
    → Valid (
        some (
          if b
          then (call t (publish t.exchange route m (publish_flags false)), true)
          else (t, false)))
answer-Valid m route t true v = call-IsValid t (publish t.exchange route m []) v
answer-Valid m route t false v = v

send_envelope-Valid :
    (m : Envelope) (route : String) (t : Transceiver)
    → IsValid t
    → Valid (send_envelope m route false t)
send_envelope-Valid m route t v =
    subst Valid (sym (send_envelope-ready m route false t v))
      (answer-Valid m route t (is_ready t) v)

put_back-Sent :
    (ts : List Transceiver) (o : Option (Transceiver × Bool))
    → length ts ≡ 0
    → Valid o
    → Sent (put_back ts o)
put_back-Sent [] (some (t, b)) e v = ((v, tt), refl)
put_back-Sent [] none e v = v
put_back-Sent (u ∷ ts) o e v = absurd (omega arith)

send_first-Sent :
    (m : Envelope) (ts : List Transceiver)
    → Each IsValid 1 ts
    → Sent (send_first (send_envelope m route_name false) ts)
send_first-Sent m [] (v, e) = absurd (omega arith)
send_first-Sent m (t ∷ ts) ((v, vs), e) =
    put_back-Sent ts (send_envelope m route_name false t) (omega arith)
      (send_envelope-Valid m route_name t v)

report_sent-Keeps :
    (sent_line other_line : String) (s : Client) (o : Option (List Transceiver × Bool))
    → HasLink 1 s
    → Sent o
    → Keeps (HasLink 1) (report_sent sent_line other_line s o)
report_sent-Keeps sent_line other_line s none v x = x
report_sent-Keeps sent_line other_line s (some (ts, b)) (v, e) (w, f) =
    (record { valid = w; linked = v.linked }, f)

some_injective : {a b : Client} → some a ≡ some b → a ≡ b
some_injective e = cc

made-HasLink :
    (b : Bool) (s : Client)
    → (if b then some (start (made "" false)) else none) ≡ some s
    → HasLink 1 s
unfolding start AutoReconnect.start new
made-HasLink true s e =
    subst (HasLink 1) (some_injective e)
      (record { valid = (ground arith, tt); linked = refl }, refl)
made-HasLink false s e = absurd cc

main-HasLink : (argc : ℕ) (s : Client) → main argc ≡ some s → HasLink 1 s
unfolding main
main-HasLink argc s e = made-HasLink (argc == 2) s e

module _ (r : RapidJson) (loop : Connector → Delivery) (content : String) where
  open r use {Document, parse}

  send_text-Keeps : IsSafe 1 (send_text r loop content)
  unfolding send_text send_envelope
  send_text-Keeps s v = report_sent-Keeps "Raw message send." "Message not send." s _ v (
      send_first-Sent
        (record { body = content; content_type = "text/plain"; content_encoding = "utf-8" })
        s.connector.transceivers (v.0.valid, v.1))

  send_document-Keeps : (j : Document) → IsSafe 1 (send_document r loop content j)
  unfolding send_document send_json
  send_document-Keeps j s v =
      report_sent-Keeps "JSON send." "JSON not send." s _ v
        (send_first-Sent (convert_from_json r j).0 s.connector.transceivers (v.0.valid, v.1))

  send_result-Keeps : (o : Option Document) → IsSafe 1 (send_result r loop content o)
  unfolding send_result
  send_result-Keeps none s v = v
  send_result-Keeps (some j) s v = send_document-Keeps j s v

  send_parsed-Keeps : IsSafe 1 (send_parsed r loop content)
  unfolding send_parsed
  send_parsed-Keeps s v = send_result-Keeps (parse content) s v

  module _ (comes : MayCome loop) where
    on_started-Keeps : IsSafe 1 (on_started r loop content)
    unfolding on_started
    on_started-Keeps s v =
        Keeps-and_then (HasLink 1) (HasLink 1)
          (λ t. and_then (stop loop finished) (
            and_then (send_parsed r loop content)
              (send_text r loop content (print "AMQP client started" t))))
          (run_link loop finished s)
          (λ t w.
            Keeps-and_then (HasLink 1) (HasLink 1) (stop loop finished)
              (and_then (send_parsed r loop content)
                (send_text r loop content (print "AMQP client started" t)))
              (stop-Keeps loop finished 1)
              (Keeps-and_then (HasLink 1) (HasLink 1) (send_parsed r loop content)
                (send_text r loop content (print "AMQP client started" t)) send_parsed-Keeps
                (send_text-Keeps (print "AMQP client started" t) w)))
          (run_link-Keeps loop finished 1 comes s v)

    -- If the event loop, where it is run, delivers a reply only where it may come, then from
    -- main of examples/sender.cpp on, where it does not fail, over any run of calls and events,
    -- with the started callback wherever it is called, no null pointer is followed, as long as
    -- no wait takes more than eleven deliveries for each transceiver, and a first transceiver is
    -- there for each send; wherever the run returns the connector has one transceiver, which is
    -- valid, and a connection exactly while it is ready
    pub main-Keeps :
        (handler_stopped : Connector → Bool) (argc : ℕ) (s : Client) (es : List Event)
        → main argc ≡ some s
        → Keeps
            (HasLink 1)
            (run_events loop finished (on_started r loop content) handler_stopped es s)
    main-Keeps handler_stopped argc s es e =
        run_events-Keeps loop finished 1 comes (on_started r loop content) on_started-Keeps
          handler_stopped es s (main-HasLink argc s e)
