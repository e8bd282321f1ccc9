-- ===== src/Programs/Sender/Reporting.antt =====
-- What examples/sender.cpp prints, against what it publishes.
use amqp_cpp_asio.Base.{
  String, ◌≡◌, refl, sym, ◌∙◌, subst, Bool, true, false, some, none, Option, [], ◌∷◌, List, arith,
  inl, inr, Bool-cases, if◌then◌else◌,
}
use amqp_cpp_asio.Transceiver.{Transceiver, Call}
use amqp_cpp_asio.Transceiver.Control.{send_envelope}
use amqp_cpp_asio.Transceiver.Invariant.{IsValid}
use amqp_cpp_asio.Transceiver.Publishing.{publishes}
use amqp_cpp_asio.Connector.Machine.{Connector}
use amqp_cpp_asio.Connector.Service.{Delivery}
use amqp_cpp_asio.Connector.Service.Rounds.{Serves}
use amqp_cpp_asio.Connector.Service.Resting.{is_fresh}
use amqp_cpp_asio.Client.{Client, Result, returns, and_then, stop, run_link}
use amqp_cpp_asio.Client.Callbacks.{Returns, Returns-and_then}
use amqp_cpp_asio.Client.First.{IsFirst, due_client, connected_due, run_link-idle}
use amqp_cpp_asio.Programs.{finished, print, exchange_name}
use amqp_cpp_asio.JsonConverter.{RapidJson, convert_from_json, send_json}
use amqp_cpp_asio.Connector.Service.Sending.{text}
use amqp_cpp_asio.Connector.Machine.{connect}
use amqp_cpp_asio.AutoReconnect.{AutoReconnect, run_connector}
use amqp_cpp_asio.Client.{connected, run_again}
use amqp_cpp_asio.Programs.Sender.{send_text, send_document, send_result, send_parsed, on_started}
use amqp_cpp_asio.Programs.Sender.Sending.{Has, print-Has, with_message, report_sent-Has}
use amqp_cpp_asio.Programs.Sender.Running.{Either, Returns-Either, run_link-Has}
use amqp_cpp_asio.Programs.Sender.Stopping.{Stopped, Halted, stop-Halted}

-- The client of `main` while its first connection is being made, with the transceiver that it has.
pub record IsDue (ps : List Call) (s : Client) : Type 0 where
  pub begins : IsFirst s
  pub unrefused : s.wrapper.rerun ≡ false
  pub only : Transceiver
  pub alone : s.connector.transceivers ≡ only ∷ []
  pub valid : IsValid only
  pub idle : is_fresh only ≡ true
  pub sent : publishes only.calls ≡ ps
  pub named : only.exchange ≡ exchange_name

module _ (r : RapidJson) (content : String) where
  abbrev messages_of : Bool → Option r.Document → List Call → List Call
  messages_of up none ps = ps
  messages_of up (some j) ps = with_message up (convert_from_json r j).0 ps

  -- The messages that were published after the given ones, if the transceiver was ready.
  abbrev pub messages : Bool → List Call → List Call
  messages up ps = messages_of up (r.parse content) (with_message up (text content) ps)

  abbrev report_of : Bool → Option r.Document → List String → List String
  report_of up none out = "Content isn't JSON." ∷ out
  report_of up (some j) out = (if up then "JSON send." else "JSON not send.") ∷ out

  -- The lines that are printed then.
  abbrev pub report : Bool → List String → List String
  report up out =
      report_of up (r.parse content)
        ((if up then "Raw message send." else "Message not send.") ∷ "AMQP client started" ∷ out)

  module _ (loop : Connector → Delivery) where
    send_result-Has :
        (up : Bool) (o : Option r.Document) (out : List String) (ps : List Call) (s : Client)
        → Has up out ps s
        → Returns
            (Has up (report_of up o out) (messages_of up o ps))
            (send_result r loop content o s)
    unfolding send_document convert_from_json send_json send_envelope
    send_result-Has up none out ps s h = print-Has up out ps "Content isn't JSON." s h
    send_result-Has up (some j) out ps s h =
        report_sent-Has (convert_from_json r j).0 "JSON send." "JSON not send." out ps s up h

    send_parsed-Has :
        (up : Bool) (out : List String) (ps : List Call) (s : Client)
        → Has up
            ((if up then "Raw message send." else "Message not send.")
              ∷ "AMQP client started"
              ∷ out)
            (with_message up (text content) ps)
            s
        → Returns (Has up (report up out) (messages up ps)) (send_parsed r loop content s)
    unfolding send_parsed
    send_parsed-Has up out ps s h =
        send_result-Has up (r.parse content)
          ((if up then "Raw message send." else "Message not send.") ∷ "AMQP client started" ∷ out)
          (with_message up (text content) ps) s h

    -- The rest of the callback after `run`.
    abbrev sends : Client → Result
    sends s = and_then (stop loop finished) (
        and_then (send_parsed r loop content)
          (send_text r loop content (print "AMQP client started" s)))

    sends-Halted :
        (up : Bool) (out : List String) (ps : List Call) (s : Client)
        → Has up out ps s
        → Returns (Halted (report up out) (messages up ps)) (sends s)
    unfolding send_text send_envelope
    sends-Halted up out ps s h =
        Returns-and_then (Has up (report up out) (messages up ps))
          (Halted (report up out) (messages up ps)) (stop loop finished)
          (and_then (send_parsed r loop content)
            (send_text r loop content (print "AMQP client started" s)))
          (stop-Halted loop up (report up out) (messages up ps))
          (Returns-and_then
            (Has up
              ((if up then "Raw message send." else "Message not send.")
                ∷ "AMQP client started"
                ∷ out)
              (with_message up (text content) ps))
            (Has up (report up out) (messages up ps)) (send_parsed r loop content)
            (send_text r loop content (print "AMQP client started" s)) (send_parsed-Has up out ps)
            (report_sent-Has (text content) "Raw message send." "Message not send."
              ("AMQP client started" ∷ out) ps (print "AMQP client started" s) up
              (print-Has up out ps "AMQP client started" s h)))

    -- The rest of `AutoReconnect::started`.
    run_again-Stopped :
        (out : List String) (ps : List Call) (s : Client)
        → Halted out ps s
        → Returns (Stopped out ps) (run_again loop finished s)
    run_again-Stopped out ps s (h, c) = elim (Bool-cases s.wrapper.rerun) [
      | inl y ↦
          let k : s.connector.connection_handler_ready ≡ false = ground arith in
          subst (λ b. Returns (Stopped out ps) (if b then run_link loop finished t else returns u))
            (sym y)
            (subst (Returns (Stopped out ps)) (run_link-idle loop finished t k)
              (rested t.wrapper refl))
      | inr n ↦
          subst (λ b. Returns (Stopped out ps) (if b then run_link loop finished t else returns u))
            (sym n) (rested u.wrapper refl)
    ]
      where
        t : Client
        t = record s {
          wrapper = record s.wrapper {
            started_callback = none;
            rerun = false;
            calls = run_connector ∷ s.wrapper.calls;
          };
        }

        u : Client
        u = record s { wrapper = record s.wrapper { started_callback = none } }

        rested :
            (a : AutoReconnect)
            → a.started ≡ s.wrapper.started
            → Stopped out ps (record s { wrapper = a })
        rested a e = record {
          printed = h.printed;
          sent = h.sent;
          ended = e ∙ h.ended;
          stopping = h.stopping;
        }

    module _ (serves : Serves loop) where
      on_started-Halted :
          (ps : List Call) (s : Client) (d : IsDue ps s)
          → Returns
              (Either (λ up. Halted (report up s.output) (messages up ps)))
              (on_started r loop content (due_client s d.begins.callback))
      unfolding on_started connect
      on_started-Halted ps s d =
          let x : Client = due_client s d.begins.callback in
          Returns-and_then (Either (λ up. Has up s.output ps))
            (Either (λ up. Halted (report up s.output) (messages up ps))) sends
            (run_link loop finished x)
            (Returns-Either (λ up. Has up s.output ps)
              (λ up. Halted (report up s.output) (messages up ps)) sends
              (λ up t h. sends-Halted up s.output ps t h))
            (run_link-Has loop serves ps x
              (record {
                is_started = d.begins.watching.is_started;
                watched = d.begins.watching.watched;
              })
              d.unrefused d.begins.telling d.begins.staying refl refl d.only d.alone
              (d.valid, (d.idle, (d.sent, d.named))))

      pub started-Reports :
          (ps : List Call) (s : Client)
          → IsDue ps s
          → Returns
              (Either (λ up. Stopped (report up s.output) (messages up ps)))
              (connected loop finished (on_started r loop content) s)
      started-Reports ps s d =
          subst (Returns (Either (λ up. Stopped (report up s.output) (messages up ps))))
            (connected_due loop finished (on_started r loop content) s d.begins)
            (Returns-and_then (Either (λ up. Halted (report up s.output) (messages up ps)))
              (Either (λ up. Stopped (report up s.output) (messages up ps)))
              (run_again loop finished) (on_started r loop content (due_client s d.begins.callback))
              (Returns-Either (λ up. Halted (report up s.output) (messages up ps))
                (λ up. Stopped (report up s.output) (messages up ps)) (run_again loop finished)
                (λ up t h. run_again-Stopped (report up s.output) (messages up ps) t h))
              (on_started-Halted ps s d))
