-- ===== src/Programs/Sender.antt =====
-- The program examples/sender.cpp, which sends its argument as a text and, where it is one, as a JSON
-- document, and then stops.
pub mod Sending
pub mod Stopping
pub mod Running
pub mod Reporting
pub mod Main
pub mod Safety
use amqp_cpp_asio.Base.{
  ℕ, String, Bool, true, false, some, [], ◌∷◌, List, ◌==◌, if◌then◌else◌, Option, none,
}
use amqp_cpp_asio.Transceiver.{Transceiver}
use amqp_cpp_asio.Transceiver.Control.{send}
use amqp_cpp_asio.JsonConverter.{RapidJson, send_json}
use amqp_cpp_asio.Connector.Machine.{Connector}
use amqp_cpp_asio.Connector.Service.{Delivery}
use amqp_cpp_asio.Client.{Client, Result, returns, crashes, and_then, start, stop, run_link}
use amqp_cpp_asio.Programs.{finished, print, made, route_name}

-- `trn->send(…)` where `trn` is the transceiver that `main` has added, the first one of the list.
abbrev pub put_back :
    List Transceiver → Option (Transceiver × Bool) → Option (List Transceiver × Bool)
put_back ts none = none
put_back ts (some (t, b)) = some (t ∷ ts, b)

abbrev pub send_first :
    (Transceiver → Option (Transceiver × Bool))
    → List Transceiver
    → Option (List Transceiver × Bool)
send_first f [] = none
send_first f (t ∷ ts) = put_back ts (f t)

-- `if (trn->send(…)) … else …`.
abbrev pub report_sent : String → String → Client → Option (List Transceiver × Bool) → Result
report_sent sent not_sent s none = crashes
report_sent sent not_sent s (some (ts, b)) = returns (
    print (if b then sent else not_sent)
      (record s { connector = record s.connector { transceivers = ts } }))

module _ (r : RapidJson) (loop : Connector → Delivery) (content : String) where
  open r use {Document, parse}

  unfoldable pub send_text : Client → Result
  send_text s =
      report_sent "Raw message send." "Message not send." s
        (send_first (send content route_name false) s.connector.transceivers)

  unfoldable pub send_document : Document → Client → Result
  unfolding send_json
  send_document j s =
      report_sent "JSON send." "JSON not send." s
        (send_first (send_json r j route_name false) s.connector.transceivers)

  abbrev pub send_result : Option Document → Client → Result
  unfolding send_document
  send_result none s = returns (print "Content isn't JSON." s)
  send_result (some j) s = send_document j s

  unfoldable pub send_parsed : Client → Result
  send_parsed s = send_result (parse content) s

  -- The lambda that is given to `AutoReconnect::start`. The cancelled signals call `on_signal`, which
  -- then returns.
  unfoldable pub on_started : Client → Result
  unfolding send_text send_parsed
  on_started s =
      and_then
        (λ t.
          and_then (stop loop finished)
            (and_then send_parsed (send_text (print "AMQP client started" t))))
        (run_link loop finished s)

-- `main` up to `io_service.run()`, with `argc`; `none` is `EXIT_FAILURE`.
unfoldable pub main : ℕ → Option Client
unfolding start
main argc = if argc == 2 then some (start (made "" false)) else none
