-- ===== src/Programs/Examples.antt =====
-- The theorems on the example programs: the sender whose argument is a document, once its connection is
-- made, and the receiver then and when a document arrives. A text is a document that stands for itself.
use amqp_cpp_asio.Base.{◌∷◌, List, String, true, false, some, [], ◌≡◌, refl}
use amqp_cpp_asio.Transceiver.{Envelope, publish, message_callback}
use amqp_cpp_asio.Transceiver.Machine.{call}
use amqp_cpp_asio.Transceiver.Tests.{listening, listening-IsValid}
use amqp_cpp_asio.Connector.Service.Examples.{service, service-Serves, service-MayCome}
use amqp_cpp_asio.JsonConverter.{RapidJson, send_json}
use amqp_cpp_asio.Client.{run_events, connected, stops, connects, finishes, shuts, timer, Event}
use amqp_cpp_asio.Client.Safety.{run_events-Keeps}
use amqp_cpp_asio.Client.Keeping.{HasLink, Keeps}
use amqp_cpp_asio.Programs.Sender.Safety.{main-Keeps}
use amqp_cpp_asio.Programs.Receiver.Safety.{
  main-HasLink, on_started-Keeps, main-Owns, on_started-Owns,
}
use amqp_cpp_asio.AutoReconnect.{original}
use amqp_cpp_asio.Client.Backing.{Owns}
use amqp_cpp_asio.Client.Owning.{run_events-Owns, later-MayRun}
use amqp_cpp_asio.Client.Callbacks.{Returns}
use amqp_cpp_asio.Programs.{finished}
use amqp_cpp_asio.Programs.Sender.{on_started}
use amqp_cpp_asio.Programs.Sender.Running.{Either}
use amqp_cpp_asio.Programs.Sender.Stopping.{Stopped}
use amqp_cpp_asio.Programs.Sender.Reporting.{report, messages}
use amqp_cpp_asio.Programs.Sender.Main.{begun, main-some, main-Reports}
use amqp_cpp_asio.Programs.Receiver.{main, deliver}
use amqp_cpp_asio.Programs.Receiver as Receiver
use amqp_cpp_asio.Programs.Receiver.Listening.{Called}
use amqp_cpp_asio.Programs.Receiver.Main.{main-Called}
use amqp_cpp_asio.Client.Refusing.{refusals}
use amqp_cpp_asio.Programs.Receiver.Receiving.{received, deliver-send_json}

abbrev texts : RapidJson
texts = record { Document = String; null = ""; parse = λ s. some s; write = λ s. s }

main-Reports_example :
    Returns
      (Either (λ up. Stopped (report texts "[1]" up []) (messages texts "[1]" up [])))
      (connected service finished (on_started texts service "[1]") begun)
main-Reports_example = main-Reports texts "[1]" service service-Serves 2 begun main-some

deliver-send_json_example :
    (m : Envelope) × (send_json texts "[1]" "incoming" false listening
      ≡ some (call listening (publish "exchange" "incoming" m []), true))
    × (deliver texts
          (λ j. j)
          (record { message = m; delivery_tag = 7; redelivered = false })
          (listening, record { acknowledged = []; output = [] })
        ≡ (
          call listening
              (message_callback (record { message = m; delivery_tag = 7; redelivered = false })),
          received texts (λ j. j) 7 "[1]" "[1]" (record { acknowledged = []; output = [] }),
        ))
deliver-send_json_example =
    deliver-send_json texts (λ j. j) (λ j. refl) "[1]" "incoming" false listening listening-IsValid
      refl listening refl refl 7 false (record { acknowledged = []; output = [] })

main-Called_example : Returns (Called service (λ c. true)) (
    run_events service finished
      (Receiver.on_started service)
      (λ c. true)
      (refusals (true ∷ []))
      main)
main-Called_example = main-Called service (λ c. true) service-Serves (true ∷ [])

-- The first connection is refused, the second one made and lost again, and then the program is stopped.
abbrev history : List Event
history =
    shuts false
    ∷ timer false
    ∷ connects
    ∷ shuts true
    ∷ timer false
    ∷ connects
    ∷ stops
    ∷ finishes
    ∷ []

run_events-Keeps_example :
    Keeps
      (HasLink 1)
      (run_events service finished (Receiver.on_started service) (λ c. false) history main)
run_events-Keeps_example =
    run_events-Keeps service finished 1 service-MayCome (Receiver.on_started service)
      (on_started-Keeps service service-MayCome) (λ c. false) history main main-HasLink

main-Keeps_example :
    Keeps
      (HasLink 1)
      (run_events service finished (on_started texts service "[1]") (λ c. false) history begun)
main-Keeps_example =
    main-Keeps texts service "[1]" service-MayCome (λ c. false) 2 begun history main-some

run_events-Owns_example :
    Keeps
      (Owns (some (original 0)))
      (run_events service finished (Receiver.on_started service) (λ c. false) history main)
run_events-Owns_example =
    run_events-Owns service finished (some (original 0)) service-MayCome
      (Receiver.on_started service) (on_started-Owns service service-MayCome (some (original 0)))
      (λ c. false) history main
      (later-MayRun service finished (Receiver.on_started service) (λ c. false) history
        (tt, (tt, (tt, (tt, (tt, (tt, (tt, (tt, tt)))))))) main)
      main-Owns
