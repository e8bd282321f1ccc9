-- ===== src/Programs/Sender/Main.antt =====
-- The whole of examples/sender.cpp.
use amqp_cpp_asio.Base.{ℕ, String, ◌≡◌, refl, subst, false, some, [], arith}
use amqp_cpp_asio.Transceiver.{new}
use amqp_cpp_asio.Connector.Machine.{Connector}
use amqp_cpp_asio.Connector.Service.{Delivery}
use amqp_cpp_asio.Connector.Service.Rounds.{Serves}
use amqp_cpp_asio.Client.{start, Client}
use amqp_cpp_asio.AutoReconnect as AutoReconnect
use amqp_cpp_asio.Client.Callbacks.{Returns}
use amqp_cpp_asio.Programs.{made, finished, exchange_name}
use amqp_cpp_asio.JsonConverter.{RapidJson}
use amqp_cpp_asio.AutoReconnect.{AutoReconnect, started_callback, run_connector}
use amqp_cpp_asio.Client.{connected}
use amqp_cpp_asio.Programs.Sender.{main, on_started}
use amqp_cpp_asio.Programs.Sender.Running.{Either}
use amqp_cpp_asio.Programs.Sender.Stopping.{Stopped}
use amqp_cpp_asio.Transceiver.Invariant.{new-IsValid}
use amqp_cpp_asio.Programs.Sender.Reporting.{IsDue, report, messages, started-Reports}

-- The client of `main` with one argument.
abbrev pub begun : Client
begun = start (made "" false)

begun-IsDue : IsDue [] begun
unfolding start new AutoReconnect.start
begun-IsDue = record {
  begins = record {
    watching = record { is_started = refl; watched = refl };
    wanted = refl;
    callback = 0;
    due = refl;
    staying = refl;
    telling = refl;
    telling_started = refl;
  };
  unrefused = refl;
  only = new exchange_name "" "" false;
  alone = refl;
  valid = new-IsValid exchange_name "" "" false;
  idle = refl;
  sent = refl;
  named = refl;
}

pub main-some : main 2 ≡ some begun
unfolding main
main-some = refl

main-begun : (argc : ℕ) (s : Client) → main argc ≡ some s → begun ≡ s
unfolding main
main-begun argc s e = ground arith

module _ (r : RapidJson) (content : String) (loop : Connector → Delivery)
    (serves : Serves loop) where
  -- If the event loop, while a transceiver waits, delivers an answer to a request that one of
  -- them waits for, or the end of the connection by an error of AMQP-CPP, then in
  -- examples/sender.cpp, where main has not failed and the first attempt to connect succeeds,
  -- onConnected returns, with the started callback in it, and what is printed agrees with what
  -- is published: either both the text and, if the content is one, the JSON document are
  -- published and reported as sent, or nothing is published and each is reported as not sent;
  -- the wrapper is stopped, and its connector is told to stop or has no connection
  pub main-Reports :
      (argc : ℕ) (s : Client)
      → main argc ≡ some s
      → Returns
          (Either (λ up. Stopped (report r content up []) (messages r content up [])))
          (connected loop finished (on_started r loop content) s)
  unfolding start
  main-Reports argc s e =
      subst
        (λ t.
          Returns (Either (λ up. Stopped (report r content up []) (messages r content up [])))
            (connected loop finished (on_started r loop content) t))
        (main-begun argc s e) (started-Reports r content loop serves [] begun begun-IsDue)
