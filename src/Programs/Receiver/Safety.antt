-- ===== src/Programs/Receiver/Safety.antt =====
-- What the started callback of examples/receiver.cpp keeps: no null pointer is followed, and the exit
-- callback of the program stays its own.
use amqp_cpp_asio.Base.{refl, arith, some, Option}
use amqp_cpp_asio.Transceiver.{new}
use amqp_cpp_asio.Transceiver.Control.{on_message}
use amqp_cpp_asio.AutoReconnect as AutoReconnect
use amqp_cpp_asio.Connector.Machine.{Connector}
use amqp_cpp_asio.Connector.Service.{Delivery}
use amqp_cpp_asio.Connector.Service.Leading.{MayCome}
use amqp_cpp_asio.Client.{run_link, start, returns}
use amqp_cpp_asio.Client.Safety.{run_link-Keeps}
use amqp_cpp_asio.Client.Keeping.{Keeps-and_then, HasLink, IsSafe}
use amqp_cpp_asio.AutoReconnect.{ExitCallback, original}
use amqp_cpp_asio.Client.Backing.{Owns, IsOwner, run_link-Owns}
use amqp_cpp_asio.Programs.{finished, print}
use amqp_cpp_asio.Programs.Receiver.{main, on_started}

pub main-HasLink : HasLink 1 main
unfolding main start AutoReconnect.start on_message new
main-HasLink = (record { valid = (ground arith, tt); linked = refl }, refl)

pub main-Owns : Owns (some (original 0)) main
unfolding main start AutoReconnect.start
main-Owns = (
  record { linked = main-HasLink.0; telling = refl; starting = refl },
  (record { backup_original = tt; watched = λ e. refl }, refl),
)

module _ (loop : Connector → Delivery) (comes : MayCome loop) where
  pub on_started-Keeps : IsSafe 1 (on_started loop)
  unfolding on_started
  on_started-Keeps s v =
      Keeps-and_then (HasLink 1) (HasLink 1) (λ t. returns (print "AMQP client started" t))
        (run_link loop finished s) (λ t w. w) (run_link-Keeps loop finished 1 comes s v)

  pub on_started-Owns : (callback : Option ExitCallback) → IsOwner callback (on_started loop)
  unfolding on_started
  on_started-Owns callback s o =
      Keeps-and_then (Owns callback) (Owns callback) (λ t. returns (print "AMQP client started" t))
        (run_link loop finished s)
        (λ t p.
          (record { linked = p.0.linked; telling = p.0.telling; starting = p.0.starting }, p.1))
        (run_link-Owns loop finished callback comes s o)
