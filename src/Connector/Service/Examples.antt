-- ===== src/Connector/Service/Examples.antt =====
-- The theorems on the loops of a connector, with an event loop that answers the first transceiver that
-- waits, and loses the connection when none does, and with one that
-- has nothing to call.
use amqp_cpp_asio.Base.{
  some, suc, ◌≡◌, refl, true, false, Bool-cases, inl, inr, List, [], ◌∷◌, All, arith, if◌then◌else◌,
  length,
}
use amqp_cpp_asio.Transceiver.{Transceiver, Outcome, create_channel, is_running}
use amqp_cpp_asio.Transceiver.Tests.{checking, idle, idle-IsValid}
use amqp_cpp_asio.Transceiver.Replies.{channel_ready, handle}
use amqp_cpp_asio.Transceiver.Invariant.{IsValid}
use amqp_cpp_asio.Transceiver.Progress.{is_waiting, answers-Timely}
use amqp_cpp_asio.Connector.Machine.{Connector, disconnected}
use amqp_cpp_asio.Connector.Shutdown.{Gives, ending}
use amqp_cpp_asio.Connector.Waiting.{Opened}
use amqp_cpp_asio.Connector.Examples.{prompt, prompt-Serves}
use amqp_cpp_asio.Connector.Scenarios.{in_use, in_use-IsLinked}
use amqp_cpp_asio.Connector.Service.{
  Delivery, replies, loses, run, stop, update_at, run_one, wait_at, exhausted, posted,
}
use amqp_cpp_asio.Connector.Service.Breaking.{Closed, lost-normal}
use amqp_cpp_asio.Connector.Service.Losing.{IsSilent, lost-waits}
use amqp_cpp_asio.Connector.Service.Rounds.{any, is_apt, Serves}
use amqp_cpp_asio.Connector.Service.Returning.{Returns}
use amqp_cpp_asio.Connector.Service.Settling.{IsServed}
use amqp_cpp_asio.Connector.Service.Leading.{Comes, MayCome}
use amqp_cpp_asio.Connector.Service.Resting.{run-Opened}
use amqp_cpp_asio.Connector.Service.Closing.{Goodbye, stop-Goodbye}

abbrev shift : Delivery → Delivery
shift (replies i r) = replies (suc i) r
shift (loses error) = loses error

abbrev answer_first : List Transceiver → Delivery
answer_first [] = loses true
answer_first (t ∷ ts) = if is_waiting t then replies 0 (prompt t) else shift (answer_first ts)

abbrev pub service : Connector → Delivery
service c = answer_first c.transceivers

shift-apt :
    (d : Delivery) (t : Transceiver) (ts : List Transceiver)
    → is_apt d ts ≡ true
    → is_apt (shift d) (t ∷ ts) ≡ true
shift-apt (replies i r) t ts a = a
shift-apt (loses error) t ts a = a

answer_first-apt :
    (ts : List Transceiver)
    → All IsValid ts
    → any is_waiting ts ≡ true
    → is_apt (answer_first ts) ts ≡ true
answer_first-apt [] v e = cc
answer_first-apt (t ∷ ts) (v, vs) e = elim (Bool-cases (is_waiting t)) [
  | inl y ↦ rw y (prompt-Serves t v y)
  | inr k ↦ rw k (shift-apt (answer_first ts) t ts (answer_first-apt ts vs (ground (arith, k))))
]

pub service-Serves : Serves service
service-Serves c v e = answer_first-apt c.transceivers v.valid e

-- The event loop delivers a reply only where it may come.
shift-Comes :
    (d : Delivery) (t : Transceiver) (ts : List Transceiver) → Comes d ts → Comes (shift d) (t ∷ ts)
shift-Comes (replies i r) t ts c = c
shift-Comes (loses error) t ts c = tt

answer_first-Comes : (ts : List Transceiver) → All IsValid ts → Comes (answer_first ts) ts
answer_first-Comes [] v = tt
answer_first-Comes (t ∷ ts) (v, vs) = elim (Bool-cases (is_waiting t)) [
  | inl y ↦ rw y (answers-Timely (prompt t) t v (prompt-Serves t v y))
  | inr k ↦ rw k (shift-Comes (answer_first ts) t ts (answer_first-Comes ts vs))
]

pub service-MayCome : MayCome service
service-MayCome c v = answer_first-Comes c.transceivers v.valid

run-Opened_example :
    Returns
      (λ u. IsServed in_use u × All (λ t. IsValid t × Opened t) u.transceivers)
      (run service in_use)
run-Opened_example =
    run-Opened service service-Serves in_use in_use-IsLinked refl refl (refl, (refl, tt))

stop-Goodbye_example : Returns (Goodbye (ending in_use) false) (stop service (λ c. false) in_use)
stop-Goodbye_example =
    stop-Goodbye service service-Serves (λ c. false) false in_use in_use-IsLinked refl refl
      ((λ e. cc), ((λ e. cc), tt))

-- An event loop with nothing to call for the connector: a reply at the place after its last transceiver.
abbrev silence : Connector → Delivery
silence c = replies (length c.transceivers) channel_ready

update_at-length :
    (f : Transceiver → Outcome) (ts : List Transceiver) → update_at f (length ts) ts ≡ some ts
update_at-length f [] = refl
update_at-length f (t ∷ ts) = rw (update_at-length f ts) refl

silence-IsSilent : IsSilent silence
unfolding run_one
silence-IsSilent c = rw (update_at-length (handle channel_ready) c.transceivers) refl

lost-waits_example :
    Gives (λ u. wait_at is_running silence 0 1000 u ≡ exhausted) (disconnected false in_use)
lost-waits_example =
    lost-waits silence silence-IsSilent 0 1000 in_use in_use-IsLinked refl refl refl

-- A transceiver that waits for its channel, and one that does not run.
abbrev opening : Transceiver
opening = record checking { state = create_channel }

opening-IsValid : IsValid opening
opening-IsValid = ground arith

abbrev beginning : Connector
beginning = record in_use { transceivers = opening ∷ idle ∷ [] }

lost-normal_example :
    Gives
      (λ u. Returns (Closed silence beginning) (posted silence (λ x. true) u))
      (disconnected false beginning)
lost-normal_example =
    lost-normal silence beginning
      (record { valid = (opening-IsValid, (idle-IsValid, tt)); linked = refl }) refl refl
      (refl, (refl, tt))
