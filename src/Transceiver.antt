-- ===== src/Transceiver.antt =====
-- The data of class Transceiver (src/AmqpTransceiver.hpp): its states, exit codes and members, and
-- the calls that it makes on AMQP-CPP and on the application.
pub mod Machine
pub mod Replies
pub mod Control
pub mod Invariant
pub mod Diagram
pub mod Runs
pub mod Progress
pub mod Late
pub mod Bounds
pub mod Leaving
pub mod Protocol
pub mod Sending
pub mod Publishing
pub mod Printing
pub mod Receiving
pub mod Tests
mod Examples
use mathlib.Core.Int.{ℤ}
use amqp_cpp_asio.Base.{
  ℕ, String, Bool, true, false, Option, none, List, [], ◌∷◌, is_empty, if◌then◌else◌,
}

-- `Transceiver::State`; `max` is the end marker `eMax`.
pub data State : Type 0 where
  create_channel check_queue recreate_channel create_exchange create_queue bind_queue : State
  create_consumer ready shutdown unbind_queue remove_queue close_channel end max : State

-- `Transceiver::ExitCode`.
pub data ExitCode : Type 0 where
  no_error create_channel_error create_exchange_error create_queue_error bind_queue_error : ExitCode
  create_consumer_error consumer_cancel_error unbind_queue_error remove_queue_error : ExitCode
  close_channel_error channel_abruptly_closed_error dropped : ExitCode

-- The flag constants of AMQP-CPP that the code names. Their values are not part of this program:
-- an `int` of flags is the list of the constants that were added up.
pub data Flag : Type 0 where
  autodelete durable exclusive passive mandatory : Flag

-- The error handlers that the code registers on a channel by `AMQP::Channel::onError`.
pub data ErrorHandler : Type 0 where
  on_create_error on_recreate_error on_ready_error on_unbind_error on_remove_error : ErrorHandler

-- A channel object: the connection that it was made on and its `onError` slot.
pub record Channel : Type 0 where
  pub connection : ℕ
  pub on_error : Option ErrorHandler

-- A message handed to `AMQP::Channel::publish`.
pub record Envelope : Type 0 where
  pub body : String
  pub content_type : String
  pub content_encoding : String

-- A delivered message, with the delivery tag and the flag that come with it.
pub record Delivery : Type 0 where
  pub message : Envelope
  pub delivery_tag : ℕ
  pub redelivered : Bool

-- What the code calls outside the class: the operations of an AMQP channel, and the callbacks.
pub data Call : Type 0 where
  new_channel : ℕ → Call
  declare_queue : String → List Flag → Call
  declare_exchange : String → List Flag → Call
  bind : String → String → String → Call
  consume : String → Call
  cancel : String → Call
  unbind : String → String → String → Call
  remove : String → Call
  close : Call
  publish : String → String → Envelope → List Flag → Call
  exit_callback : ExitCode → Call
  message_callback : Delivery → Call
  default_handler : Delivery → Call
  bounce_callback : Envelope → ℤ → String → Call

-- The members of a Transceiver. A pointer to a connection is a number, its identity; of a
-- `std::function` member it is kept whether it is set. `calls` lists the calls made, newest first.
pub record Transceiver : Type 0 where
  pub state : State
  pub connection : Option ℕ
  pub exchange : String
  pub queue : String
  pub recv_queue : String
  pub route_in : String
  pub consumer_tag : String
  pub listener : Bool
  pub queue_exist : Bool
  pub q_flags : List Flag
  pub on_bounce_message : Bool
  pub on_message : Bool
  pub on_exit : Bool
  pub channel : Option Channel
  pub error : String
  pub ec : ExitCode
  pub calls : List Call

-- `Transceiver::ExchangeCreationFlags`.
abbrev pub exchange_creation_flags : List Flag
exchange_creation_flags = autodelete ∷ durable ∷ []

-- The constructor: a queue with no name is exclusive.
unfoldable pub new : String → String → String → Bool → Transceiver
new exchange queue route_in listener = record {
  state = end;
  connection = none;
  exchange = exchange;
  queue = queue;
  recv_queue = "";
  route_in = route_in;
  consumer_tag = "";
  listener = listener;
  queue_exist = false;
  q_flags = if is_empty queue then exclusive ∷ [] else [];
  on_bounce_message = false;
  on_message = false;
  on_exit = false;
  channel = none;
  error = "";
  ec = no_error;
  calls = [];
}

abbrev is_end : State → Bool
is_end end = true
is_end _ = false

abbrev pub is_running_state : State → Bool
is_running_state end = false
is_running_state _ = true

abbrev is_ready_state : State → Bool
is_ready_state ready = true
is_ready_state _ = false

-- The value of a state in the enumeration.
abbrev pub index : State → ℕ
index create_channel = 0
index check_queue = 1
index recreate_channel = 2
index create_exchange = 3
index create_queue = 4
index bind_queue = 5
index create_consumer = 6
index ready = 7
index shutdown = 8
index unbind_queue = 9
index remove_queue = 10
index close_channel = 11
index end = 12
index max = 13

-- `is_running()` and `ready()`.
abbrev pub is_running : Transceiver → Bool
is_running t = is_running_state t.state

abbrev pub is_ready : Transceiver → Bool
is_ready t = is_ready_state t.state

-- A call of the code either returns, with the members that it leaves, or follows a null pointer.
pub data Outcome : Type 0 where
  done : Transceiver → Outcome
  fault : Outcome

-- A statement about the members that a call leaves, which includes that the call returns.
abbrev pub After : (Transceiver → Type 0) → Outcome → Type 0
After P (done t) = P t
After P fault = ⊥

pub After-and :
    (P Q : Transceiver → Type 0) (o : Outcome) → After P o → After Q o → After (λ t. P t × Q t) o
After-and P Q (done t) a b = (a, b)
After-and P Q fault a b = absurd a

pub After-map :
    (P Q : Transceiver → Type 0)
    → ((t : Transceiver) → P t → Q t)
    → (o : Outcome) → After P o
    → After Q o
After-map P Q f (done t) h = f t h
After-map P Q f fault h = absurd h
