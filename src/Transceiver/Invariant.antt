-- ===== src/Transceiver/Invariant.antt =====
-- What holds of a Transceiver between two events, and what is assumed of the replies of AMQP-CPP.
use amqp_cpp_asio.Base.{
  ℕ, String, ◌≡◌, ◌≢◌, Bool, true, false, Option, none, some, arith, is_empty, is_set,
}
use amqp_cpp_asio.Transceiver.{
  State, check_queue, recreate_channel, create_queue, bind_queue, create_consumer, ready, shutdown,
  unbind_queue, remove_queue, close_channel, max, no_error, on_ready_error, ErrorHandler, Channel,
  Transceiver, new, is_running, After,
}
use amqp_cpp_asio.Transceiver.Replies.{
  Reply, check_success, queue_success, ready_error, cancel_success, cancel_error, unbind_success,
  unbind_error, remove_success, remove_error, close_success, close_error, handle,
}
use amqp_cpp_asio.Transceiver.Control.{is_starting, start, stop, drop}

-- The states that only a listener is in.
abbrev pub is_listening : State → Bool
is_listening check_queue = true
is_listening recreate_channel = true
is_listening create_queue = true
is_listening bind_queue = true
is_listening create_consumer = true
is_listening shutdown = true
is_listening unbind_queue = true
is_listening remove_queue = true
is_listening _ = false

-- The states in which the broker has told the name of the queue.
abbrev pub has_queue : State → Bool
has_queue bind_queue = true
has_queue create_consumer = true
has_queue unbind_queue = true
has_queue remove_queue = true
has_queue _ = false

-- The states in which a listener still has the queue that it consumes from.
abbrev pub is_subscribed : State → Bool
is_subscribed ready = true
is_subscribed shutdown = true
is_subscribed _ = false

-- The states in which the handler that `eReady` registers on the channel may still be there.
abbrev pub is_published : State → Bool
is_published ready = true
is_published close_channel = true
is_published _ = false

abbrev pub handler_of : Option Channel → Option ErrorHandler
handler_of none = none
handler_of (some c) = c.on_error

-- The channel was made on the current connection.
abbrev pub OnConnection : Option ℕ → Option Channel → Type 0
OnConnection c none = Unit {0}
OnConnection c (some channel) = c ≡ some channel.connection

pub record IsValid (t : Transceiver) : Type 0 where
  pub no_max : t.state ≢ max
  pub attached : is_running t ≡ true → (is_set t.connection ≡ true) × (is_set t.channel ≡ true)
  pub idle :
      is_running t ≡ false
      → (t.connection ≡ none)
        × (t.channel ≡ none)
        × (t.recv_queue ≡ "")
        × (t.consumer_tag ≡ "")
        × (t.queue_exist ≡ false)
  pub same_connection : OnConnection t.connection t.channel
  pub listening : is_listening t.state ≡ true → t.listener ≡ true
  pub named : has_queue t.state ≡ true → is_empty t.recv_queue ≡ false
  pub subscribed : is_subscribed t.state ≡ true → t.listener ≡ true → is_empty t.recv_queue ≡ false
  pub existing :
      t.queue_exist ≡ true
      → (t.listener ≡ true) × (is_empty t.queue ≡ false) × (is_empty t.recv_queue ≡ false)
  pub checking : t.state ≡ check_queue → is_empty t.queue ≡ false
  pub published :
      handler_of t.channel ≡ some on_ready_error
      → (is_published t.state ≡ true) × (t.listener ≡ false)
  pub removing : t.state ≡ remove_queue → t.queue_exist ≡ false
  pub starts_clean : is_starting t.state ≡ true → (t.ec ≡ no_error) × (t.error ≡ "")
  pub silent : t.ec ≡ no_error → t.error ≡ ""

-- What the code relies on, of a reply. The broker tells a queue by a name that is not empty. A
-- handler that does not look at the state is called only while the request that it answers is the
-- current one, and the `onError` handler of a channel only while it is registered.
abbrev pub Timely : Reply → Transceiver → Type 0
Timely (check_success name) t = is_empty name ≡ false
Timely (queue_success name) t = is_empty name ≡ false
Timely (ready_error m) t = handler_of t.channel ≡ some on_ready_error
Timely (cancel_success c) t = (t.state ≡ shutdown) × (t.listener ≡ true)
Timely (cancel_error m) t = (t.state ≡ shutdown) × (t.listener ≡ true)
Timely unbind_success t = t.state ≡ unbind_queue
Timely (unbind_error m) t = t.state ≡ unbind_queue
Timely remove_success t = t.state ≡ remove_queue
Timely (remove_error m) t = t.state ≡ remove_queue
Timely close_success t = t.state ≡ close_channel
Timely (close_error m) t = t.state ≡ close_channel
Timely _ t = Unit {0}

pub new-IsValid : (exchange queue route : String) (l : Bool) → IsValid (new exchange queue route l)
unfolding new
new-IsValid exchange queue route l = ground arith

pub start-IsValid : (c : Option ℕ) (t : Transceiver) → IsValid t → After IsValid (start c t)
unfolding start
start-IsValid c t v = ground arith

pub stop-IsValid : (t : Transceiver) → IsValid t → After IsValid (stop t)
unfolding stop
stop-IsValid t v = ground arith

pub drop-IsValid : (t : Transceiver) → IsValid t → After IsValid (drop t)
unfolding drop
drop-IsValid t v = ground arith

pub handle-IsValid :
    (r : Reply) (t : Transceiver) → Timely r t → IsValid t → After IsValid (handle r t)
unfolding handle
handle-IsValid (check_success name) t h v = ground arith
handle-IsValid r t h v = ground arith
