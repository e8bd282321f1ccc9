-- ===== src/Transceiver/Diagram.antt =====
-- The state diagram in the comment of class Transceiver (src/AmqpTransceiver.hpp), with its edges' labels,
-- and the edges that `StopTransit` (src/AmqpTransceiver.cpp) adds.
use amqp_cpp_asio.Base.{
  ℕ, zero, suc, ◌≡◌, true, false, Option, none, some, is_empty, is_set, if◌then◌else◌, arith,
}
use text.Mathlib.Text.{◌==◌ as str_eq}
use amqp_cpp_asio.Transceiver.{
  State, create_channel, check_queue, recreate_channel, create_exchange, create_queue, bind_queue,
  create_consumer, ready, shutdown, unbind_queue, remove_queue, close_channel, end, is_running,
  Transceiver, After,
}
use amqp_cpp_asio.Transceiver.Replies.{
  Reply, handle, channel_ready, channel_error, check_success, check_error, recreate_ready,
  recreate_error, exchange_success, exchange_error, queue_success, queue_error, bind_success,
  bind_error, consume_success, consume_error, ready_error, cancel_success, cancel_error,
  unbind_channel_error, unbind_success, unbind_error, remove_channel_error, remove_success,
  remove_error, close_success, close_error,
}
use amqp_cpp_asio.Transceiver.Control.{start, stop, is_starting, stop_transit}
use amqp_cpp_asio.Transceiver.Invariant.{IsValid, Timely}

-- The labels: the broker does what a state asks for, or it fails, or the state has nothing to ask for.
pub data Label : Type 0 where
  success fail at_once : Label

-- The diagram's edges, in its order, with what their labels say of the members.
abbrev pub edge : Label → Transceiver → State → Option State
edge success t create_channel = some (if t.listener then check_queue else create_exchange)
edge fail t create_channel = some end
edge at_once t create_channel = if is_set t.connection then none else some end
edge at_once t check_queue = if is_empty t.queue then some create_exchange else none
edge success t check_queue = some create_exchange
edge fail t check_queue = some recreate_channel
edge success t recreate_channel = some create_exchange
edge fail t recreate_channel = some end
edge success t create_exchange = some (if t.listener then create_queue else ready)
edge fail t create_exchange = some close_channel
edge at_once t create_queue = if t.queue_exist then some bind_queue else none
edge success t create_queue = some bind_queue
edge fail t create_queue = some close_channel
edge success t bind_queue = some create_consumer
edge fail t bind_queue = some remove_queue
edge success t create_consumer = some ready
edge fail t create_consumer = some unbind_queue
edge fail t ready = some end
edge at_once t shutdown =
    if t.listener
    then (if is_empty t.consumer_tag then some unbind_queue else none)
    else some close_channel
edge success t shutdown = some unbind_queue
edge fail t shutdown = some unbind_queue
edge at_once t unbind_queue = if is_empty t.recv_queue then some close_channel else none
edge success t unbind_queue = some close_channel
edge fail t unbind_queue = some end
edge at_once t remove_queue = if t.queue_exist then some close_channel else none
edge success t remove_queue = some close_channel
edge fail t remove_queue = some end
edge success t close_channel = some end
edge fail t close_channel = some end
edge _ t s = none

-- The edges that are taken at once, up to `n` of them.
abbrev pub hurry : ℕ → Transceiver → State → State
hurry zero t s = s
hurry (suc n) t s = elim (edge at_once t s) [ none ↦ s | some u ↦ hurry n t u ]

-- What a reply says of the request of a state, if it says that it is done or has failed. A channel that
-- replaces another one is only the first part of an unbind or a removal.
abbrev pub verdict : State → Reply → Transceiver → Option Label
verdict create_channel channel_ready t = some success
verdict create_channel (channel_error m) t = some fail
verdict check_queue (check_success name) t = some success
verdict check_queue (check_error m) t = some fail
verdict recreate_channel recreate_ready t = some success
verdict recreate_channel (recreate_error m) t = some fail
verdict create_exchange exchange_success t = some success
verdict create_exchange (exchange_error m) t = some fail
verdict create_queue (queue_success name) t = some success
verdict create_queue (queue_error m) t = some fail
verdict bind_queue bind_success t = some success
verdict bind_queue (bind_error m) t = some fail
verdict create_consumer (consume_success tag) t = some success
verdict create_consumer (consume_error m) t = some fail
verdict ready (consume_error m) t = some fail
verdict ready (ready_error m) t = some fail
verdict shutdown (cancel_success consumer) t =
    if str_eq t.consumer_tag consumer then some success else none
verdict shutdown (cancel_error m) t = some fail
verdict unbind_queue (unbind_channel_error m) t = some fail
verdict unbind_queue unbind_success t = some success
verdict unbind_queue (unbind_error m) t = some fail
verdict remove_queue (remove_channel_error m) t = some fail
verdict remove_queue remove_success t = some success
verdict remove_queue (remove_error m) t = some fail
verdict close_channel close_success t = some success
verdict close_channel (close_error m) t = some fail
verdict close_channel (ready_error m) t = some fail
verdict s r t = none

-- From a state by the edge with a label, and then on to a state that is not left at once.
abbrev pub Takes : Option Label → State → Transceiver → Type 0
Takes none s u = u.state ≡ s
Takes (some label) s u = elim (edge label u s) [
  | none ↦ ⊥
  | some v ↦ (u.state ≡ hurry 2 u v) × (edge at_once u u.state ≡ none)
]

-- Where the reply leads from a state.
abbrev pub Follows : Reply → Transceiver → Transceiver → Type 0
Follows r t u = Takes (verdict t.state r t) t.state u

-- A reply that comes where it may come takes a valid transceiver from its state by the one edge
-- of the documented state diagram that has the label of what the reply says, success or fail,
-- under the conditions of the label, and then by every edge whose label says that nothing is
-- asked for, to a state that has no such edge; a reply that is no verdict on the request of the
-- state leaves it
pub handle-Follows :
    (r : Reply) (t : Transceiver) → IsValid t → Timely r t → After (Follows r t) (handle r t)
unfolding handle
handle-Follows channel_ready t v h = ground arith
handle-Follows r t v h = ground arith

-- In a state of the diagram, and on to one that is not left at once.
abbrev Enters : State → Transceiver → Type 0
Enters s u = (u.state ≡ hurry 2 u s) × (edge at_once u u.state ≡ none)

-- `start` enters the diagram at `create_channel`.
start-Enters :
    (c : Option ℕ) (t : Transceiver)
    → IsValid t
    → is_running t ≡ false
    → After (Enters create_channel) (start c t)
unfolding start
start-Enters c t v e = ground arith

-- `stop` enters it at the state that `StopTransit` gives for the state of a start.
stop-Enters :
    (t : Transceiver)
    → IsValid t
    → is_starting t.state ≡ true
    → After (Enters (stop_transit t.state)) (stop t)
unfolding stop
stop-Enters t v e = ground arith
