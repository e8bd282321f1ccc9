-- ===== src/Transceiver/Progress.antt =====
-- How far a Transceiver is from its rest: which replies answer the request that it has made last, and
-- how many are still to come at most.
use amqp_cpp_asio.Base.{
  ℕ, ◌≡◌, ◌≤◌, ◌<◌, ◌&&◌, ◌||◌, not, Bool, true, false, arith, is_empty, is_set, if◌then◌else◌,
}
use text.Mathlib.Text.{◌==◌ as str_eq}
use amqp_cpp_asio.Transceiver.{
  State, create_channel, check_queue, recreate_channel, create_exchange, create_queue, bind_queue,
  create_consumer, shutdown, unbind_queue, remove_queue, close_channel, ExitCode, no_error,
  Transceiver, After, is_running, is_ready,
}
use amqp_cpp_asio.Transceiver.Replies.{
  Reply, channel_ready, exchange_success, recreate_ready, bind_success, ready_error, channel_error,
  check_error, recreate_error, exchange_error, queue_error, check_success, queue_success,
  consume_success, cancel_success, bind_error, consume_error, cancel_error, unbind_channel_ready,
  unbind_success, remove_channel_ready, remove_success, close_success, unbind_channel_error,
  unbind_error, remove_channel_error, remove_error, close_error, handle,
}
use amqp_cpp_asio.Transceiver.Control.{is_starting}
use amqp_cpp_asio.Transceiver.Invariant.{IsValid, Timely, handler_of, handle-IsValid}

-- Whether a new channel is still waited for, before the request is made on it.
abbrev pub is_opening : Transceiver → Bool
is_opening t = is_set (handler_of t.channel)

-- The reply answers the request that the state has made last.
abbrev pub answers_in : State → Reply → Transceiver → Bool
answers_in create_channel channel_ready t = true
answers_in create_channel (channel_error m) t = true
answers_in check_queue (check_success name) t = not (is_empty name)
answers_in check_queue (check_error m) t = true
answers_in recreate_channel recreate_ready t = true
answers_in recreate_channel (recreate_error m) t = true
answers_in create_exchange exchange_success t = true
answers_in create_exchange (exchange_error m) t = true
answers_in create_queue (queue_success name) t = not (is_empty name)
answers_in create_queue (queue_error m) t = true
answers_in bind_queue bind_success t = true
answers_in bind_queue (bind_error m) t = true
answers_in create_consumer (consume_success tag) t = true
answers_in create_consumer (consume_error m) t = true
answers_in shutdown (cancel_success tag) t = str_eq t.consumer_tag tag
answers_in shutdown (cancel_error m) t = true
answers_in unbind_queue unbind_channel_ready t = is_opening t
answers_in unbind_queue (unbind_channel_error m) t = is_opening t
answers_in unbind_queue unbind_success t = not (is_opening t)
answers_in unbind_queue (unbind_error m) t = not (is_opening t)
answers_in remove_queue remove_channel_ready t = is_opening t
answers_in remove_queue (remove_channel_error m) t = is_opening t
answers_in remove_queue remove_success t = not (is_opening t)
answers_in remove_queue (remove_error m) t = not (is_opening t)
answers_in close_channel close_success t = true
answers_in close_channel (close_error m) t = true
answers_in _ _ t = false

abbrev pub answers : Transceiver → Reply → Bool
answers t r = answers_in t.state r t

-- A request that is waited for: the machine neither ended nor is at rest in `ready`.
abbrev pub is_waiting : Transceiver → Bool
is_waiting t = is_running t && not (is_ready t)

-- How many replies are still to come, at most.
abbrev pub rank_in : State → Bool → ℕ
rank_in create_channel _ = 11
rank_in check_queue _ = 10
rank_in recreate_channel _ = 9
rank_in create_exchange _ = 8
rank_in create_queue _ = 7
rank_in bind_queue _ = 6
rank_in create_consumer _ = 5
rank_in shutdown _ = 4
rank_in unbind_queue opening = if opening then 3 else 2
rank_in remove_queue opening = if opening then 3 else 2
rank_in close_channel _ = 1
rank_in _ _ = 0

abbrev pub rank : Transceiver → ℕ
rank t = rank_in t.state (is_opening t)

-- The codes that report an error.
abbrev pub is_error : ExitCode → Bool
is_error no_error = false
is_error _ = true

-- A failure has been recorded, if the machine is past its start.
abbrev pub is_blamed : Transceiver → Bool
is_blamed t = is_starting t.state || is_error t.ec

-- The replies by which the broker does what is asked; that a queue does not exist yet is no refusal.
abbrev pub agrees : Reply → Bool
agrees (ready_error m) = false
agrees (channel_error m) = false
agrees (recreate_error m) = false
agrees (exchange_error m) = false
agrees (queue_error m) = false
agrees (bind_error m) = false
agrees (consume_error m) = false
agrees _ = true

-- While a reply is waited for, the machine is not at rest.
pub waiting-rank : (t : Transceiver) → IsValid t → is_waiting t ≡ true → 0 < rank t
waiting-rank t v h = ground arith

-- An answer to the pending request is one of the replies that may come.
pub answers-Timely : (r : Reply) (t : Transceiver) → IsValid t → answers t r ≡ true → Timely r t
answers-Timely channel_ready t v h = ground arith
answers-Timely r t v h = ground arith

pub answers-IsValid :
    (r : Reply) (t : Transceiver) → IsValid t → answers t r ≡ true → After IsValid (handle r t)
answers-IsValid r t v a = handle-IsValid r t (answers-Timely r t v a) v

-- Only a request that is waited for is answered.
pub answers-waiting : (r : Reply) (t : Transceiver) → answers t r ≡ true → is_waiting t ≡ true
answers-waiting channel_ready t h = ground arith
answers-waiting r t h = ground arith

-- Every answer brings the machine nearer to its rest.
pub answers-rank :
    (r : Reply) (t : Transceiver)
    → IsValid t
    → answers t r ≡ true
    → After (λ u. rank u < rank t) (handle r t)
unfolding handle
answers-rank channel_ready t v h = ground arith
answers-rank r t v h = ground arith

pub answers-blamed :
    (r : Reply) (t : Transceiver)
    → IsValid t
    → answers t r ≡ true
    → is_blamed t ≡ true
    → After (λ u. is_blamed u ≡ true) (handle r t)
unfolding handle
answers-blamed channel_ready t v h b = ground arith
answers-blamed r t v h b = ground arith

pub answers-starting :
    (r : Reply) (t : Transceiver)
    → IsValid t
    → answers t r ≡ true
    → agrees r ≡ true
    → is_starting t.state ≡ true
    → After (λ u. is_starting u.state ≡ true) (handle r t)
unfolding handle
answers-starting channel_ready t v h a b = ground arith
answers-starting r t v h a b = ground arith

pub answers-stopping :
    (r : Reply) (t : Transceiver)
    → IsValid t
    → answers t r ≡ true
    → is_starting t.state ≡ false
    → After (λ u. is_starting u.state ≡ false) (handle r t)
unfolding handle
answers-stopping channel_ready t v h b = ground arith
answers-stopping r t v h b = ground arith

-- Eleven replies are enough from everywhere.
pub rank-le : (t : Transceiver) → rank t ≤ 11
rank-le t = ground arith
