-- ===== src/Transceiver/Late.antt =====
-- Replies that come when nothing waits for them, and queues that were there before.
use amqp_cpp_asio.Base.{
  ℕ, String, ◌≡◌, refl, sym, ◌∙◌, ◌≢◌, ◌+◌, inl, inr, Bool-cases, Bool, true, false, Option, none,
  some, List, [], ◌∷◌, arith, is_empty,
}
use text.Mathlib.Text.{◌==◌ as str_eq}
use text.Mathlib.TextEquality.{eq_iff}
use amqp_cpp_asio.Transceiver.{
  State, create_channel, check_queue, recreate_channel, create_exchange, create_queue, bind_queue,
  create_consumer, unbind_queue, remove_queue, Call, remove, Transceiver, Outcome, done, fault,
  After, is_running,
}
use amqp_cpp_asio.Transceiver.Replies.{
  Reply, channel_ready, exchange_success, recreate_ready, bind_success, channel_error, check_error,
  recreate_error, exchange_error, queue_error, check_success, queue_success, consume_success,
  cancel_success, bind_error, cancel_error, unbind_channel_ready, unbind_success,
  remove_channel_ready, remove_success, unbind_channel_error, remove_channel_error, handle,
}
use amqp_cpp_asio.Transceiver.Control.{Event, starts, stops, drops, replies, step}
use amqp_cpp_asio.Transceiver.Invariant.{IsValid}
use amqp_cpp_asio.Transceiver.Runs.{Admissible}

-- The one state in which a handler does something, for the handlers that look at it.
abbrev pub awaited_in : Reply → Option State
awaited_in channel_ready = some create_channel
awaited_in (channel_error m) = some create_channel
awaited_in (check_success name) = some check_queue
awaited_in (check_error m) = some check_queue
awaited_in recreate_ready = some recreate_channel
awaited_in (recreate_error m) = some recreate_channel
awaited_in exchange_success = some create_exchange
awaited_in (exchange_error m) = some create_exchange
awaited_in (queue_success name) = some create_queue
awaited_in (queue_error m) = some create_queue
awaited_in bind_success = some bind_queue
awaited_in (bind_error m) = some bind_queue
awaited_in (consume_success tag) = some create_consumer
awaited_in unbind_channel_ready = some unbind_queue
awaited_in (unbind_channel_error m) = some unbind_queue
awaited_in remove_channel_ready = some remove_queue
awaited_in (remove_channel_error m) = some remove_queue
awaited_in _ = none

-- Each handler that belongs to one state changes nothing and calls nothing when it is called in
-- any other state
pub late-ignored :
    (r : Reply) (s : State) (t : Transceiver)
    → awaited_in r ≡ some s
    → t.state ≢ s
    → handle r t ≡ done t
unfolding handle
late-ignored channel_ready s t a n = ground arith
late-ignored r s t a n = ground arith

abbrev pub is_fault : Outcome → Bool
is_fault (done t) = false
is_fault fault = true

-- The handlers that ask for the channel, whatever the state is.
abbrev pub is_fatal : Reply → Bool
is_fatal (cancel_success consumer) = is_empty consumer
is_fatal (cancel_error m) = true
is_fatal unbind_success = true
is_fatal remove_success = true
is_fatal _ = false

not_empty : (r : String) → r ≢ "" → is_empty r ≡ false
not_empty String.[] h = absurd (h refl)
not_empty (String.◌∷◌ c r) h = refl

eq-is_empty : (s r : String) → s ≡ "" → str_eq s r ≡ is_empty r
eq-is_empty s r e = elim (Bool-cases (str_eq s r)) [
  | inl y ↦ rw (y, ← (eq_iff s r).0 y, e)
  | inr n ↦ rw n (sym (not_empty r (λ h. cc (n, (eq_iff s r).1 (e ∙ sym h)))))
]

-- At a valid transceiver that has ended, a reply makes the code follow a null channel exactly if
-- it is an error of cancel, a success of cancel for the empty tag, or a success of unbind or of
-- remove
pub ended-handle :
    (r : Reply) (t : Transceiver)
    → IsValid t
    → is_running t ≡ false
    → is_fault (handle r t) ≡ is_fatal r
unfolding handle
ended-handle channel_ready t v e = ground arith
ended-handle (cancel_success c) t v e = ground (arith, eq-is_empty t.consumer_tag c)
ended-handle r t v e = ground arith

-- The calls of `removeQueue`.
abbrev pub removals : List Call → ℕ
removals [] = 0
removals (remove q ∷ cs) = removals cs + 1
removals (c ∷ cs) = removals cs

-- While a valid transceiver works with a queue that was there before, no event that may come
-- makes it ask the broker to remove a queue
pub existing-kept :
    (e : Event) (t : Transceiver)
    → IsValid t
    → Admissible e t
    → t.queue_exist ≡ true
    → After (λ u. removals u.calls ≡ removals t.calls) (step e t)
unfolding step
existing-kept (starts c) t v a q = ground arith
existing-kept stops t v a q = ground arith
existing-kept drops t v a q = ground arith
existing-kept (replies channel_ready) t v a q = ground arith
existing-kept (replies r) t v a q = ground arith
