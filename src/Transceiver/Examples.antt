-- ===== src/Transceiver/Examples.antt =====
-- The theorems on class Transceiver at concrete members and replies.
use amqp_cpp_asio.Base.{◌≡◌, refl, ◌++◌, true, false, none, some, List, [], ◌∷◌, ◌+◌, ◌≤◌, length}
use mathlib.Core.List.{map}
use amqp_cpp_asio.Transceiver.{
  create_queue, no_error, exit_callback, new, done, After, is_running, is_ready,
}
use amqp_cpp_asio.Transceiver.Machine.{machine, machine-total, state_machine}
use amqp_cpp_asio.Transceiver.Replies.{
  Reply, recreate_ready, exchange_success, queue_error, unbind_channel_ready, unbind_success,
  close_success, consume_error, check_success, queue_success, cancel_error, handle,
}
use amqp_cpp_asio.Transceiver.Control.{
  is_starting, on_exit, starts, stops, drops, replies, step, run,
}
use amqp_cpp_asio.Transceiver.Invariant.{IsValid}
use amqp_cpp_asio.Transceiver.Diagram.{Follows, handle-Follows}
use amqp_cpp_asio.Transceiver.Runs.{
  here, Reach-safe, Accounted, exits, owed, accepted_in, run-Accounted,
}
use amqp_cpp_asio.Transceiver.Late.{late-ignored, ended-handle, is_fault, removals}
use amqp_cpp_asio.Transceiver.Protocol.{
  missing, agreeing, requests, farewell, goodbye, run-requests, run-goodbye,
}
use amqp_cpp_asio.Transceiver.Tests.{
  idle, checking, listening, idle-IsValid, checking-IsValid, listening-IsValid, recreating,
  recreating-IsValid, subscribing, subscribing-IsValid,
}
use amqp_cpp_asio.Transceiver.Bounds.{Answers, length-le-eleven}
use amqp_cpp_asio.Transceiver.Leaving.{consume_error-kept}

Reach-safe_example :
    let t = on_exit true (new "exchange" "queue" "route" true) in
    IsValid t × After IsValid (step (starts (some 1)) t)
Reach-safe_example = Reach-safe "exchange" "queue" "route" true true (starts (some 1)) here tt

machine-total_example : machine 3 listening ≡ some (state_machine listening)
machine-total_example = machine-total 0 listening

handle-Follows_example :
    After (Follows (check_success "queue") checking) (handle (check_success "queue") checking)
handle-Follows_example = handle-Follows (check_success "queue") checking checking-IsValid refl

run-Accounted_example :
    After
      (Accounted (exits idle.calls + owed idle + accepted_in (starts none ∷ drops ∷ []) idle) true)
      (run (starts none ∷ drops ∷ []) idle)
unfolding step
run-Accounted_example = run-Accounted (starts none ∷ drops ∷ []) idle (tt, (tt, tt)) idle-IsValid

-- A start with no connection ends at once, with one exit callback.
accepted_in_example : accepted_in (starts none ∷ drops ∷ []) idle ≡ 1
unfolding step
accepted_in_example = refl

late-ignored_example : handle (queue_success "queue") listening ≡ done listening
late-ignored_example = late-ignored (queue_success "queue") create_queue listening refl (λ e. cc)

ended-handle_example : is_fault (handle (cancel_error "gone") idle) ≡ true
ended-handle_example = ended-handle (cancel_error "gone") idle idle-IsValid refl

run-requests_example :
    After
      (λ u. (is_ready u ≡ true) × (u.calls ≡ requests missing idle 1 "queue" ++ []))
      (run (starts (some 1) ∷ map replies (agreeing missing "queue" "tag")) idle)
run-requests_example = run-requests missing idle 1 "queue" "tag" idle-IsValid refl (refl, refl) refl

run-goodbye_example :
    After
      (λ u. (is_running u ≡ false) × (u.calls ≡ exit_callback no_error ∷ goodbye listening 1 ++ []))
      (run (stops ∷ map replies (farewell true "tag")) listening)
run-goodbye_example = run-goodbye listening 1 listening-IsValid refl refl refl

-- The broker makes the channel anew and the exchange, and then refuses the queue.
abbrev answers : List Reply
answers = recreate_ready ∷ exchange_success ∷ queue_error "refused" ∷ []

answers-Answers : Answers answers recreating
unfolding handle
answers-Answers = (refl, (refl, (refl, tt)))

length-le-eleven_example :
    (length answers ≤ 11) × (is_starting recreating.state ≡ false → length answers ≤ 4)
length-le-eleven_example = length-le-eleven answers recreating recreating-IsValid answers-Answers

abbrev refusals : List Reply
refusals = unbind_channel_ready ∷ unbind_success ∷ close_success ∷ []

refusals-Answers : Answers (consume_error "refused" ∷ refusals) subscribing
unfolding handle
refusals-Answers = (refl, (refl, (refl, (refl, tt))))

consume_error-kept_example :
    After
      (λ u. removals u.calls ≡ 0)
      (run (replies (consume_error "refused") ∷ map replies refusals) subscribing)
consume_error-kept_example =
    consume_error-kept "refused" refusals subscribing subscribing-IsValid refl refusals-Answers
