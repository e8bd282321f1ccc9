-- ===== src/Transceiver/Leaving.antt =====
-- What a Transceiver (src/AmqpTransceiver.cpp) does with its queue when it cannot consume from it.
use amqp_cpp_asio.Base.{ℕ, String, ◌≡◌, ◌∙◌, Bool, true, false, List, [], ◌∷◌, arith}
use mathlib.Core.List.{map}
use amqp_cpp_asio.Transceiver.{
  State, create_consumer, unbind_queue, close_channel, end, Transceiver, Outcome, done, fault,
  After, After-map,
}
use amqp_cpp_asio.Transceiver.Replies.{Reply, consume_error, channel_ready, handle}
use amqp_cpp_asio.Transceiver.Control.{replies, run, step, and_then}
use amqp_cpp_asio.Transceiver.Invariant.{IsValid}
use amqp_cpp_asio.Transceiver.Progress.{answers, answers-IsValid}
use amqp_cpp_asio.Transceiver.Late.{removals}
use amqp_cpp_asio.Transceiver.Bounds.{Answers, Continues}

-- The states after a refused consume.
abbrev is_leaving : State → Bool
is_leaving unbind_queue = true
is_leaving close_channel = true
is_leaving end = true
is_leaving _ = false

-- As many requests to remove a queue as there were, and no state in which one is made.
abbrev Leaves : ℕ → Transceiver → Type 0
Leaves n u = (is_leaving u.state ≡ true) × (removals u.calls ≡ n)

answers-Leaves :
    (r : Reply) (t : Transceiver)
    → IsValid t
    → answers t r ≡ true
    → is_leaving t.state ≡ true
    → After (Leaves (removals t.calls)) (handle r t)
unfolding handle
answers-Leaves channel_ready t v a l = ground arith
answers-Leaves r t v a l = ground arith

consume_error-Leaves :
    (m : String) (t : Transceiver)
    → IsValid t
    → t.state ≡ create_consumer
    → After (Leaves (removals t.calls)) (handle (consume_error m) t)
unfolding handle
consume_error-Leaves m t v e = ground arith

run-Leaves :
    (rs : List Reply) (n : ℕ) (o : Outcome)
    → After IsValid o
    → After (Leaves n) o
    → Continues (Answers rs) o
    → After (Leaves n) (and_then o (run (map replies rs)))
unfolding run step
run-Leaves [] n (done t) v l a = l
run-Leaves (r ∷ rs) n (done t) v (l, e) (a, later) =
    run-Leaves rs n (handle r t) (answers-IsValid r t v a)
      (After-map (Leaves (removals t.calls)) (Leaves n) (λ u (x, y). (x, y ∙ e)) (handle r t)
        (answers-Leaves r t v a l))
      later
run-Leaves rs n fault v l a = absurd v

-- After a consume that the broker refuses, a valid transceiver that gets answers only to the
-- requests that are pending never asks to remove its queue
pub consume_error-kept :
    (m : String) (rs : List Reply) (t : Transceiver)
    → IsValid t
    → t.state ≡ create_consumer
    → Answers (consume_error m ∷ rs) t
    → After
        (λ u. removals u.calls ≡ removals t.calls)
        (run (replies (consume_error m) ∷ map replies rs) t)
unfolding run step
consume_error-kept m rs t v e (a, later) =
    After-map (Leaves (removals t.calls)) (λ u. removals u.calls ≡ removals t.calls) (λ u l. l.1)
      (and_then (handle (consume_error m) t) (run (map replies rs)))
      (run-Leaves rs (removals t.calls) (handle (consume_error m) t)
        (answers-IsValid (consume_error m) t v a) (consume_error-Leaves m t v e) later)
