-- ===== src/Transceiver/Receiving.antt =====
-- The callback for messages of a Transceiver (src/AmqpTransceiver.cpp), which the state machine keeps.
use amqp_cpp_asio.Base.{ℕ, ◌≡◌, true, Option, arith}
use amqp_cpp_asio.Transceiver.{Transceiver, After}
use amqp_cpp_asio.Transceiver.Replies.{Reply, channel_ready, handle}
use amqp_cpp_asio.Transceiver.Control.{start, drop}
use amqp_cpp_asio.Transceiver.Invariant.{IsValid}
use amqp_cpp_asio.Transceiver.Progress.{answers}

-- Whether the application has set its callback.
abbrev pub Hears : Transceiver → Type 0
Hears t = t.on_message ≡ true

pub answers-Hears :
    (r : Reply) (t : Transceiver)
    → IsValid t
    → answers t r ≡ true
    → Hears t
    → After Hears (handle r t)
unfolding handle
answers-Hears channel_ready t v a h = ground arith
answers-Hears r t v a h = ground arith

pub drop-Hears : (t : Transceiver) → IsValid t → Hears t → After Hears (drop t)
unfolding drop
drop-Hears t v h = ground arith

pub start-Hears : (c : Option ℕ) (t : Transceiver) → IsValid t → Hears t → After Hears (start c t)
unfolding start
start-Hears c t v h = ground arith
