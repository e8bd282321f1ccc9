-- ===== src/Transceiver/Publishing.antt =====
-- What a Transceiver (src/AmqpTransceiver.cpp) publishes: only `send` does.
use amqp_cpp_asio.Base.{ℕ, ◌≡◌, true, Option, List, [], ◌∷◌, arith}
use amqp_cpp_asio.Transceiver.{Call, publish, Transceiver, After}
use amqp_cpp_asio.Transceiver.Replies.{Reply, channel_ready, handle}
use amqp_cpp_asio.Transceiver.Control.{start, stop, drop}
use amqp_cpp_asio.Transceiver.Invariant.{IsValid}
use amqp_cpp_asio.Transceiver.Progress.{answers}

-- The calls of `publish`, the newest first.
abbrev pub publishes : List Call → List Call
publishes [] = []
publishes (publish exchange route m flags ∷ cs) = publish exchange route m flags ∷ publishes cs
publishes (c ∷ cs) = publishes cs

-- Nothing was published from `t` to `u`, which is of the same exchange.
abbrev pub Unsent : Transceiver → Transceiver → Type 0
Unsent t u = (publishes u.calls ≡ publishes t.calls) × (u.exchange ≡ t.exchange)

pub answers-Unsent :
    (r : Reply) (t : Transceiver) → IsValid t → answers t r ≡ true → After (Unsent t) (handle r t)
unfolding handle
answers-Unsent channel_ready t v a = ground arith
answers-Unsent r t v a = ground arith

pub drop-Unsent : (t : Transceiver) → IsValid t → After (Unsent t) (drop t)
unfolding drop
drop-Unsent t v = ground arith

pub stop-Unsent : (t : Transceiver) → IsValid t → After (Unsent t) (stop t)
unfolding stop
stop-Unsent t v = ground arith

pub start-Unsent : (c : Option ℕ) (t : Transceiver) → IsValid t → After (Unsent t) (start c t)
unfolding start
start-Unsent c t v = ground arith
