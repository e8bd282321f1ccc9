-- ===== src/Transceiver/Bounds.antt =====
-- How many replies a Transceiver (src/AmqpTransceiver.cpp) can still be answered with before it rests.
use amqp_cpp_asio.Base.{ℕ, ◌≡◌, ◌≤◌, ◌<◌, false, true, List, [], ◌∷◌, length, arith}
use amqp_cpp_asio.Transceiver.{Transceiver, Outcome, done, fault, After}
use amqp_cpp_asio.Transceiver.Replies.{Reply, handle}
use amqp_cpp_asio.Transceiver.Control.{is_starting}
use amqp_cpp_asio.Transceiver.Invariant.{IsValid}
use amqp_cpp_asio.Transceiver.Progress.{answers, rank, rank-le, answers-rank, answers-IsValid}

abbrev pub Continues : (Transceiver → Type 0) → Outcome → Type 0
Continues P (done t) = P t
Continues P fault = Unit {0}

-- Each reply answers the request that is pending when it comes.
abbrev pub Answers : List Reply → Transceiver → Type 0
Answers [] t = Unit {0}
Answers (r ∷ rs) t = (answers t r ≡ true) × Continues (Answers rs) (handle r t)

length-le-rank-step :
    (rs : List Reply) (n : ℕ) (o : Outcome)
    → ((t : Transceiver) → IsValid t → Answers rs t → length rs ≤ rank t)
    → After IsValid o
    → After (λ u. rank u < n) o
    → Continues (Answers rs) o
    → length rs < n
length-le-rank-step rs n (done t) rest v lt a = omega (arith, rest t v a)
length-le-rank-step rs n fault rest v lt a = absurd v

length-le-rank : (rs : List Reply) (t : Transceiver) → IsValid t → Answers rs t → length rs ≤ rank t
length-le-rank [] t v a = omega arith
length-le-rank (r ∷ rs) t v (a, later) =
    length-le-rank-step rs (rank t) (handle r t) (length-le-rank rs) (answers-IsValid r t v a)
      (answers-rank r t v a) later

stopping-rank : (t : Transceiver) → is_starting t.state ≡ false → rank t ≤ 4
stopping-rank t e = ground arith

-- A valid transceiver can be answered eleven times at most, each time to the request that is
-- pending then, and four times at most if it is past its start
pub length-le-eleven :
    (rs : List Reply) (t : Transceiver)
    → IsValid t
    → Answers rs t
    → (length rs ≤ 11) × (is_starting t.state ≡ false → length rs ≤ 4)
length-le-eleven rs t v a = (
  omega (arith, length-le-rank rs t v a, rank-le t),
  λ e. omega (arith, length-le-rank rs t v a, stopping-rank t e),
)
