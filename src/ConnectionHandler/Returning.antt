-- ===== src/ConnectionHandler/Returning.antt =====
-- What a call of class ConnectionHandler (src/AmqpConnectionHandler.cpp) leaves, where it returns.
use amqp_cpp_asio.ConnectionHandler.{Handler, Result, returns, waits, crashes, exhausted, and_then}

abbrev pub Returns : (Handler → Type 0) → Result → Type 0
Returns P (returns h) = P h
Returns P waits = ⊥
Returns P crashes = ⊥
Returns P exhausted = ⊥

pub Returns-map :
    (P Q : Handler → Type 0)
    → ((h : Handler) → P h → Q h)
    → (r : Result) → Returns P r
    → Returns Q r
Returns-map P Q f (returns h) p = f h p
Returns-map P Q f waits p = absurd p
Returns-map P Q f crashes p = absurd p
Returns-map P Q f exhausted p = absurd p

pub Returns-and_then :
    (P Q : Handler → Type 0) (f : Handler → Result)
    → ((h : Handler) → P h → Returns Q (f h))
    → (r : Result) → Returns P r
    → Returns Q (and_then r f)
Returns-and_then P Q f g (returns h) p = g h p
Returns-and_then P Q f g waits p = absurd p
Returns-and_then P Q f g crashes p = absurd p
Returns-and_then P Q f g exhausted p = absurd p

-- What holds of the members, if the call returns.
abbrev pub WhenReturns : (Handler → Type 0) → Result → Type 0
WhenReturns P (returns h) = P h
WhenReturns P _ = Unit {0}

pub WhenReturns-map :
    (P Q : Handler → Type 0)
    → ((h : Handler) → P h → Q h)
    → (r : Result) → WhenReturns P r
    → WhenReturns Q r
WhenReturns-map P Q f (returns h) p = f h p
WhenReturns-map P Q f waits p = tt
WhenReturns-map P Q f crashes p = tt
WhenReturns-map P Q f exhausted p = tt

pub WhenReturns-and_then :
    (P Q : Handler → Type 0) (f : Handler → Result)
    → ((h : Handler) → P h → WhenReturns Q (f h))
    → (r : Result) → WhenReturns P r
    → WhenReturns Q (and_then r f)
WhenReturns-and_then P Q f g (returns h) p = g h p
WhenReturns-and_then P Q f g waits p = tt
WhenReturns-and_then P Q f g crashes p = tt
WhenReturns-and_then P Q f g exhausted p = tt
