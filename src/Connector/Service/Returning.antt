-- ===== src/Connector/Service/Returning.antt =====
-- What a call of class Connector (src/AmqpConnector.cpp) that runs the event loop leaves.
use amqp_cpp_asio.Base.{Option, none, some}
use amqp_cpp_asio.Connector.Machine.{Connector}
use amqp_cpp_asio.Connector.Shutdown.{Gives}
use amqp_cpp_asio.Connector.Service.{Result, returns, crashes, exhausted, then_run, and_run}

-- The call returns, and leaves members of which `P` holds.
abbrev pub Returns : (Connector → Type 0) → Result → Type 0
Returns P (returns c) = P c
Returns P crashes = ⊥
Returns P exhausted = ⊥

pub Returns-map :
    (P Q : Connector → Type 0)
    → ((c : Connector) → P c → Q c)
    → (o : Result) → Returns P o
    → Returns Q o
Returns-map P Q f (returns c) h = f c h
Returns-map P Q f crashes h = h
Returns-map P Q f exhausted h = h

pub then_run-Returns :
    (P Q : Connector → Type 0) (f : Connector → Result) (o : Option Connector)
    → ((c : Connector) → P c → Returns Q (f c))
    → Gives P o
    → Returns Q (then_run f o)
then_run-Returns P Q f none g h = h
then_run-Returns P Q f (some c) g h = g c h

pub and_run-Returns :
    (P Q : Connector → Type 0) (f : Connector → Result) (o : Result)
    → ((c : Connector) → P c → Returns Q (f c))
    → Returns P o
    → Returns Q (and_run f o)
and_run-Returns P Q f (returns c) g h = g c h
and_run-Returns P Q f crashes g h = h
and_run-Returns P Q f exhausted g h = h
