-- ===== src/ConnectionHandler/Fuel.antt =====
-- What it means that the model of class ConnectionHandler does not run out of fuel.
use amqp_cpp_asio.Base.{ℕ, ◌≡◌, ◌≤◌, ◌<◌, true, false, List, arith, length, All}
use amqp_cpp_asio.ConnectionHandler.{
  Completion, received, Handler, is_connected, Result, returns, waits, crashes, exhausted, and_then,
}

-- AMQP-CPP uses up no more bytes than it is given.
abbrev pub IsSane : Completion → Type 0
IsSane (received ec bytes p) = (xs : List ℕ) → (p.parse xs).consumed ≤ length xs
IsSane _ = Unit {0}

-- No fuel runs out, and where the call returns, `P` holds.
abbrev pub UnlessOut : (Handler → Type 0) → Result → Type 0
UnlessOut P (returns h) = P h
UnlessOut P exhausted = ⊥
UnlessOut P _ = Unit {0}

-- At most `n` handlers are still to be called, and their parsers are sane.
abbrev pub Within : ℕ → Handler → Type 0
Within n h = (length h.incoming ≤ n) × All IsSane h.incoming

-- `sm` serves a handler before which fewer than `d` are to be called, and leaves it disconnected.
abbrev pub Serves : ℕ → (Handler → Result) → Type 0
Serves d sm =
    (n : ℕ) (h : Handler)
    → n < d
    → Within n h
    → UnlessOut (λ u. Within n u × (is_connected u.state ≡ false)) (sm h)

-- After a reaction the handler has been disconnected, or its input is as before.
abbrev pub Reacts : ℕ → Handler → Handler → Type 0
Reacts n h u =
    Within n u
    × (is_connected u.state ≡ true → (is_connected h.state ≡ true) × (u.in_buf ≡ h.in_buf))

pub UnlessOut-map :
    (P Q : Handler → Type 0)
    → ((h : Handler) → P h → Q h)
    → (r : Result) → UnlessOut P r
    → UnlessOut Q r
UnlessOut-map P Q f (returns h) p = f h p
UnlessOut-map P Q f waits p = tt
UnlessOut-map P Q f crashes p = tt
UnlessOut-map P Q f exhausted p = p

pub UnlessOut-and_then :
    (P Q : Handler → Type 0) (f : Handler → Result)
    → ((h : Handler) → P h → UnlessOut Q (f h))
    → (r : Result) → UnlessOut P r
    → UnlessOut Q (and_then r f)
UnlessOut-and_then P Q f g (returns h) p = g h p
UnlessOut-and_then P Q f g waits p = tt
UnlessOut-and_then P Q f g crashes p = tt
UnlessOut-and_then P Q f g exhausted p = p

pub Within-mono : {m n : ℕ} (h : Handler) → m ≤ n → Within m h → Within n h
Within-mono h le (l, s) = (omega arith, s)
