-- ===== src/ConnectionHandler/Diagram.antt =====
-- The state diagram in the comment of class ConnectionHandler (src/AmqpConnectionHandler.hpp).
pub mod Parsing
pub mod Steps
use Prim.Native.String.{◌++◌ as str_append}
use amqp_cpp_asio.Base.{
  ℕ, zero, suc, String, ◌≡◌, refl, sym, subst, Bool, true, false, Option, none, some, List, [], ◌∷◌,
  ◌++◌, arith, Bool-cases, inl, inr, length, drop, if◌then◌else◌,
}
use amqp_cpp_asio.ConnectionHandler.Returning.{WhenReturns, WhenReturns-map, WhenReturns-and_then}
use amqp_cpp_asio.ConnectionHandler.{
  State, not_connected, resolving, connecting, receiver_init, ready, shutdown, Reaction, out,
  failed, closed, Parsed, Parser, Completion, resolved, connected, received, written, Handler,
  is_connected, Result, returns, waits, crashes, exhausted, and_then,
}
use amqp_cpp_asio.ConnectionHandler.Machine.{
  start, on_data, on_error, on_closed, on_write, on_resolved, on_connected, stop_by, next_write,
  send_front, enter_not_connected, is_shutdown,
}
use amqp_cpp_asio.ConnectionHandler.Input.{
  react, react_all, parse_loop, parsed_then, read_again, on_bytes, on_read, deliver,
}
use amqp_cpp_asio.ConnectionHandler.Shutdown.{shut_down, state_machine, clear}

-- What the edges' labels name, and, for an edge with the label of `stop`, `onError`, `onClosed` or an error
-- of a read or a write, that the connection is given up.
pub data Cause : Type 0 where
  resolve_success resolve_fail connect_success connect_fail first_data give_up : Cause

-- What a handler that the event loop calls may bring about. Within a read AMQP-CPP parses, and may give
-- data out, report an error, or report that the connection is closed.
abbrev pub Brings : Completion → Cause → Type 0
Brings (resolved none) resolve_success = Unit {0}
Brings (resolved (some m)) resolve_fail = Unit {0}
Brings (connected none) connect_success = Unit {0}
Brings (connected (some m)) connect_fail = Unit {0}
Brings (received none bytes p) first_data = Unit {0}
Brings (received none bytes p) give_up = Unit {0}
Brings (received (some m) bytes p) give_up = Unit {0}
Brings (written (some m) n) give_up = Unit {0}
Brings _ _ = ⊥

-- The diagram's edges but for `start`, in its order, as far as the code has them. The diagram draws a read
-- error in `eReceiverInit` only and all else that gives the connection up in `eReady` only; here both may
-- be left for each of these reasons. What it calls the first data in is the first data that AMQP-CPP gives
-- out. Its end is `not_connected`, where it starts.
pub data Edge : Cause → State → State → Type 0 where
  name_resolved : Edge resolve_success resolving connecting
  not_resolved : Edge resolve_fail resolving not_connected
  joined : Edge connect_success connecting receiver_init
  not_joined : Edge connect_fail connecting not_connected
  data_out : Edge first_data receiver_init ready
  broken_early : Edge give_up receiver_init shutdown
  broken : Edge give_up ready shutdown
  ended : Edge give_up shutdown not_connected

pub data Walk (B : Cause → Type 0) : State → State → Type 0 where
  here : {s : State} → Walk B s s
  onward : {s t u : State} (c : Cause) → B c → Edge c s t → Walk B t u → Walk B s u

pub join : {B : Cause → Type 0} {s t u : State} → Walk B s t → Walk B t u → Walk B s u
join here q = q
join (onward c b e p) q = onward c b e (join p q)

-- The state has been left along the edges, and a shutdown that was begun on the way has ended.
abbrev pub Follows : (Cause → Type 0) → State → State → Type 0
Follows B s t = Walk B s t × (t ≡ shutdown → s ≡ shutdown)

pub stays : (B : Cause → Type 0) (s : State) → Follows B s s
stays B s = (here, λ e. e)

pub Follows-join :
    (B : Cause → Type 0) (s t u : State) → Follows B s t → Follows B t u → Follows B s u
Follows-join B s t u (p, e) (q, f) = (join p q, λ x. e (f x))

pub down :
    (B : Cause → Type 0) (s : State) → B give_up → is_connected s ≡ true → Follows B s not_connected
down B not_connected b c = cc
down B resolving b c = cc
down B connecting b c = cc
down B receiver_init b c = (onward give_up b broken_early (onward give_up b ended here), λ e. cc)
down B ready b c = (onward give_up b broken (onward give_up b ended here), λ e. cc)
down B shutdown b c = (onward give_up b ended here, λ e. cc)

abbrev pub after_data : State → State
after_data receiver_init = ready
after_data s = s

pub after_data-Follows :
    (B : Cause → Type 0) (s : State) → B first_data → Follows B s (after_data s)
after_data-Follows B receiver_init b = (onward first_data b data_out here, λ e. cc)
after_data-Follows B not_connected b = stays B not_connected
after_data-Follows B resolving b = stays B resolving
after_data-Follows B connecting b = stays B connecting
after_data-Follows B ready b = stays B ready
after_data-Follows B shutdown b = stays B shutdown

pub state-on_data :
    (c : ℕ) (buffer : List ℕ) (h : Handler) → after_data h.state ≡ (on_data c buffer h).state
unfolding on_data
state-on_data c buffer h = ground arith
