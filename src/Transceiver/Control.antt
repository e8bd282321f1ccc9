-- ===== src/Transceiver/Control.antt =====
-- The calls of class Transceiver that its owner makes (src/AmqpTransceiver.cpp): `start`, `stop`,
-- `drop`, `send` of a text, and the setters of the callbacks.
use amqp_cpp_asio.Base.{
  ℕ, String, Bool, true, false, Option, none, some, List, [], ◌∷◌, ◌++◌, ◌≡◌, refl, ◌&&◌, leb,
  if◌then◌else◌,
}
use amqp_cpp_asio.Transceiver.{
  State, create_channel, check_queue, create_exchange, create_queue, bind_queue, create_consumer,
  ready, shutdown, unbind_queue, remove_queue, close_channel, end, no_error, dropped, Flag,
  mandatory, Envelope, publish, Transceiver, index, Outcome, done, fault, is_ready,
}
use amqp_cpp_asio.Transceiver.Machine.{state_machine, call}
use amqp_cpp_asio.Transceiver.Replies.{Reply, handle}

unfoldable pub start : Option ℕ → Transceiver → Outcome
unfolding state_machine
start c t = elim t.state [
  | end ↦
      state_machine (record t { connection = c; error = ""; ec = no_error; state = create_channel })
  | _ ↦ done t
]

-- The entries of `StopTransit`.
abbrev pub stop_entry : State → Option State
stop_entry create_channel = some end
stop_entry create_exchange = some close_channel
stop_entry check_queue = some close_channel
stop_entry create_queue = some close_channel
stop_entry bind_queue = some remove_queue
stop_entry create_consumer = some unbind_queue
stop_entry ready = some shutdown
stop_entry _ = none

-- `StopTransit[s]`: at a key that is missing `operator[]` inserts a zero, which is `eCreateChannel`.
abbrev pub stop_transit : State → State
stop_transit s = elim (stop_entry s) [ none ↦ create_channel | some next ↦ next ]

-- `(s >= eCreateChannel) && (s <= eReady)`.
abbrev pub is_starting : State → Bool
is_starting s = leb (index create_channel) (index s) && leb (index s) (index ready)

unfoldable pub stop : Transceiver → Outcome
unfolding state_machine
stop t =
    if is_starting t.state
    then state_machine (record t { state = stop_transit t.state })
    else done t

unfoldable pub drop : Transceiver → Outcome
unfolding state_machine
drop t = elim t.state [
  | end ↦ done t
  | _ ↦ state_machine (record t { error = "transceiver dropped"; ec = dropped; state = end })
]

-- `publish` on the channel, once the state is `ready`; the result says whether it was called.
abbrev pub publish_flags : Bool → List Flag
publish_flags required = if required then mandatory ∷ [] else []

unfoldable pub send_envelope : Envelope → String → Bool → Transceiver → Option (Transceiver × Bool)
send_envelope envelope route required t =
    if is_ready t
    then elim t.channel [
      | none ↦ none
      | some c ↦ some (call t (publish t.exchange route envelope (publish_flags required)), true)
    ]
    else some (t, false)

-- `send` of a text; `none` is a null channel.
abbrev pub send : String → String → Bool → Transceiver → Option (Transceiver × Bool)
unfolding send_envelope
send message =
    send_envelope
      (record { body = message; content_type = "text/plain"; content_encoding = "utf-8" })

-- `onBounce`, `onMessage` and `onExit`, with whether the function that is given is not empty.
pub on_bounce : Bool → Transceiver → Transceiver
on_bounce callback t = record t { on_bounce_message = callback }

unfoldable pub on_message : Bool → Transceiver → Transceiver
on_message callback t = record t { on_message = callback }

unfoldable pub on_exit : Bool → Transceiver → Transceiver
on_exit callback t = record t { on_exit = callback }

-- What can happen to a transceiver.
pub data Event : Type 0 where
  starts : Option ℕ → Event
  stops drops : Event
  replies : Reply → Event

unfoldable pub step : Event → Transceiver → Outcome
unfolding start stop drop handle
step (starts c) t = start c t
step stops t = stop t
step drops t = drop t
step (replies r) t = handle r t

-- Events one after the other.
abbrev pub and_then : Outcome → (Transceiver → Outcome) → Outcome
and_then (done t) f = f t
and_then fault f = fault

unfoldable pub run : List Event → Transceiver → Outcome
run [] t = done t
run (e ∷ es) t = and_then (step e t) (run es)

and_then-and_then :
    (f g h : Transceiver → Outcome)
    → ((t : Transceiver) → f t ≡ and_then (g t) h)
    → (o : Outcome) → and_then o f ≡ and_then (and_then o g) h
and_then-and_then f g h e (done t) = e t
and_then-and_then f g h e fault = refl

-- A run goes on from where its first part ends.
pub run-append :
    (es fs : List Event) (t : Transceiver) → run (es ++ fs) t ≡ and_then (run es t) (run fs)
unfolding run
run-append [] fs t = refl
run-append (e ∷ es) fs t =
    and_then-and_then (run (es ++ fs)) (run es) (run fs) (run-append es fs) (step e t)
