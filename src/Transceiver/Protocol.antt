-- ===== src/Transceiver/Protocol.antt =====
-- What a Transceiver asks of the broker, request by request, from `start` to `ready` and from `stop` to
-- the end.
use amqp_cpp_asio.Base.{
  ℕ, String, ◌≡◌, subst, ◌++◌, Bool, true, false, none, some, List, [], ◌∷◌, arith, is_empty,
  is_set, if◌then◌else◌,
}
use mathlib.Core.List.{map}
use text.Mathlib.TextPositions.{eq_refl}
use amqp_cpp_asio.Transceiver.{
  autodelete, durable, passive, no_error, Call, new_channel, declare_queue, declare_exchange, bind,
  consume, cancel, unbind, close, exit_callback, Transceiver, Outcome, done, After, is_running,
  is_ready, ready, end, create_exchange,
}
use amqp_cpp_asio.Transceiver.Replies.{
  Reply, channel_ready, exchange_success, recreate_ready, bind_success, check_error, check_success,
  queue_success, consume_success, cancel_success, unbind_channel_ready, unbind_success,
  close_success,
}
use amqp_cpp_asio.Transceiver.Control.{starts, stops, replies, step, run, run-append}
use amqp_cpp_asio.Transceiver.Invariant.{IsValid}

-- How the broker finds the queue: the transceiver only publishes, its queue has no name, there is such
-- a queue, or there is none.
pub data Setting : Type 0 where
  publisher unnamed found missing : Setting

abbrev pub Fits : Setting → Transceiver → Type 0
Fits publisher t = t.listener ≡ false
Fits unnamed t = (t.listener ≡ true) × (is_empty t.queue ≡ true)
Fits found t = (t.listener ≡ true) × (is_empty t.queue ≡ false)
Fits missing t = (t.listener ≡ true) × (is_empty t.queue ≡ false)

-- The replies of a broker that does what is asked, with the queue's name and the consumer's tag.
abbrev pub agreeing : Setting → String → String → List Reply
agreeing publisher name tag = channel_ready ∷ exchange_success ∷ []
agreeing unnamed name tag =
    channel_ready ∷ exchange_success ∷ queue_success name ∷ bind_success ∷ consume_success tag ∷ []
agreeing found name tag =
    channel_ready ∷ check_success name ∷ exchange_success ∷ bind_success ∷ consume_success tag ∷ []
agreeing missing name tag =
    channel_ready
    ∷ check_error ""
    ∷ recreate_ready
    ∷ exchange_success
    ∷ queue_success name
    ∷ bind_success
    ∷ consume_success tag
    ∷ []

-- The requests, the last one first.
abbrev pub subscription : Transceiver → String → List Call
subscription t name = consume name ∷ bind t.exchange name t.route_in ∷ []

abbrev pub exchange_request : Transceiver → Call
exchange_request t = declare_exchange t.exchange (autodelete ∷ durable ∷ [])

abbrev pub requests : Setting → Transceiver → ℕ → String → List Call
requests publisher t c name = exchange_request t ∷ new_channel c ∷ []
requests unnamed t c name =
    subscription t name
    ++ (declare_queue t.queue t.q_flags ∷ exchange_request t ∷ new_channel c ∷ [])
requests found t c name =
    subscription t name
    ++ (exchange_request t ∷ declare_queue t.queue (passive ∷ []) ∷ new_channel c ∷ [])
requests missing t c name =
    subscription t name
    ++ (declare_queue t.queue t.q_flags
        ∷ exchange_request t
        ∷ new_channel c
        ∷ close
        ∷ declare_queue t.queue (passive ∷ [])
        ∷ new_channel c
        ∷ [])

abbrev Makes : List Call → Transceiver → Type 0
Makes cs u = (is_ready u ≡ true) × (u.calls ≡ cs)

abbrev agreed_run : Setting → Transceiver → ℕ → String → String → Outcome
agreed_run setting t c name tag = run (starts (some c) ∷ map replies (agreeing setting name tag)) t

-- The replies up to the new channel that is made where the queue is missing, and what they leave.
abbrev renewal : List Reply
renewal = channel_ready ∷ check_error "" ∷ recreate_ready ∷ []

abbrev renewed : Transceiver → ℕ → Transceiver
renewed t c = record t {
  state = create_exchange;
  connection = some c;
  error = "";
  ec = no_error;
  channel = some (record { connection = c; on_error = none });
  calls =
      exchange_request t
      ∷ new_channel c
      ∷ close
      ∷ declare_queue t.queue (passive ∷ [])
      ∷ new_channel c
      ∷ t.calls;
}

run-renewal :
    (t : Transceiver) (c : ℕ)
    → t.state ≡ end
    → Fits missing t
    → run (starts (some c) ∷ map replies renewal) t ≡ done (renewed t c)
unfolding run step
run-renewal t c e f = ground arith

Makes-rest :
    (t : Transceiver) (c : ℕ) (name tag : String)
    → t.queue_exist ≡ false
    → t.listener ≡ true
    → is_empty name ≡ false
    → After (Makes (requests missing t c name ++ t.calls)) (
        run
          (map replies
            (exchange_success ∷ queue_success name ∷ bind_success ∷ consume_success tag ∷ []))
          (renewed t c))
unfolding run step
Makes-rest t c name tag q l n = ground arith

Makes-requests :
    (setting : Setting) (t : Transceiver) (c : ℕ) (name tag : String)
    → t.state ≡ end
    → t.queue_exist ≡ false
    → Fits setting t
    → is_empty name ≡ false
    → After (Makes (requests setting t c name ++ t.calls)) (agreed_run setting t c name tag)
unfolding run step
Makes-requests publisher t c name tag e q f n = ground arith
Makes-requests unnamed t c name tag e q f n = ground arith
Makes-requests found t c name tag e q f n = ground arith
Makes-requests missing t c name tag e q f n =
    rw (run-append (starts (some c) ∷ map replies renewal) _ t, run-renewal t c e f)
      (Makes-rest t c name tag q f.0 n)

ended-end : (t : Transceiver) → is_running t ≡ false → t.state ≡ end
ended-end t e = ground arith

-- A start of a valid transceiver that does not run, with replies that agree to each request and
-- a queue name that is not empty, ends in ready after exactly the listed requests in their
-- order: for a publisher, for a listener whose queue has no name, whose queue exists and whose
-- queue is missing
pub run-requests :
    (setting : Setting) (t : Transceiver) (c : ℕ) (name tag : String)
    → IsValid t
    → is_running t ≡ false
    → Fits setting t
    → is_empty name ≡ false
    → After
        (λ u. (is_ready u ≡ true) × (u.calls ≡ requests setting t c name ++ t.calls))
        (run (starts (some c) ∷ map replies (agreeing setting name tag)) t)
run-requests setting t c name tag v e f n =
    Makes-requests setting t c name tag (ended-end t e) (v.idle e).4 f n

-- The replies to a stop, and the requests that it makes, the last one first.
abbrev pub farewell : Bool → String → List Reply
farewell listener tag =
    if listener
    then if is_empty tag
      then unbind_channel_ready ∷ unbind_success ∷ close_success ∷ []
      else cancel_success tag ∷ unbind_channel_ready ∷ unbind_success ∷ close_success ∷ []
    else close_success ∷ []

abbrev pub goodbye : Transceiver → ℕ → List Call
goodbye t c =
    if t.listener
    then close
      ∷ unbind t.exchange t.recv_queue t.route_in
      ∷ new_channel c
      ∷ close
      ∷ (if is_empty t.consumer_tag then [] else cancel t.consumer_tag ∷ [])
    else close ∷ []

stop_requests :
    (t : Transceiver) (c : ℕ)
    → t.state ≡ ready
    → t.connection ≡ some c
    → is_set t.channel ≡ true
    → t.on_exit ≡ true
    → (t.listener ≡ true → is_empty t.recv_queue ≡ false)
    → After
        (λ u. (is_running u ≡ false) × (u.calls ≡ exit_callback t.ec ∷ goodbye t c ++ t.calls))
        (run (stops ∷ map replies (farewell t.listener t.consumer_tag)) t)
unfolding run step
stop_requests t c e d h x q = ground (arith, eq_refl t.consumer_tag)

ready-state : (t : Transceiver) → is_ready t ≡ true → t.state ≡ ready
ready-state t e = ground arith

-- A stop of a valid transceiver that is ready and has an exit callback, with replies that agree
-- to each request, ends the machine after exactly the listed requests in their order, and then
-- makes the exit callback once, with no error
pub run-goodbye :
    (t : Transceiver) (c : ℕ)
    → IsValid t
    → is_ready t ≡ true
    → t.connection ≡ some c
    → t.on_exit ≡ true
    → After
        (λ u. (is_running u ≡ false) × (u.calls ≡ exit_callback no_error ∷ goodbye t c ++ t.calls))
        (run (stops ∷ map replies (farewell t.listener t.consumer_tag)) t)
run-goodbye t c v e d x =
    let r : t.state ≡ ready = ready-state t e in
    let clean : t.ec ≡ no_error = ground (arith, v.starts_clean) in
    subst
      (λ ec.
        After (λ u. (is_running u ≡ false) × (u.calls ≡ exit_callback ec ∷ goodbye t c ++ t.calls))
          (run (stops ∷ map replies (farewell t.listener t.consumer_tag)) t))
      clean (stop_requests t c r d (v.attached (ground arith)).1 x (v.subscribed (ground arith)))
