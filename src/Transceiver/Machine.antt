-- ===== src/Transceiver/Machine.antt =====
-- `Transceiver::StateMachine()` (src/AmqpTransceiver.cpp): what is done on entry to each state. The
-- function calls itself where a state is left at once; the fuel counts these calls.
use amqp_cpp_asio.Base.{
  ℕ, ◌≡◌, refl, arith, zero, suc, false, Option, none, some, [], ◌∷◌, is_empty, is_set,
  if◌then◌else◌,
}
use amqp_cpp_asio.Transceiver.{
  State, create_channel, check_queue, recreate_channel, create_exchange, create_queue, bind_queue,
  create_consumer, ready, shutdown, unbind_queue, remove_queue, close_channel, end, max,
  create_channel_error, passive, ErrorHandler, on_create_error, on_recreate_error, on_ready_error,
  on_unbind_error, on_remove_error, Channel, Call, new_channel, declare_queue, declare_exchange,
  bind, consume, cancel, close, exit_callback, Transceiver, exchange_creation_flags, Outcome, done,
  fault,
}

-- One pass through the `switch`: it ends, ends with a call of `StateMachine()`, or follows a null
-- pointer.
pub data Entry : Type 0 where
  settle again : Transceiver → Entry
  crash : Entry

-- `call t c`: the call `c` is made.
abbrev pub call : Transceiver → Call → Transceiver
call t c = record t { calls = c ∷ t.calls }

-- `m_channel->…`, which is undefined where `m_channel` is null.
abbrev via_channel : Transceiver → Call → Entry
via_channel t c = if is_set t.channel then settle (call t c) else crash

-- `std::make_shared<AMQP::Channel>(m_connection)`, the swap, and the channel's `onError`.
abbrev replace_channel : ErrorHandler → Transceiver → Entry
replace_channel h t = elim t.connection [
  | none ↦ crash
  | some c ↦ settle (record t {
    channel = some (record { connection = c; on_error = some h });
    calls = new_channel c ∷ t.calls;
  })
]

-- `m_channel->close()` before the channel is replaced.
abbrev reopen_channel : ErrorHandler → Transceiver → Entry
reopen_channel h t = if is_set t.channel then replace_channel h (call t close) else crash

-- `m_channel->onError(…)`, on a channel that is there.
abbrev pub set_on_error : Option ErrorHandler → Option Channel → Option Channel
set_on_error h none = none
set_on_error h (some c) = some (record c { on_error = h })

-- The `case` of each state.
enter_create_channel : Transceiver → Entry
enter_create_channel t =
    if is_set t.connection
    then replace_channel on_create_error t
    else again (record t { error = "no AMQP connection"; ec = create_channel_error; state = end })

enter_check_queue : Transceiver → Entry
enter_check_queue t =
    if is_empty t.queue
    then again (record t { state = create_exchange })
    else via_channel t (declare_queue t.queue (passive ∷ []))

enter_recreate_channel : Transceiver → Entry
enter_recreate_channel t = reopen_channel on_recreate_error t

enter_create_exchange : Transceiver → Entry
enter_create_exchange t = via_channel t (declare_exchange t.exchange exchange_creation_flags)

enter_create_queue : Transceiver → Entry
enter_create_queue t =
    if t.queue_exist
    then again (record t { state = bind_queue })
    else via_channel t (declare_queue t.queue t.q_flags)

enter_bind_queue : Transceiver → Entry
enter_bind_queue t = via_channel t (bind t.exchange t.recv_queue t.route_in)

enter_create_consumer : Transceiver → Entry
enter_create_consumer t = via_channel t (consume t.recv_queue)

enter_ready : Transceiver → Entry
enter_ready t =
    if t.listener
    then settle t
    else if is_set t.channel
    then settle (record t { channel = set_on_error (some on_ready_error) t.channel })
    else crash

enter_shutdown : Transceiver → Entry
enter_shutdown t =
    if t.listener
    then if is_empty t.consumer_tag
      then again (record t { state = unbind_queue })
      else via_channel t (cancel t.consumer_tag)
    else again (record t { state = close_channel })

enter_unbind_queue : Transceiver → Entry
enter_unbind_queue t =
    if is_empty t.recv_queue
    then again (record t { state = close_channel })
    else reopen_channel on_unbind_error t

enter_remove_queue : Transceiver → Entry
enter_remove_queue t =
    if t.queue_exist
    then again (record t { state = close_channel })
    else reopen_channel on_remove_error t

enter_close_channel : Transceiver → Entry
enter_close_channel t = via_channel t close

enter_end : Transceiver → Entry
enter_end t = settle (record t {
  connection = none;
  recv_queue = "";
  consumer_tag = "";
  queue_exist = false;
  channel = none;
  calls = if t.on_exit then exit_callback t.ec ∷ t.calls else t.calls;
})

-- The `switch` of `StateMachine()`.
pub enter : State → Transceiver → Entry
unfolding enter_create_channel enter_check_queue enter_recreate_channel enter_create_exchange
    enter_create_queue enter_bind_queue enter_create_consumer enter_ready enter_shutdown
    enter_unbind_queue enter_remove_queue enter_close_channel enter_end
enter create_channel t = enter_create_channel t
enter check_queue t = enter_check_queue t
enter recreate_channel t = enter_recreate_channel t
enter create_exchange t = enter_create_exchange t
enter create_queue t = enter_create_queue t
enter bind_queue t = enter_bind_queue t
enter create_consumer t = enter_create_consumer t
enter ready t = enter_ready t
enter shutdown t = enter_shutdown t
enter unbind_queue t = enter_unbind_queue t
enter remove_queue t = enter_remove_queue t
enter close_channel t = enter_close_channel t
enter end t = enter_end t
enter max t = settle t

-- `StateMachine()` with fuel; `none` means that the fuel ran out.
pub machine : ℕ → Transceiver → Option Outcome
unfolding enter
machine zero t = none
machine (suc n) t = elim (enter t.state t) [
  | settle t' ↦ some (done t')
  | again t' ↦ machine n t'
  | crash ↦ some fault
]

abbrev or_fault : Option Outcome → Outcome
or_fault none = fault
or_fault (some o) = o

-- `StateMachine()`, which calls itself twice at most: from `shutdown` through `unbind_queue`.
unfoldable pub state_machine : Transceiver → Outcome
unfolding machine
state_machine t = or_fault (machine 3 t)

-- From every state and members, Transceiver::StateMachine calls itself twice at most: with fuel
-- for three passes or more the model ends, and always with the result of state_machine
pub machine-total :
    (n : ℕ) (t : Transceiver) → machine (suc (suc (suc n))) t ≡ some (state_machine t)
unfolding state_machine
machine-total n t = split t.state t refl
  where
    split :
        (s : State) (t : Transceiver)
        → t.state ≡ s
        → machine (suc (suc (suc n))) t ≡ some (state_machine t)
    split create_channel t e = ground arith
    split _ t e = ground arith
