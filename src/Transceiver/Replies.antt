-- ===== src/Transceiver/Replies.antt =====
-- The handlers that `Transceiver::StateMachine()` leaves with AMQP-CPP (src/AmqpTransceiver.cpp): one
-- reply for each lambda, and what the lambda does when it is called.
use amqp_cpp_asio.Base.{String, true, none, is_empty, is_set, if◌then◌else◌}
use mathlib.Core.Int.{ℤ}
use text.Mathlib.Text.{◌==◌ as str_eq}
use amqp_cpp_asio.Transceiver.{
  State, create_channel, check_queue, recreate_channel, create_exchange, create_queue, bind_queue,
  create_consumer, ready, unbind_queue, remove_queue, close_channel, end, ExitCode, no_error,
  create_channel_error, create_exchange_error, create_queue_error, bind_queue_error,
  create_consumer_error, consumer_cancel_error, unbind_queue_error, remove_queue_error,
  close_channel_error, channel_abruptly_closed_error, Envelope, Delivery, unbind, remove,
  message_callback, default_handler, bounce_callback, Transceiver, Outcome, done, fault, is_ready,
}
use amqp_cpp_asio.Transceiver.Machine.{state_machine, set_on_error, call}

-- A call of one of the lambdas, with the arguments that the code reads. The first word says which
-- request it answers: `recreate`, `unbind_channel` and `remove_channel` are the channels that
-- replace another one.
pub data Reply : Type 0 where
  channel_ready exchange_success recreate_ready bind_success : Reply
  ready_error channel_error check_error recreate_error exchange_error queue_error : String → Reply
  check_success queue_success consume_success cancel_success : String → Reply
  bind_error consume_error cancel_error : String → Reply
  unbind_channel_ready unbind_success remove_channel_ready remove_success close_success : Reply
  unbind_channel_error unbind_error remove_channel_error remove_error close_error : String → Reply

-- The members are set and `StateMachine()` is called.
abbrev goto : State → Transceiver → Outcome
goto s t = state_machine (record t { state = s })

-- An error is recorded before the call.
abbrev fail_to : State → ExitCode → String → Transceiver → Outcome
fail_to s ec message t = state_machine (record t { state = s; ec = ec; error = message })

-- An error is recorded only where none is.
abbrev keep_first_error : ExitCode → String → Transceiver → Transceiver
keep_first_error ec message t = record t {
  ec = elim t.ec [ no_error ↦ ec | other ↦ other ];
  error = if is_empty t.error then message else t.error;
}

-- `m_channel->onError(nullptr)`, and then `k`.
abbrev drop_on_error : Transceiver → (Transceiver → Outcome) → Outcome
drop_on_error t k =
    if is_set t.channel then k (record t { channel = set_on_error none t.channel }) else fault

-- The body of each lambda, with the state that it finds.
pub dispatch : State → Reply → Transceiver → Outcome
unfolding state_machine
dispatch create_channel channel_ready t =
    drop_on_error t (goto (if t.listener then check_queue else create_exchange))
dispatch _ channel_ready t = done t
dispatch create_channel (channel_error m) t = fail_to end create_channel_error m t
dispatch _ (channel_error m) t = done t
dispatch check_queue (check_success name) t =
    goto create_exchange (record t { queue_exist = true; recv_queue = name })
dispatch _ (check_success name) t = done t
dispatch check_queue (check_error m) t = goto recreate_channel t
dispatch _ (check_error m) t = done t
dispatch recreate_channel recreate_ready t = drop_on_error t (goto create_exchange)
dispatch _ recreate_ready t = done t
dispatch recreate_channel (recreate_error m) t = fail_to end create_channel_error m t
dispatch _ (recreate_error m) t = done t
dispatch create_exchange exchange_success t = goto (if t.listener then create_queue else ready) t
dispatch _ exchange_success t = done t
dispatch create_exchange (exchange_error m) t = fail_to close_channel create_exchange_error m t
dispatch _ (exchange_error m) t = done t
dispatch create_queue (queue_success name) t = goto bind_queue (record t { recv_queue = name })
dispatch _ (queue_success name) t = done t
dispatch create_queue (queue_error m) t = fail_to close_channel create_queue_error m t
dispatch _ (queue_error m) t = done t
dispatch bind_queue bind_success t = goto create_consumer t
dispatch _ bind_success t = done t
dispatch bind_queue (bind_error m) t = fail_to remove_queue bind_queue_error m t
dispatch _ (bind_error m) t = done t
dispatch create_consumer (consume_success tag) t = goto ready (record t { consumer_tag = tag })
dispatch _ (consume_success tag) t = done t
dispatch create_consumer (consume_error m) t = fail_to unbind_queue create_consumer_error m t
dispatch ready (consume_error m) t = fail_to end channel_abruptly_closed_error m t
dispatch _ (consume_error m) t = done t
dispatch _ (ready_error m) t = fail_to end channel_abruptly_closed_error m t
dispatch _ (cancel_success consumer) t =
    if str_eq t.consumer_tag consumer then goto unbind_queue t else done t
dispatch _ (cancel_error m) t = fail_to unbind_queue consumer_cancel_error m t
dispatch unbind_queue unbind_channel_ready t =
    drop_on_error t (λ u. done (call u (unbind u.exchange u.recv_queue u.route_in)))
dispatch _ unbind_channel_ready t = done t
dispatch unbind_queue (unbind_channel_error m) t = fail_to end create_channel_error m t
dispatch _ (unbind_channel_error m) t = done t
dispatch _ unbind_success t = goto close_channel t
dispatch _ (unbind_error m) t = goto end (keep_first_error unbind_queue_error m t)
dispatch remove_queue remove_channel_ready t =
    drop_on_error t (λ u. done (call u (remove u.recv_queue)))
dispatch _ remove_channel_ready t = done t
dispatch remove_queue (remove_channel_error m) t = fail_to end create_channel_error m t
dispatch _ (remove_channel_error m) t = done t
dispatch _ remove_success t = goto close_channel t
dispatch _ (remove_error m) t = goto end (keep_first_error remove_queue_error m t)
dispatch _ close_success t = goto end t
dispatch _ (close_error m) t = goto end (keep_first_error close_channel_error m t)

unfoldable pub handle : Reply → Transceiver → Outcome
unfolding dispatch
handle r t = dispatch t.state r t

-- The lambda of `onReceived`: a message that arrives before the consumer is confirmed is dropped.
abbrev pub receive : Delivery → Transceiver → Transceiver
receive d t =
    if is_ready t
    then call t (if t.on_message then message_callback d else default_handler d)
    else t

-- The lambda of `onReturned`.
abbrev pub returned : Envelope → ℤ → String → Transceiver → Transceiver
returned message code description t =
    if t.on_bounce_message then call t (bounce_callback message code description) else t
