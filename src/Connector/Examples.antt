-- ===== src/Connector/Examples.antt =====
-- The theorems on `open` and `close` with a broker that answers each request at once.
use amqp_cpp_asio.Base.{◌≡◌, refl, true, false, some, arith, if◌then◌else◌}
use text.Mathlib.TextPositions.{eq_refl}
use amqp_cpp_asio.Transceiver.{
  State, create_channel, check_queue, recreate_channel, create_exchange, create_queue, bind_queue,
  create_consumer, shutdown, unbind_queue, remove_queue, Transceiver, no_error, is_running,
  is_ready,
}
use amqp_cpp_asio.Transceiver.Replies.{
  Reply, channel_ready, exchange_success, recreate_ready, bind_success, check_success,
  queue_success, consume_success, cancel_success, unbind_channel_ready, unbind_success,
  remove_channel_ready, remove_success, close_success,
}
use amqp_cpp_asio.Transceiver.Control.{stop}
use amqp_cpp_asio.Transceiver.Invariant.{IsValid}
use amqp_cpp_asio.Transceiver.Progress.{is_opening, is_waiting}
use amqp_cpp_asio.Transceiver.Tests.{
  idle, recreating, listening, idle-IsValid, recreating-IsValid, listening-IsValid,
}
use amqp_cpp_asio.Connector.Loops.{open_transceiver, close_transceiver, and_await}
use amqp_cpp_asio.Connector.Waiting.{
  Returns, Serves, Agrees, Opened, open-Opened, close-ended, stop-recreate_channel,
}

abbrev pub prompt_in : State → Transceiver → Reply
prompt_in create_channel t = channel_ready
prompt_in check_queue t = check_success "queue"
prompt_in recreate_channel t = recreate_ready
prompt_in create_exchange t = exchange_success
prompt_in create_queue t = queue_success "queue"
prompt_in bind_queue t = bind_success
prompt_in create_consumer t = consume_success "tag"
prompt_in shutdown t = cancel_success t.consumer_tag
prompt_in unbind_queue t = if is_opening t then unbind_channel_ready else unbind_success
prompt_in remove_queue t = if is_opening t then remove_channel_ready else remove_success
prompt_in _ t = close_success

abbrev pub prompt : Transceiver → Reply
prompt t = prompt_in t.state t

pub prompt-Serves : Serves prompt
prompt-Serves t v w = ground (arith, eq_refl t.consumer_tag)

prompt-Agrees : Agrees prompt
prompt-Agrees t = ground arith

open-Opened_example :
    Returns (λ u. IsValid u × Opened u) (open_transceiver true (some 1) prompt idle)
open-Opened_example = open-Opened prompt prompt-Serves (some 1) idle idle-IsValid refl

close-ended_example :
    Returns (λ u. IsValid u × (is_running u ≡ false)) (close_transceiver prompt listening)
close-ended_example = close-ended prompt prompt-Serves listening listening-IsValid (λ e. cc)

stop-recreate_channel_example :
    Returns
      (λ u. IsValid u × (is_ready u ≡ true) × (u.ec ≡ no_error))
      (and_await is_waiting prompt (stop recreating))
stop-recreate_channel_example =
    stop-recreate_channel prompt prompt-Serves prompt-Agrees recreating recreating-IsValid refl
