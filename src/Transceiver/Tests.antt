-- ===== src/Transceiver/Tests.antt =====
-- Members of a Transceiver for the examples.
use amqp_cpp_asio.Base.{true, false, none, some, [], arith}
use amqp_cpp_asio.Transceiver.{
  check_queue, recreate_channel, create_consumer, ready, end, no_error, Channel, on_recreate_error,
  Transceiver,
}
use amqp_cpp_asio.Transceiver.Invariant.{IsValid}

-- A listener on a named queue, before its start.
abbrev pub idle : Transceiver
idle = record {
  state = end;
  connection = none;
  exchange = "exchange";
  queue = "queue";
  recv_queue = "";
  route_in = "route";
  consumer_tag = "";
  listener = true;
  queue_exist = false;
  q_flags = [];
  on_bounce_message = true;
  on_message = true;
  on_exit = true;
  channel = none;
  error = "";
  ec = no_error;
  calls = [];
}

abbrev pub plain_channel : Channel
plain_channel = record { connection = 1; on_error = none }

-- The listener while it looks for its queue, while its channel is made anew, and when it is ready.
abbrev pub checking : Transceiver
checking = record idle { state = check_queue; connection = some 1; channel = some plain_channel }

abbrev pub recreating : Transceiver
recreating = record checking {
  state = recreate_channel;
  channel = some (record { connection = 1; on_error = some on_recreate_error });
}

abbrev pub listening : Transceiver
listening = record checking {
  state = ready;
  recv_queue = "queue";
  consumer_tag = "tag";
  queue_exist = true;
}

pub idle-IsValid : IsValid idle
idle-IsValid = ground arith

pub checking-IsValid : IsValid checking
checking-IsValid = ground arith

pub recreating-IsValid : IsValid recreating
recreating-IsValid = ground arith

pub listening-IsValid : IsValid listening
listening-IsValid = ground arith

-- The listener while it asks to consume from a queue that it has created.
abbrev pub subscribing : Transceiver
subscribing = record listening { state = create_consumer; queue_exist = false; consumer_tag = "" }

pub subscribing-IsValid : IsValid subscribing
subscribing-IsValid = ground arith
