-- ===== src/Lib.antt =====
-- amqpasio, a wrapper of AMQP-CPP with asynchronous input and output by boost::asio.
--
-- The parts of the program and the files that model them:
--
-- * Transceiver (src/AmqpTransceiver.hpp, src/AmqpTransceiver.cpp), the state machine of one AMQP
--   channel. Transceiver.antt has the states, exit codes and members; a pointer is an Option, and
--   the field `calls` lists what was asked of AMQP-CPP and of the application, the newest call
--   first. Transceiver/Machine.antt is `StateMachine()`: `enter` is the switch, with one function
--   for each case, and `machine` repeats it for the calls that `StateMachine()` makes of itself. Its
--   fuel is three passes, which is enough because it calls itself twice at most.
--   Transceiver/Replies.antt has the lambdas that the code leaves with AMQP-CPP: a `Reply` names a
--   lambda with its arguments, `dispatch` is its body. Transceiver/Control.antt has `start`, `stop`,
--   `drop`, `send` and the setters. A result `fault` is a null pointer followed. The proofs are in
--   Transceiver/Invariant, Runs, Diagram, Progress, Protocol, Late, Sending, Publishing, Receiving,
--   Bounds and Leaving. Transceiver/Printing.antt has the names by which the states are printed.
-- * Connector (src/AmqpConnector.hpp, src/AmqpConnector.cpp). Connector/Machine.antt has the members
--   and the list of transceivers, `async_start`, `stop`, `onConnected` (`connect`) and `onShutdown`
--   (`disconnected`); what they ask of the connection handler is an argument, `stopped()` and
--   `amqp_error()`. The proofs are in Connector/Shutdown.antt. Connector/Loops.antt has `open` and
--   `close` for one transceiver, Connector/Waiting.antt the proofs. The loops over `run_one` take
--   the replies from a function, the broker, which may depend on all that the transceiver has asked
--   before; their fuel is eleven replies, which is enough because each answer lowers `rank`, and
--   this is eleven at most. Connector/Service.antt has what waits for all transceivers, `run` and
--   the function that `stop` posts (`posted`; `finish_stop` is what this does after its loop), and
--   `send`. There the event loop is a function that gives the next `Delivery`, for a transceiver of
--   the list or for the connector; the wait for one transceiver has the fuel of eleven deliveries
--   for each transceiver of the list, which is enough because each answer lowers the sum of the
--   ranks. The proofs are in Connector/Service/Returning, Rounds, Settling, Places, Resting,
--   Closing, Losing, Breaking, Sending and Leading. Connector/Network.antt puts the connector and
--   its connection handler together, for `start`: each calls the other as the code does. Its fuel is
--   two handlers, one for the resolver and one for the socket. The proofs are in
--   Connector/Network/Outcomes.antt, Starting.antt and Session.antt, the last one for `start` and
--   then `run`.
-- * ConnectionHandler (src/AmqpConnectionHandler.hpp, src/AmqpConnectionHandler.cpp), the TCP
--   connection. ConnectionHandler.antt has the states and members; `incoming` lists the handlers
--   that the event loop is going to call. ConnectionHandler/Machine.antt and Input.antt have the
--   operations and Shutdown.antt the state `eShutdown`, which runs the event loop and so the
--   operations again: these take the shutdown as the argument `sm`, and the fuel of `shut_down`
--   counts how deep shutdowns are nested. One more than the length of `incoming` is enough because
--   each shutdown within another has taken a handler from it, and one more than the length of the
--   input is enough for the loop of `onRead` because each pass uses up bytes. The proofs are in
--   Returning, Output, Fuel, Totality, Stopping, Twice, Early (before the connection is made),
--   Stream (the input as a stream of bytes) and Diagram (the diagram of the states in the class's
--   comment).
-- * JsonConverter (src/AmqpJsonConverter.cpp, and `send` of a document in src/AmqpTransceiver.cpp)
--   is JsonConverter.antt.
-- * AutoReconnect (src/AutoReconnect.hpp, src/AutoReconnect.cpp), which wraps a Connector and
--   connects it again. AutoReconnect.antt has its members and operations over a `Link`, the members
--   of Connector that it sees; a callback is known by a number, and the calls are recorded, the
--   newest first. The fuel of `restart` is one call, which is enough where `restart` is not its own
--   backup. The proofs are in AutoReconnect/Sessions.antt and Restoring.antt.
-- * Client.antt has AutoReconnect with the whole Connector in the place of the `Link`, and an
--   application whose started callback is a function over both, so that it may call them back. The
--   exit callbacks that a call of the connector makes are handled when this call has returned, which
--   comes to the same because a connection that is lost while a call waits is not lost again in this
--   call, so that a call makes one exit callback at most and reads nothing afterwards that this
--   changes. An `Event` is a call of the application or of the event loop, and `run_events` handles
--   them one after the other; `finishes` is the function that `stop` posts. The proofs over all
--   events assume of the loops inside a call only what `MayCome` says, that a reply is delivered
--   where it may come; of a call whose wait has used up its deliveries, eleven for each transceiver,
--   they say what it has done until then. `call_exit_cb` has fuel for one call of `restart`, and
--   `exhausted` is that it would call itself, or that a wait has used up its deliveries. The proofs
--   are in Client/Callbacks.antt, Waiting.antt, Restoring.antt, Refusing.antt and First.antt (the
--   first connection), Forgetting.antt, Keeping.antt and Safety.antt (null pointers), and
--   Hearing.antt, Simulating.antt and Refinement.antt (what the wrapper hears of its connector, and
--   that it goes as AutoReconnect.antt says), and Backing.antt and Owning.antt (the exit callback of
--   the application), and Halting.antt and Ending.antt (the end of a session that is stopped).
-- * Programs.antt has what the example programs (examples/sender.cpp, examples/receiver.cpp) share,
--   Programs/Sender.antt and Programs/Receiver.antt the programs over Client.antt; what is printed
--   is a list of lines, the newest first. The proofs about the sender are in
--   Programs/Sender/Sending.antt, Stopping.antt, Running.antt, Reporting.antt, Main.antt and
--   Safety.antt, those about the receiver in Programs/Receiver/Listening.antt, Main.antt,
--   Receiving.antt and Safety.antt.
--
-- What is not code of the repository is a parameter. AMQP-CPP gives the replies, which `Timely`
-- assumes to come only while they are awaited, for the handlers that do not look at the state
-- themselves, and to name queues by names that are not empty; its parser comes with each read and is
-- assumed to use up no more bytes than it is given; its flags are names. boost::asio calls handlers
-- in any order that `incoming` or the broker gives, and `has_peer` says whether a socket has another
-- side. RapidJSON is a record of operations, assumed to read back what it writes, and its
-- PrettyWriter a function.
--
-- Not modelled: that the loop of `Connector::run` may call the function that `stop` posts, or a
-- timer, while it waits (there `run_one` delivers replies and the end of the connection); the
-- lifetime of the objects, whose destructors stop them, and the members that these destroy; the
-- pointer `m_connectionHandler`, which `async_start` sets and replaces, so that what is said of null
-- pointers is said of channels and of the AMQP connection; the log output of debug builds; threads,
-- which the code does not support; a callback of the application that calls back into the library,
-- but for the started callback of AutoReconnect; the usage message of the sender, and the build
-- files. A `std::function` is kept only as whether it is set, but for the callbacks of AutoReconnect
-- and of the example programs.
pub mod Base
pub mod Transceiver
pub mod Connector
pub mod JsonConverter
pub mod ConnectionHandler
pub mod AutoReconnect
pub mod Client
pub mod Programs
