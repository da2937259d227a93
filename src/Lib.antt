-- ===== src/Lib.antt =====
-- ZCCP, the ZeroMQ Command & Control Protocol: the message codec, the broker, the client and the two programs.
--
-- The program. A broker (zccp_server.c with zccp_server_engine.inc) talks to clients through one
-- router socket. Each message goes through the codec (zccp_msg.c, zccp_msg.h): the broker decodes
-- what a client sent, hands it to the state machine of that client, and the actions of the state
-- machine encode replies. SUBSCRIBE stores a regular expression with the client; PUBLISH makes the
-- broker raise a forward event at every client whose expression matches, from inside the
-- publisher's own event, and each of those sends a DELIVER. The client (zccp_client.c with
-- zccp_client_engine.inc) is an actor with a dealer socket and a pipe to its caller: an API call
-- sends a command through the pipe, which the actor turns into an event of its state machine; the
-- actions send messages to the broker, and signal to the caller what the broker answered.
--
-- The files.
--   Base.antt: shared names, Boolean tests, lists measured by native numbers.
--   Czmq.antt: what the code relies on of CZMQ, as a record of operations and documented laws that
--     every other part takes as a parameter: zhash tables of headers, zframe_new, zframe_strhex,
--     zsys_vprintf, zrex_matches, zmsg_print. Czmq/Simple.antt is an instance for the examples. Multipart
--     messages, frames and zlists are lists; the table of clients is a partial function from keys.
--   Codec.antt: the message numbers and the struct; its children are Wire (the PUT_* and GET_*
--     macros), Encode (zccp_msg_encode), Decode (zccp_msg_decode), Access (getters and setters),
--     Dup (zccp_msg_dup), Socket (zccp_msg_recv, zccp_msg_send), Steps (zccp_msg_encode_* and
--     zccp_msg_send_*), Print (zccp_msg_print). Proofs stand in Encode/Size, Decode/RoundTrip,
--     Decode/Content, Decode/Full and Decode/Numbers (content and number of what was encoded),
--     Decode/Lookup (looking headers up in it), Decode/Overlong,
--     Decode/Grammar (zccp_msg.bnf, with two departures, as a relation, which its children compare with the decoder),
--     Print/RoundTrip, Dup and Wires.
--   Server.antt: the broker's state: server_t and s_server_t in one record, client_t and
--     s_client_t in another, with an explicit memory from addresses to client objects, so that a
--     pointer to a freed object is seen. Patterns and Actions have the actions of zccp_server.c and
--     of the engine, Engine has s_client_execute, Reactor the handlers that zloop calls.
--     Invariant says what a well-formed state is, Protocol has the table of answers, Subscribers
--     the relation that the patterns stand for, Reachable the states that a broker can get into.
--     Memory, Outcome, Leave, Join and Requests describe single pieces of the code on a state in a
--     normal form; Forward, Publish, Loops, Publisher, Delivery and Arrival follow
--     a PUBLISH; Step and Handle put the pieces together.
--     Server/Config has the settings of s_server_t with the caller's commands and the watch of the
--     configuration file; trees of zconfig are a parameter.
--   Client.antt: the actor's state, client_t and s_client_t in one record. Actions, Method, Engine
--     and Reactor have the functions of zccp_client.c and of the engine; Protocol has the table of
--     zccp_client.xml, which Step, Signals and Answer compare with the switch; Start is about the state
--     "start", Round about the loop. Invariant, Handle, Pipe and Reachable are about the states
--     that the actor can get into. Api has s_accept_reply and the calls of the class interface on a
--     list of replies, Replies what they return; Relapse is about INVALID while the
--     caller waits, Early about calls before CONNECT.
--   Session.antt: client and broker together. Greet, Subscribe and Publish follow a call of the
--     class interface from the caller's pipe over both sockets and back; Client/Converse and
--     Server/Enroll have one handler's part of that, Server/Admit the two events. Stop is about an
--     expression that is too long for its length octet.
--   Network.antt: a broker and any number of clients, each under a routing id, and the steps that
--     calls, messages and timers make; Network/Safety shows that no handler of it faults, by
--     Server/Sends and the invariants of both sides, Network/Integrity where the contents that
--     callers read come from, by Client/Relay.
--   Programs.antt: Shell has main of zccp_sh.c on the interface of Client/Api, Daemon main of
--     zccpd.c; Reading, Ending and Runs are about runs of zccp_sh, Message about the way of what it
--     publishes. The loop of zccp_sh runs on fuel, of which more than there are replies is enough.
--   Tests, Examples and Network/Scenario hold runs at concrete inputs.
--
-- Outcomes. Encoding answers `none` where the C code writes behind a frame or fails an assertion.
-- In the broker and the client `fault` is a read through a NULL or dangling pointer or outside of a
-- table, or a failed assertion, and `stuck` says that the fuel ran out, or that client_method waits
-- for a command that it can take parts from. Fuel bounds the rounds of the loop in s_client_execute and
-- the depth of events that clients send each other. A call of the client's interface returns, or
-- waits for a reply that the list does not have.
--
-- Taken for granted: memory does not run out, sizes stay far below 2^64, zmsg_send takes what it
-- is given. The loops of forward_to_subscribers run over the lists as they find them; the events
-- that they send leave the lists as they are. Ids of timers and addresses of objects count up and
-- are not used again.
--
-- Not modelled: logging but for zccp_msg_print and the names that the broker takes for its log from
-- the table of events, the selftests, which are runs of the other parts at
-- fixed inputs, the freeing of memory that nothing points to, and the bindings in other languages.
pub mod Base
pub mod Czmq
pub mod Codec
pub mod Server
pub mod Client
pub mod Session
pub mod Network
pub mod Programs
