-- ===== src/Lib.antt =====
-- Messi: reliable message passing between a server and its clients, from C code that is generated
-- from the templates of this repository.
--
-- The parts, and the files that model them:
--
-- * lib/include/messi.h and lib/src/messi.c, the library that the generated code uses. Header.antt has
--   the message header (messi_header_set_size, messi_header_get_size, messi_header_create), Uri.antt
--   the URI parser (messi_parse_tcp_uri), Reason.antt the reasons for a disconnect.
-- * The input buffer that each connection has, and the body of the read loop over it, which the four
--   templates share: Input.antt. Input/Frames.antt has the format of the stream in README.rst, to which
--   the loop is compared, Input/Bytes.antt the bytes in the buffer, and Input/Receive.antt the comparison
--   of one round.
-- * messi/c_source/templates/linux/client.c and client.h: Linux/Client. State.antt has
--   `struct NAME_client_t` and sending, Socket.antt the messages from the server (process_socket),
--   Connect.antt the timers and connect_to_server, Api.antt the functions that the user calls
--   (NAME_client_init, _start, _stop, _process). Life.antt is the loop of a program around them.
--   Callbacks, Rules, Handling, Delivery, EndToEnd, Resources, KeepAlive, Reconnect and Life hold the proofs.
-- * messi/c_source/templates/linux/server.c and server.h: Linux/Server. Links.antt has the three linked
--   lists of clients on a heap of `next_p` and `prev_p` fields; its children refine them to lists.
--   State.antt has `struct NAME_server_t` and client_pending_disconnect, Output.antt the queue of bytes to
--   a client (client_write, process_client_socket_out), Send.antt sending and the callbacks,
--   Messages.antt the messages from a client (process_client_socket), Accept.antt new connections
--   (process_listener) and Api.antt NAME_server_init, _start, _stop and _process. Life.antt is the loop
--   of a program around them. Output/Stream, Output/Write, Output/Flush, Output/DoubleFree,
--   Output/Moves, Broadcast, Resources, Lists, Rules, Spares, Handling, Rounds, Delivery, Orderly and Life
--   hold the proofs.
-- * messi/c_source/templates/async/client.c and client.h: Async/Client. State.antt has
--   `struct NAME_client_t` and sending, Handlers.antt what the framework calls, Api.antt NAME_client_init
--   and _stop, Lifecycle.antt what may happen to a client. UnderWay, Handling, Delivery, KeepAlive and
--   Reconnect hold the proofs.
-- * messi/c_source/templates/async/server.c and server.h: Async/Server, with State, Handlers and Api
--   like the client's. Acting, Handling, Rounds, Delivery, Deaf and Unset hold the proofs.
-- * The programs of examples/chat, in Chat. Client.antt has the callbacks and the line editor of
--   client/linux/main.c and client/async/client.c, Client/Program and Client/AsyncProgram how they run on
--   the models of the two clients (main, client_init, client_user_input); Server.antt has the callbacks
--   of server/linux/main.c, and Server/Program its main. Client/Line, Client/Buffer, Server/Everyone and
--   Server/Program hold the proofs.
-- * The programs of examples/my_protocol, in MyProtocol: Client.antt has client/linux/main.c and
--   client/async/client.c, Server.antt server/linux/main.c; Server/Replies and Server/Answers hold the proofs.
-- * The Linux client and the Linux server together, in System: what one sends is what the other reads.
--   ClientToServer, Follows, Stream and ServerToClient hold the proofs.
-- * Input/Reading.antt has the argument for a read loop over any state, and Protocol/Messages.antt the
--   messages in a stream of frames, which the four programs share.
--
-- The operating system is a parameter (Kernel.antt): a world holds the answers that the coming calls
-- will get, any answers being possible, and the log of the calls that were made. A descriptor is an
-- optional number, `none` being -1. `read` and `write` of a non-blocking socket answer from a list, and
-- behind its end with EAGAIN, so the read loop recurs on that list and takes no fuel. The contract of
-- `read`, that it returns between one byte and as many as asked for, is a hypothesis (`FitsReads`).
-- The code that is generated for a protocol by another tool is a parameter too (Protocol.antt). The
-- user's callbacks may look at the client or server and its log, and may send messages; those of the
-- server may also reply, broadcast and disconnect. A callback that stops the client or the server is
-- not modelled. A walk along a list of clients takes as many rounds as there are clients, which is
-- enough for a list without repetitions. Sizes are numbers without a bound, but for the 24 bits of the
-- header and the difference of sizes in NAME_client_send and encode_user_message; the size of a queued
-- item stops at 0, as it does when `write` answers at most the count given.
--
-- The framework `async`, which the async programs run on, is not part of this repository and is a
-- parameter: each call of it is an entry of a log, what its reads return is a list of bytes for each
-- read, any being possible, and an empty one is a read of 0 bytes; that a read gives no more bytes
-- than it is asked for is a hypothesis (`AsyncFitsReads`, `ServerFitsReads`). What the framework
-- calls, and when, is a relation between states (`Step`): a connect that was asked for ends once, a
-- timer that runs expires once, a posted call is made once, and the connection may be lost or give
-- input at any time. A pointer to a function is a flag that says whether it is set, and going
-- through one that is not sets the fault flag of the server.
--
-- A program around the library is a list of turns (Kernel.antt, `Turn`): what `epoll_wait` reports each
-- time, with the answers of the calls that follow. The list is as long as the program runs; its end
-- is the failure of `epoll_wait`. In System the network is an equation: the bytes that the one side
-- reads are those that the other has written to its descriptor.
--
-- Not modelled: the Python code and the generator, which put names into the templates; what the
-- examples print, and the thread of examples/chat/client/async/main.c that reads the terminal; the
-- async chat server, which does not compile as it stands; the wrappers of epoll_ctl and fcntl in
-- lib/src/messi.c, which only call the operating system. `exit` in a callback of my_protocol ends the loop
-- of the model, or the async client, after the event, and what the library would still do in that event
-- is not cut off.
mod Base
pub mod Header
pub mod Uri
pub mod Reason
pub mod Kernel
pub mod Protocol
pub mod Input
pub mod Linux
pub mod Async
pub mod Chat
pub mod MyProtocol
pub mod System
