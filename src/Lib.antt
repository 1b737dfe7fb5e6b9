-- ===== src/Lib.antt =====
-- librapid: a library of TCP servers and clients on Linux, one epoll loop per thread. This
-- development models the library's own code (src/*.cpp and include/rapid/core/*.h).
--
-- The program's parts and the files that model them:
-- - src/uuid.cpp, include/rapid/core/uuid.h: Uuid (parse_uuid_string, fromString, operator<<, hash,
--   operator==). A text is a list of character codes; fromString gets the memory from its pointer on.
-- - include/rapid/core/unique_handle.h, file_desc.h: Handle. Freed values go on a list. The comparison
--   operators are in Handle/Order, and sequences of operations on two owners in Handle/Ledger.
-- - include/rapid/core/exception.h: Outcome, the way a member function ends: a result, an exception
--   with the state that it was thrown in, or stuck where C++ leaves the behaviour undefined.
-- - include/rapid/core/channel.h, src/channel.cpp: Channel, a descriptor with its event mask, its
--   state and its handlers. A handler is named by the lambda that it is and the object it captures.
-- - src/epollpoller.cpp: Poller (updateChannel, removeChannel, update and the calls of Channel that
--   lead to them), and in EventLoop poll.
-- - src/eventloop.cpp: EventLoop, the rounds of the loop thread, start, stop and wakeup; the
--   constructors are in EventLoop/Build, and in EventLoop/Threads stands the loop thread beside a
--   thread that calls stop, one atomic step at a time.
-- - src/eventlooppool.cpp: LoopPool, the turns of nextLoop.
-- - src/tcpconnection.cpp, src/buffer.cpp: Connection, with the getters of a buffer in
--   Connection/Buffer and one handleRead after the other in Connection/Stream.
-- - src/acceptor.cpp: Acceptor. src/connector.cpp, with the address of src/inetaddress.cpp and the
--   getSocketError of include/rapid/core/utility.h: Connector. src/tcpserver.cpp: Server.
--   src/tcpclient.cpp: Client. Server/Threads has the threads around the mutex of the server, one
--   atomic step at a time, and Server/Registry the clients with the order of their list forgotten,
--   against which Server/Refines holds the turns of Server/Turns: one handler of the channel of
--   the acceptor or of a connection, with what it means for the clients.
-- - include/rapid/core/tcpconnection.h, which is enable_shared_from_this: Lifetime, the shared pointers
--   to one connection of a server in the code of tcpconnection.cpp and tcpserver.cpp, by where a
--   pointer is copied and dropped and where a member is accessed; and in Lifetime/Cycle those between
--   a client and its connection in tcpclient.cpp.
-- - include/rapid/core/memory.h: Memory, the alignments of makeShared and its allocator.
-- - src/inetaddress.cpp: InetAddress, by the bytes of the address; Connector keeps the host and the
--   port. include/rapid/core/utility.h, getNanoTime: Utility.
-- - src/stacktrace.cpp, src/exception.cpp: StackTrace, the text of a backtrace, and the actions of
--   signals. src/logger.cpp: Logger. src/openssl.cpp: Openssl, with
--   SSLLibInit in Openssl/Init. What libc, spdlog and OpenSSL do is
--   a record of parameters in each.
-- - src/main.cpp: Program, with the constructors and the destructors of the server and the client;
--   Program/Early has a connection that comes in before the handlers are set, Program/Echo requests
--   and their answers.
-- - Handlers ties the closures together: what a channel runs on an event, and the handlers that the
--   server and the client install, which call back into them; Server/Steady and the modules
--   below Handlers are about what they all leave as it was, up to the rounds of a loop, and in
--   Handlers/Session about a connection of a server from its first event to its last.
--
-- A channel belongs to a loop, a connection and an acceptor to a channel; World holds the objects
-- at their addresses, and the operating system, whose calls are the record Kernel, a parameter of
-- every definition that makes one. What a theorem relies on of epoll_ctl is the record EpollCtl of
-- Kernel, and what one relies on of socket and close is Descriptors, to which Dials of
-- Connector/Leaks adds connect: documented behaviour, and Tests has tables of registrations and of
-- descriptors for which it holds. In the same way Registry of Logger/Names says what is relied on
-- of spdlog, and References of Openssl/Contexts what of OpenSSL.
-- Prelude has the shared names, the tests on numbers, the type of a C int and the laws of bit
-- operations; Tests has the theorems at concrete inputs.
--
-- Bounds: `Handlers.call` runs closures to a given nesting depth and is stuck with call_depth beyond
-- it; `EventLoop.run` runs so many rounds and ends unfinished after them. The theorems name the depth
-- or the rounds that they need (two nested closures for a close by the peer, one test of the loop for
-- a stop); a connect comes to its end at depth 1 and gives the same at any greater one. All other
-- functions end by themselves.
--
-- Not modelled: threads that interleave inside a member function, but for a stop of a loop and the
-- mutex of the server; reference counts of shared_ptr but for those of Lifetime, which World does
-- not have; log output, the peer's address of a connection, and the copy of spdlog. `assert` is
-- compiled out. size_t has 64 bits, and a char is its code.
pub mod Prelude
pub mod Outcome
pub mod Kernel
pub mod Handle
pub mod Channel
pub mod Poller
pub mod Utility
pub mod Uuid
pub mod World
pub mod Connection
pub mod EventLoop
pub mod Lifetime
pub mod LoopPool
pub mod Memory
pub mod Acceptor
pub mod Connector
pub mod Server
pub mod Client
pub mod Handlers
pub mod InetAddress
pub mod StackTrace
pub mod Logger
pub mod Openssl
pub mod Program
pub mod Tests
