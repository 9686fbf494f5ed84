-- ===== src/Lib.antt =====
-- Mini-Reactor: an event-driven network library in C++ (epoll, one loop per thread), an HTTP server
-- and client on it, and an application that keeps comments and a blacklist.
--
-- The parts and the files that model them:
-- (Base) the native numbers, lists and byte strings that the parts share, with the C++ library's
--   functions on them (std::find, std::stoi, tolower in the "C" locale, unordered_map).
-- (Net.Buffer) include/reactor/net/Buffer.h and src/net/Buffer.cpp. A vector with two cursors;
--   Append, Retrieve, FindCRLF and ReadFd, whose readv is the list of bytes that it delivered.
-- (Net.Channel) include/reactor/net/Channel.h, src/net/Channel.cpp, and UpdateChannel and
--   RemoveChannel of src/net/EventLoop.cpp. The mask, the index, and the kernel's interest; epoll_ctl
--   is a parameter with the laws of its manual page (Net.Channel.Interest.IsEpoll).
-- (Net.Timers) the timers of src/net/EventLoop.cpp. timers_ is a list in key order, active_ a
--   function, a callback the list of timer calls that it makes.
-- (Net.Connection) src/net/TcpConnection.cpp. Each handler is a function from a connection to its
--   effects and the connection after it; results of system calls are arguments.
-- (Net.Connector) src/net/Connector.cpp, the attempt, its verdict and the back-off, in the same way.
-- (Net.Server) src/net/TcpServer.cpp, HandleRead of src/net/Acceptor.cpp and GetNextLoop of
--   src/net/EventLoopThreadPool.cpp. The functors that wait in the loops are one list, of which each
--   loop runs its own in order; a connection is its number, its descriptor and its loop.
-- (Http.Context and Http.Codec) src/http/HttpContext.cpp and src/http/HttpCodec.cpp. The parser's
--   loop, a grammar (Http.Context.Scan) that it refines, and the codec over it.
-- (Log.Async) src/log/AsyncLogging.cpp. The double buffers; the back end's swap and its writes are
--   steps among the front ends' appends.
-- (Log.Stream) LogStream::FormatInteger of src/log/LogStream.cpp.
-- (Threads.Functors) QueueInLoop, Wakeup and DoPendingFunctors of src/net/EventLoop.cpp, and
--   Threads.TaskPool: src/base/ThreadPool.cpp; what threads do under a lock, as steps in any order.
-- (App.Comments, App.Blacklist and App.Utils) app/repository/CommentRepository.cpp,
--   app/repository/BlacklistManager.cpp and app/common/AppUtils.cpp. App.Comments.Database is the
--   database thread: a batch is a turn, SQLite is the parameter Sqlite with the laws of its
--   documentation (App.Comments.Database.Laws.IsSqlite).
-- (Proxy) src/proxy/ProxySession.cpp with the calls of src/net/TcpClient.cpp and app/proxy_main.cpp
--   that lead to it: two connections, the bytes kept for the upstream, and the flow control. The
--   notices of an empty buffer wait in the loop's queue.
-- (App.Dispatcher) app/dispatcher/HttpDispatcher.cpp: the router and the handlers of requests, each a
--   function of the request, the files and the server. nlohmann::json is the parameter JsonLibrary,
--   with the laws of its documentation (App.Dispatcher.Utf8.IsStrict).
--
-- How they interact: a connection's HandleRead fills a buffer through ReadFd and gives it to the
-- message callback, for an HTTP server OnMessage, which takes requests from it and sends answers. The
-- loop calls the handlers by way of the channels and runs the timers; the connector uses both. The
-- repositories are called by the request handlers.
--
-- Conventions: bytes, sizes and times are native numbers. Where the code relies on a machine
-- integer's width (the timer and comment counters, Content-Length), the wrap-around is written out;
-- sizes of vectors are below 2^63, so sums of sizes do not wrap. A failed assert, an exception and
-- a null pointer are results of their own.
--
-- Fuel: ParseRequest and OnMessage loop on fuel, one more than the readable bytes. A round of the
-- first that goes on takes two bytes at least, and a request one, so that it is enough from every
-- state but kGotAll, where no fuel is. The digits of a number run on fuel, one more than the
-- number. `Shutdown` takes the number of moves that the database thread makes meanwhile; two are
-- enough for it to end, unless the notice was lost (App.Comments.Database.Ending). All other loops
-- are structural.
--
-- Not modelled: the locks as such (a step is what one thread does under a lock), the system calls,
-- the growth of the event vector of the loop, the rest of Acceptor, of TcpClient and of the pool of
-- loops (its threads), the rest of LogStream, Logger, the creation of the table of the comments, and
-- the metrics daemon. A post of a comment is one step, though its number is taken before the slot's
-- lock, and no wait of the database thread ends without a notice. The first group are the operating
-- system's, glue or formatting; the others await their own modules.
pub mod Base
pub mod App
pub mod Http
pub mod Log
pub mod Net
pub mod Proxy
pub mod Threads
