-- ===== src/Lib.antt =====
-- A model of mini_server, an HTTP/1.1 file server in C++ with an epoll loop, a pool of worker threads
-- and a pool of database connections, and proofs about it.
--
-- A client's bytes go into the read buffer of its Connection (connection.h, connection.cpp), which cuts
-- them into requests; HttpRequest (http_request.h, http_request.cpp) parses one; HttpResponse
-- (http_response.h, http_response.cpp) answers it with a page or a mapped file, and the Connection keeps
-- what the socket has not taken yet. ThreadPool (thread_pool.h, thread_pool.cpp) runs the requests,
-- TimerHeap (timer_heap.h, timer_heap.cpp) finds idle connections, DatabasePool (database_pool.h,
-- database_pool.cpp) lends the database handles, RequestRouter answers the form posts, and HttpServer
-- ties them together.
--
-- Prelude and its children: names, Boolean tests, lists and options that the parts share.
-- Bytes: `std::string` as a list of byte values, with `find`, `rfind`, `substr` and the scanning loops;
--   Bytes/Decimal is `std::to_string`, Bytes/Integer is `std::atoi`, Bytes/Dict is an unordered map.
-- Connection: the class, one function for each method (`extractOneRequest` is `extract_one_request`).
--   A method that changes the object returns the new one. Children: ContentLength, Framing, Sending.
-- HttpRequest: the class; `parse` returns its result and the new object. The request-line expression is
--   a matcher over its groups. Children: UrlDecode, RequestLine, Trim, Parse, Parse/RoundTrip.
-- TimerHeap: the priority queue is a list in order of expiry. Children: Latest (the table), Tracking
--   (heap and table together), Expiry (one sweep), History (any sequence of calls against the table of deadlines).
-- DatabasePool: handles are numbers. Children: Slots (the leases of the program), Conservation, Init,
--   Closing (what `init` and the destructor close).
-- ThreadPool: tasks are numbers, each stretch of code under the mutex is one step. Children: Trace
--   (the history of its tasks), Drain (the invariant over any interleaving), Join (what `stop` waits for).
-- HttpResponse: status lines, MIME types, mapped files; Page is `build` and `prepare`. Children: Status,
--   Mime, Serving, Agreement.
-- RequestRouter (request_router.h, request_router.cpp): the form posts of registration and login.
--   Children: Fields (`formValue`), Form (the text of a form), Replies.
-- UserService (user_service.h, user_service.cpp): the two statements and their leases. Child: Statements.
-- Logger (logger.h, logger.cpp): the queue of lines and its thread. Children: Order, Shutdown.
-- Epoller (epoller.h, epoller.cpp): what is registered with epoll, and the non-blocking flag.
-- HttpServer (http_server.h, http_server.cpp): the state and what a worker does with a request. Children:
--   Handlers (`handleRead`, `handleWrite`, the idle sweep), Steps (the events and the reachable states),
--   Sending (the loop of `handleWrite`), Phases (where each descriptor stands), Answers (from a request's
--   bytes to its response's), Keeping (what no handler changes), Traffic (what passes through a
--   descriptor), Loop (`eventLoop` and `handleAccept`, against Steps), Config,
--   Listening (`initListenSocket`), Lifecycle (`start`, `stop` and the destructor), Threads (the loop and
--   the workers in steps of one stretch of code under a mutex or one system call, in any order: Ownership to
--   Safety on who has a descriptor, Attended on open connections, Removing on closing, Timed on the timers,
--   Alone on a worker that is not interrupted).
-- Program (server.cpp): the configuration from the environment. Child: Configured.
-- The Tests child of each part runs it on concrete inputs.
--
-- Numbers are unbounded except where the code can wrap: the sum in `extractOneRequest` and the timer's
-- version are taken modulo 2^64. The loop of `HttpRequest::parse` has as fuel the length of the data:
-- each round takes two bytes at least. The loop of `formValue` has one more than the length of the body,
-- that of `handleWrite` one more than the bytes left to send, `to_decimal` one more than the number.
-- The join in the shutdown of the logger has fuel 4: write, take, write, return. Every other loop is
-- structural. `std::atoi` in server.cpp is cut to 32 bits as glibc does.
--
-- Parameters: the time, what the file system, the sockets, epoll and the user service answer, the
-- environment, and the MySQL client; each event has its own answers, so a form that registered a name can
-- be refused by the next. `accept` gives a descriptor that is not open. The code goes wrong when it gives one
-- for which a task of a closed connection still waits or that a worker is still at; the theorems that need
-- this not to happen have it as a condition, `ReusesNone`. EPOLL_CTL_ADD may fail, and `AddsAll` is the
-- condition that it does not. A handler is one step of Steps; what other threads do between its parts is in
-- Threads. Left out: the mutexes (a call of a class is one step), console output, the server's
-- calls of the logger, and the signal handler, which is a request to stop between two rounds of the event
-- loop.
pub mod Bytes
pub mod Connection
pub mod DatabasePool
pub mod Epoller
pub mod HttpRequest
pub mod HttpResponse
pub mod HttpServer
pub mod Logger
pub mod Prelude
pub mod Program
pub mod RequestRouter
pub mod ThreadPool
pub mod TimerHeap
pub mod UserService
