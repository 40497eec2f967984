-- ===== src/Lib.antt =====
-- A high-performance HTTP/1.1 server, modelled after its source.
--
-- `main` reads the settings from the command line and starts the server. The listener accepts clients;
-- each is a task of the thread pool, or is turned away with 503 where the queue is full. On its
-- connection, the task feeds the bytes that it reads to a parser, routes the request that the parser
-- completes, writes the serialized response, and goes on while the connection is kept alive. The event
-- loop does the same for many connections at once, on their readiness. The files and the code that
-- they follow (paths from the repository's root):
--
--   Status      include/http/status.hpp, src/http/status.cpp: `StatusCode`, `reason_phrase`
--   Request     include/http/request.hpp, src/http/request.cpp: `header`, `has_header`,
--               `content_length`, `should_keep_alive`; Request/Number is `std::stoull`
--   Parser      include/http/parser.hpp, src/http/parser.cpp: `feed` with `parse_request_line`,
--               `parse_headers` and `parse_body`, one definition for each, and helpers for the code
--               behind a test; `reset`; Parser/Trim is `trim`. The proofs: Step (one round of each
--               loop), Carry, Refusals, Stream, Chunks and Pieces (how the stream is cut), Invariant
--               (what the fields hold), Memory (how much is kept), Print and RoundTrip (the text of a
--               request)
--   Response    include/http/response.hpp, src/http/response.cpp: the factory functions; `ok` and
--               `error` are `make_ok` and `make_error` here
--   Serializer  src/http/serializer.cpp: `serialize`; Serializer/Decimal is `std::to_string`,
--               Serializer/Reader is a client's reading of a message, written apart from the code,
--               and Serializer/Framing relates the two
--   Router      include/router/router.hpp, src/router/router.cpp: `route`, `serve_static_file` and
--               their helpers; Router/Files is `is_path_safe`, `get_mime_type` and the path
--               operations of `std::filesystem`; Dispatch, Mounts and Static hold the proofs
--   Config      include/server/config.hpp, src/server/config.cpp: the settings and `parse_args`;
--               Number has `std::stoi`; Options (the printer and the errors) and Ranges hold the proofs
--   Connection  include/net/connection.hpp, src/net/connection.cpp: `read_some`, `read_all`,
--               `read_until`, `write_all`, `close`; Search, Memory and Writing hold the proofs
--   Server      src/server/server.cpp: `handle_connection`, and in Routes `setup_routes`; Reading,
--               Bounds, Exchange (one round) and Conversation hold the proofs. Accept: `start`, `stop`
--               and the accept loops, in steps beside those of the pool; Admission and Shutdown hold
--               the proofs
--   ThreadPool  include/server/thread_pool.hpp, src/server/thread_pool.cpp: `enqueue`, `shutdown` and
--               `worker_loop` as a step relation, with the mutex and the condition variable; Fair and Reach
--               (every state), Wakeups, Hang, Queries and Shutdown hold the proofs
--   EpollServer include/server/epoll_server.hpp, src/server/epoll_server.cpp: the event loop and its
--               handlers; Flushing and Entry (one connection), Everywhere and Events (any events),
--               Exchange, Requests, Visits, Phases and Refinement (against the blocking server) hold
--               the proofs
--   Socket      include/net/socket.hpp, src/net/socket.cpp: the objects and their descriptors under
--               moves; Ownership holds the proof
--   Listener    include/net/listener.hpp, src/net/listener.cpp: `start`, `accept` and `stop` on the
--               table of Socket; Restart holds the proof
--   Main        src/main.cpp: `main`, from the command line to the start of the server and the task of a
--               client; Health holds the proof
--   Base        what the others share: byte strings, searches, maps, loops
--
-- State and data. A `std::string` is a list of numbers, one for each byte. An `unordered_map` is an
-- association list, whose order stands for the order of iteration that the standard leaves open;
-- responses and requests are compared with that order. A parser is the record of its six fields, and
-- its methods take it and return it. An exception is the value `none` where the code catches it.
-- Sizes are numbers without a bound: the limits of the parser keep its own sums far below 2^64, and
-- the one conversion that can overflow, `std::stoull`, has its bound written out.
--
-- Loops. A `while` loop is `loop` (Base/Loop), whose body says whether it leaves the loop or goes
-- round again. It runs on fuel that a measure shows to be enough: four rounds for `feed`, since a
-- round that goes on moves the state forward (Parser/Step, `drive_lem`); the length of the buffer and
-- one more for `parse_headers`, since a round that goes on takes a line off the buffer (`parse_headers_lem`);
-- `n` rounds for the digits of `n`.
--
-- System calls. What `recv` and `send` return is an argument: a list with one result for each call. A
-- function that needs another result when the list is at its end has not returned. `recv` gives no
-- more than it is asked for, and `send` takes no more than it is offered; where a theorem needs this,
-- it is a hypothesis. The handlers of the event loop take one list for `recv` and one for `send` with
-- each event; there the end of a list is `EAGAIN`. The loops of `handle_connection` run on fuel, one
-- more than the results left of `recv` for the inner one, one more than the requests allowed for the
-- outer one; every round that goes on uses up one of these (Server/Reading, Server/Bounds).
--
-- Not modelled: the clock behind `format_date` (its text is an argument of `serialize`); the disk
-- behind `std::filesystem` (the record `FileSystem` is an argument, and `is_regular_file` is taken
-- not to throw); what handlers do outside their response; what the options of a descriptor do, such as
-- their timeouts and `O_NONBLOCK`; the texts of the usage and of the log; the signal handlers of
-- `main`.
pub mod Base
pub mod Status
pub mod Request
pub mod Parser
pub mod Response
pub mod Serializer
pub mod Router
pub mod Connection
pub mod Socket
pub mod Config
pub mod ThreadPool
pub mod EpollServer
pub mod Listener
pub mod Server
pub mod Main
