-- ===== src/Lib.antt =====
-- nd, the server "ndsim": an http server on libevent that hands a request, by its command number,
-- to a function which asks a backend over http, with a logger of its own and a list of events
-- between threads.
--
-- The parts, how they interact, and the files that model them:
--
-- Log (src/log.cpp, src/log.h). A call of log_printf builds one line in _log_temp_buf, cuts it to
-- what is free in one of two byte rings (the .wf ring for WARNING and FATAL), and copies it there
-- under a mutex. The log thread, woken through a pipe, drains both rings into their files.
-- - Log/Line: the row of snprintf calls (format), each on the rest of the buffer (Cursor, emit).
-- - Log/Data: the keys and values that a caller hands to log_printf, a chain of nodes of sixteen.
-- - Log/Ring: a ring as a record of its bytes and its two offsets; put_line is the second half of
--   log_printf, drain one round of log_thread_loop on one ring. An access outside a buffer is a
--   fault, `none`. The offsets that a round reads without the lock are separate values (Seen).
-- - Log/Printf: log_printf and log_base as wholes, with the level and the choice of the ring.
-- - Log/Levels: the levels and the macros of log.h on them.
-- - Log/Thread: the body of log_thread_loop: the reopening of files, both rings, the flush.
-- - Log/Session: calls of log_base and rounds of log_thread_loop, in any order (in
--   Log/Session/Room, as long as the rings have room).
-- - Log/Wake: the pipe by which calls wake the thread, in steps: a call's store and its write, the
--   thread's read and its round.
-- - Log/Setup: log_read_conf and log_init, by which the variables of the logger come to be.
--
-- Event (src/event.cpp, src/hash.h). event_trigger puts the hash of a name with a value into a list
-- that many threads may add to; custom_event_cb, in the thread of the event loop, takes them out
-- and calls the callback that event_listen has set for the hash.
-- - Event/TsList: the list over an explicit heap. list_produce is cut into its seven writes, so
--   that list_consume, which takes no lock, can run between any two (Run: Step, Reach).
-- - Event/Custom: event_listen, event_trigger and custom_event_cb; event_init in Event/Custom/Setup.
-- - Event/Socket: event_connect by a name and a port. Event/Buffer: the functions that hand their
--   arguments to libevent: buffered events, listeners, the loop.
-- - Event/Timer: event_timer_new, my_timer_cb and event_timer_free over explicit memory.
-- - Hash: MurmurHash64A with wrapping 64-bit operations, bytes as numbers, little-endian words.
--
-- Http client (src/http_client.cpp, src/http_client.h).
-- - HttpClient/World: what libevent holds for the client: live uris and connections, bases that
--   were told to exit, requests made. Freeing what is not live is a fault.
-- - HttpClient/Request: start_http_request, the callbacks with their redirection, and
--   http_request_free, in the order of the source's calls.
--
-- Requests (src/req.cpp, src/function.cpp, src/ndsim_define.h).
-- - Req/Post: get_post_data. Req/Timer: the product that req_new hands to event_timer_new.
-- - Req/Handler: timeout_handler, failure_process, search, search2 and test_backend.
-- - Req/Dispatch: http_handler: the command number, the switch, the reply. Req/Serving: requests one
--   after the other.
-- - Req/Memory: http_handler over the memory that req_new takes and req_free gives back: the req_t,
--   its timer and the event of that, the response buffer; what malloc and evbuffer_new answer is
--   given.
-- - Req/Logs: what http_handler and get_post_data log, in order, and how it reaches the two files
--   (Req/Logs/Files: the parts together, from log_init on).
--
-- File (src/file.cpp): dirname and basename, by which main finds the directory and the name of the
-- configuration (File; what the loops pass over in File/Scan), and create_dir, create_parent_dir,
-- scan_dir, file_exists and file_size over a file system (File/System).
--
-- Server (src/server.cpp): read_conf with its defaults, server_run and server_init (Server), and
-- the same with the requests that come in the loop (Server/Loop), which is where the configuration's
-- timeout meets req_new.
--
-- Main (src/main.cpp, req_init of src/req.cpp): the stages of the start, each with its early return
-- (Main), from the arguments to the status of the process, and the same with the requests that come
-- (Main/Loop). Main/Ended is about a run in which no request comes.
--
-- What is given rather than modelled: evhttp_uri_parse is a parameter; the hash map of bsl is a
-- parameter with its laws (Event/Custom: HashMap), for which Tests/Lists has an instance; the file
-- system is one too (File/System: FileSystem), with what is relied on of mkdir and access
-- (File/System/Dirs: IsLawful) and an instance in Tests/Files; what getaddrinfo finds and libevent
-- makes of an address is the record Network (Event/Socket), its functions on buffered events the
-- record Libevent, with what it documents of their input (Event/Buffer: Inputs) and an instance in
-- Tests/Buffers; what the configuration holds and what the operating system answers at the start
-- are records (Log/Setup, Server, Main); what malloc and evbuffer_new answer, what a loop of libevent
-- comes to, what fwrite, stat and fopen answer and what vsnprintf makes of the
-- message are arguments of the operations that depend on them. In Req, event_base_loopexit is
-- taken to end the loop before the next callback.
--
-- What counts as a fault, `none` (in Req/Memory a result of its own): reading through null, using or
-- freeing what is not live, reading or writing outside a buffer of the logger, and an overflow of
-- an int, which is undefined. One such write goes on: sprintf writes the path and the query past
-- the end of their block (get_target). It is in every get request for a uri with a path, and what
-- follows is what is seen where the allocator rounds blocks up, so World counts its bytes in
-- `overrun`; where a theorem on requests says that there is no fault, it does not speak of it,
-- unless it says how many bytes are written.
--
-- Bounds and fuel: numbers are natural numbers, and the sizes that the code takes modulo a power
-- of two are written with their modulus. The rings have any capacity below 2^64, the code's is
-- log_buf_size. custom_event_cb, whose loop runs as long as there are items, runs on fuel, of
-- which one more than there are items is enough. The walks over a chain of log_data_t nodes
-- run on fuel too, of which more than the number of nodes is enough, and so does the recursion of
-- create_parent_dir, of which more than the number of slashes in the path is enough. Memory is
-- sequentially consistent: the list's writes take effect in the order of the source.
--
-- Not modelled: event_gettime, a failing event_base_new, what is printed, what the parts other than
-- src/req.cpp log on the way (print_request_head_info and print_uri_parts_info of
-- src/http_client.cpp, which nothing calls, do no more), and arguments of main without a name of the
-- program in front.
--
-- Base has what the parts share: Boolean tests, lists over the native numbers, text as byte codes.
-- Tests has examples on concrete states.
pub mod Base
pub mod Event
pub mod File
pub mod Hash
pub mod HttpClient
pub mod Log
pub mod Main
pub mod Req
pub mod Server
mod Tests
