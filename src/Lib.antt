-- ===== src/Lib.antt =====
-- Nginx::Engine: a Perl interface to nginx's event loop. This library is about its C code.
--
-- The program's parts. A connection has a reader and a writer (ngxe_connection.c). nginx calls the
-- reader's or the writer's handler when its socket is ready or its timer has expired. The reader
-- fills a Perl scalar and calls a Perl sub through a callback (ngxe_xs.c); if the sub leaves
-- something in the write buffer, the reader stops and the writer starts, and when all is written the
-- writer's sub is called and the reader starts again. Intervals and timeouts (ngxe_timer.c) are
-- connections that only carry a timer. ngxe_ngx.c starts nginx and opens listening sockets. Perl code
-- reaches all this through the functions of Engine.xs; ngxe_bufs.c makes scalars for it.
--
-- The files. State holds the data: `World` is one connection with its session
-- (ngxe_connection.h), its two events, the callbacks in its pool, Perl's reference counts and some
-- records of the past: the bytes sent and received, the calls of subs, the lines of the log. `Env` is
-- what the program calls: recv, send, the event functions of nginx, Perl's call_sv. Nothing is assumed
-- of it but what a theorem's hypotheses say.
--   Callback              ngxe_callback, ngxe_callback_dec, ngxe_callback_cleanup (ngxe_xs.c)
--   Connection            ngxe_close, the error path, ngxe_reader_start, ngxe_reader_stop,
--                         ngxe_writer_stop (ngxe_connection.c)
--   Reader                ngxe_reader_handler
--   Writer                ngxe_writer_handler, its guards and dispatch, and ngxe_writer_start
--   Writer.Plain          ngxe_writer_handler on a string
--   Writer.Scalar         ngxe_rvpv_writer_handler
--   Writer.Offset         the offset in a scalar, an `int`, and the bytes behind it
--   Writer.Array          ngxe_rvpvav_writer_handler
--   Timer                 ngxe_interval_callback, ngxe_timeout_callback (ngxe_timer.c), and the
--                         clearing of both (Engine.xs)
--   Client                ngxe_client_init_handler, ngxe_create_peer
--   Listen                the three listening functions (ngxe_ngx.c)
--   Server                ngxe_server_create, ngxe_server_init_connection
--   Boot                  ngx_ngxe_init and what it calls of ngxe_ngx.c
--   Api                   what the functions of Engine.xs share; its children model them:
--   Api.Creation          the making of a callback in ngxe_reader and ngxe_writer
--   Api.Reader            ngxe_reader, its timeout, starting and stopping
--   Api.Writer            ngxe_writer, its timeout, starting and stopping, the write buffer, ngxe_close
--   Api.Calls             these functions as one type of calls
--   Api.Timers            ngxe_interval_set, ngxe_timeout_set and the clearing of both
--   Api.Ticking           the expirations of a timer between setting and clearing it
--   Api.Clients           ngxe_client
--   Api.Servers           ngxe_server
--   Api.Process           ngxe_init, ngxe_loop, the size of the read buffer
--   Bufs                  ngxe_bufs.c with NGXE_READER_USE_BUFS
--   Bufs.Plain            ngxe_bufs.c without it, and ngxe_buf, ngxe_buffree and ngxe_newSV of Engine.xs
--   Life                  a connection's events and calls in any order; Life.Reading and
--                         Life.Dialling go from ngxe_reader and ngxe_client to the first event
--   Life.Echo             a connection whose subs send back what they read: its events one after the
--                         other (Life.Echo.Events), the calls that open it in eg/echo-server.pl
--                         (Life.Echo.Opening), and both from the accepted connection on
--                         (Life.Echo.Accepted)
--   Life.Settled          the reference counts from ngxe_reader over the events to the end of the
--                         connection; Api.Debts is what the cleanup handlers have to give back
--   Tests                 runs on a small system, and the theorems applied to it
-- The other child modules hold proofs and are named for what they prove.
--
-- Jumps and fuel. A `goto` is a value of a type `Jump`, and a loop follows the jumps, each round on
-- one unit of fuel; `none` means that the fuel has run out. A handler goes on as long as the
-- socket is ready and the sub has something to say. So the theorems that a handler returns ask for a
-- bound of how often that is so (`left`, `pending`) and give the fuel that is enough by it.
-- The loop for the shift of the page size halves a number; the number itself is enough fuel.
--
-- Scalars are named by numbers, and a call of Engine.xs takes the names of those that it makes, and
-- whether each allocation from a pool succeeds, from a `Supply`. The references that a call leaves to the
-- end of its statement (sv_2mortal) are in `mortals`, and `free_temps` gives them back.
--
-- Not modelled: the HTTP handlers that ngxe_connection.h declares, ngxe_SvGROW of
-- Engine.xs, which only calls SvGROW, and debugging output.
-- The counts of references leave out what a reference in the write buffer adds to the count of what it
-- refers to. Arrays have no holes, and fewer than 2 to the 31 elements.
-- nginx/ is another project; of it only the loop of ngx_destroy_pool over cleanup handlers and
-- the call of the handler of an expired timer are modelled. eg/ and t/ are Perl; the model has the two calls that open a
-- connection in eg/echo-server.pl. The pure Perl implementation lib/Nginx/Engine/PP.pm is a program of its own.
pub mod Base
pub mod State
pub mod Callback
pub mod Connection
pub mod Writer
pub mod Reader
pub mod Timer
pub mod Client
pub mod Listen
pub mod Server
pub mod Boot
pub mod Api
pub mod Bufs
pub mod Life
mod Tests
