-- ===== src/Server.antt =====
-- ngxe_server_create and ngxe_server_init_connection of ngxe_connection.c.
pub mod Laws
use nginx_engine.Base.{ℕ, pos, String, Bool, true, false, Option, none, some, ◌+◌, if◌then◌else◌}
use nginx_engine.State.{World, Env, connection, dummy_handler}
use nginx_engine.Callback.{callback, update}
use nginx_engine.Connection.{close, log}
use nginx_engine.Client.{htons}
use nginx_engine.Listen.{
  Listening, inet, Host, Net, note, create_listening, open_listening_socket,
  add_listening_connection,
}

module _ {S : Type 0} (h : Host S) where
  -- Lines 1462 to 1484, with a listening structure.
  unfoldable pub start_listening : Listening → Net S → Option Listening × Net S
  start_listening ls n =
      let (ls', n') = open_listening_socket h (record ls { pool_size = 256 }) n in
      let (ok, added, m) = add_listening_connection h ls' n' in
      if ok then (some added, m) else (none, note "ngx_ngxe_add_listening_connection(ls) failed" m)

  unfoldable pub with_listening : Option Listening → Net S → Option Listening × Net S
  unfolding start_listening
  with_listening none n = (none, note "ngx_ngxe_create_listening returned NULL" n)
  with_listening (some ls) n = start_listening ls n

  -- ngxe_server_create. `memory 0` says whether the pool was created, `memory 1` and up whether
  -- the allocations from it succeed.
  unfoldable pub server_create : (ℕ → Bool) → ℕ → ℕ → Net S → Option Listening × Net S
  unfolding with_listening create_listening
  server_create memory addr port n =
      if memory 0
      then if memory 1
        then with_listening
            (create_listening h (λ i. memory (i + 2)) inet
              (record { addr = addr; port = htons port }))
            n
        else (none, note "ngx_pcalloc(pool, sizeof(struct sockaddr_in)) returned NULL" n)
      else (none, note "ngx_create_pool(256, cycle->log) returned NULL" n)

-- The session that ngx_pcalloc returns: no callback, no buffer, all numbers 0.
abbrev pub empty_session : {S : Type 0} → World S → World S
empty_session w = record w {
  has_session = true;
  reader_callback = none;
  has_reader_buffer = false;
  reader_timeout = pos 0;
  reader_flags = pos 0;
  writer_callback = none;
  has_writer_buffer = false;
  writer_timeout = pos 0;
  writer_offset = 0;
  writer_index = 0;
}

module _ {S : Type 0} (e : Env S) where
  -- ngxe_server_init_connection. `cb` is the callback of the listening connection, `address` the text
  -- of the peer's address, which `args[1]` is set to; `memory` says whether the allocation succeeds.
  unfoldable pub server_init_connection : Bool → ℕ → String → World S → World S
  server_init_connection memory cb address w =
      if memory
      then (let s = empty_session w in
          callback e cb false (record s {
            read = record w.read { handler = dummy_handler };
            write = record w.write { handler = dummy_handler };
            callbacks = update w.callbacks cb (record (w.callbacks cb) {
              error = record (w.callbacks cb).error { pv = address };
            });
          }))
      else close e connection (log "s = ngx_pcalloc(c->pool, sizeof(ngxe_session_t)) failed" w)
