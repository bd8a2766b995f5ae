-- ===== src/Connection.antt =====
-- ngxe_connection.c: what the reader and the writer of a connection share. An error is told to the
-- Perl sub and closes the connection; timers; starting and stopping the reader; stopping the writer.
pub mod Close
pub mod Coherence
use nginx_engine.Base.{
  ℕ, ℤ, pos, negsuc, nonzero, Bool, true, false, not, ◌&&◌, Option, none, some, is_some, List, [],
  ◌∷◌, String, if◌then◌else◌,
}
use nginx_engine.State.{
  Handler, Event, World, Env, ErrorValue, Pointer, null, connection, closed, logged, crashed,
  dummy_handler, reader_handler,
}
use nginx_engine.Callback.{update, callback, callback_cleanup}

abbrev pub timed_out_error : ErrorValue
timed_out_error = record { iv = negsuc 0; pv = "Operation timed out" }

abbrev pub event_error : ErrorValue
event_error = record { iv = negsuc 1; pv = "Event error" }

abbrev pub read_error : ErrorValue
read_error = record { iv = pos 1; pv = "Read error" }

abbrev pub write_error : ErrorValue
write_error = record { iv = pos 1; pv = "Write error" }

abbrev pub not_scalar_error : ErrorValue
not_scalar_error = record { iv = pos 1; pv = "Buffer is not a SCALAR REF" }

abbrev pub unsupported_error : ErrorValue
unsupported_error = record { iv = pos 1; pv = "Unsupported buffer type" }

abbrev pub connect_error : ErrorValue
connect_error = record { iv = negsuc 0; pv = "Connect error" }

-- `ev->handler == ngxe_dummy_handler`
abbrev pub is_dummy : Handler → Bool
is_dummy dummy_handler = true
is_dummy _ = false

-- ngx_del_timer on an event whose timer is set; on any other the code does not call it.
abbrev pub del_timer : Event → Event
del_timer ev = record ev { timer = none }

-- `if (!ev->timer_set && timeout) ngx_add_timer(ev, timeout)`
abbrev pub add_timer : ℤ → Event → Event
add_timer timeout ev =
    if not (is_some ev.timer) && nonzero timeout then record ev { timer = some timeout } else ev

module _ {S : Type 0} where
  -- ngx_destroy_pool: the cleanup handlers run, all of them `ngxe_callback_cleanup`; then the
  -- memory is freed.
  unfoldable pub run_cleanups : List ℕ → World S → World S
  run_cleanups [] w = w
  run_cleanups (cb ∷ cbs) w = run_cleanups cbs (callback_cleanup cb w)

  unfoldable pub destroy_pool : World S → World S
  destroy_pool w = record (run_cleanups w.cleanups w) { pool_alive = false; cleanups = [] }

  unfoldable pub set_error : ℕ → ErrorValue → World S → World S
  set_error cb err w = record w {
    callbacks = update w.callbacks cb (record (w.callbacks cb) { error = err });
  }

  abbrev pub log : String → World S → World S
  log line w = record w { trace = logged line ∷ w.trace }

  unfoldable pub reader_stop : Pointer → World S → World S
  reader_stop null w = log "ngxe_reader_stop() called on a NULL reference" w
  reader_stop connection w = record w {
    read = record (del_timer w.read) { handler = dummy_handler };
  }

  unfoldable pub writer_stop : Pointer → World S → World S
  writer_stop null w = log "ngxe_writer_stop() called on a NULL reference" w
  writer_stop connection w = record w {
    write = record (del_timer w.write) { handler = dummy_handler };
  }

  module _ (e : Env S) where
    -- ngx_close_connection deletes both timers and releases the connection.
    unfoldable pub close_connection : World S → World S
    close_connection w = record w {
      read = del_timer w.read;
      write = del_timer w.write;
      trace = closed ∷ w.trace;
      outside = e.close_connection w.outside;
    }

    -- ngxe_close
    unfoldable pub close : Pointer → World S → World S
    unfolding close_connection destroy_pool
    close null w = log "ngxe_close() called on a NULL reference" w
    close connection w =
        if w.destroyed
        then log "ngxe_close() called on destroyed connection" w
        else destroy_pool (close_connection (record w { destroyed = true }))

    -- `sv_setiv(cb->args[1], …); …; ngxe_callback(cb, 1); ngxe_close(c);`
    unfoldable pub fail : ℕ → ErrorValue → World S → World S
    unfolding set_error
    fail cb err w = close connection (callback e cb true (set_error cb err w))

    -- ngx_handle_read_event(c->read, 0) != NGX_OK
    unfoldable pub handle_read : World S → Bool × World S
    handle_read w = let (ok, s) = e.handle_read_event w.outside in (ok, record w { outside = s })

    unfoldable pub handle_write : World S → Bool × World S
    handle_write w = let (ok, s) = e.handle_write_event w.outside in (ok, record w { outside = s })

    abbrev pub add_read_timer : World S → World S
    add_read_timer w = record w { read = add_timer w.reader_timeout w.read }

    abbrev pub add_write_timer : World S → World S
    add_write_timer w = record w { write = add_timer w.writer_timeout w.write }

    -- The error of a start. Only here is the callback used, which may be NULL.
    unfoldable pub start_error : Option ℕ → World S → World S
    start_error none w = record w { trace = crashed ∷ w.trace }
    start_error (some cb) w = fail cb event_error w

    -- ngxe_reader_start
    unfoldable pub reader_start : Pointer → World S → World S
    unfolding handle_read
    reader_start null w = log "ngxe_reader_start() called on a NULL reference" w
    reader_start connection w =
        let (ok, w') =
          handle_read
            (record w { read = record (del_timer w.read) { handler = reader_handler } }) in
        if ok then add_read_timer w' else start_error w'.reader_callback w'
