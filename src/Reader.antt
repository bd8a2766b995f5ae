-- ===== src/Reader.antt =====
-- ngxe_reader_handler: data is read into the read buffer until the Perl sub can be called, and the
-- sub may then start the writer. A `goto` of the source is a value of `Jump`.
pub mod Drive
pub mod Frame
pub mod Room
pub mod Intact
pub mod Coherence
pub mod Rounds
pub mod Returns
pub mod Waiting
use nginx_engine.Base.{
  ℕ, ℤ, zero, suc, ◌+◌, ◌-◌, Bool, true, false, not, ◌&&◌, Option, none, some, [], ◌∷◌, ◌++◌, ltb,
  leb, ◌==◌, if◌then◌else◌, length, is_some, as_unsigned,
}
use nginx_engine.State.{
  Pv, Buffer, string, undef, World, Env, Received, data_read, read_again, read_failed, Pointer,
  null, connection,
}
use nginx_engine.Callback.{callback}
use nginx_engine.Connection.{
  is_dummy, fail, handle_read, add_read_timer, del_timer, log, reader_stop, timed_out_error,
  read_error, event_error,
}
use nginx_engine.Writer.{writer_start}

-- The size that `ngxe_buf_svgrow(sv, s)` hands to SvGROW.
unfoldable pub svgrow_size : ℕ → ℕ → ℕ
svgrow_size pagesize s =
    if leb s 4080
    then 4080
    else if leb s 32768
    then 32768 + pagesize - 16
    else if leb s 262144
    then 262144 + pagesize - 16
    else if leb s 1048576
    then 1048576 + pagesize - 16
    else if leb s 4194304
    then 4194304
    else s

-- Where the handler goes next: it returns, jumps to a label, or calls ngxe_writer_start and returns.
pub data Jump (S : Type 0) : Type 0 where
  return : World S → Jump S
  recv_again : World S → Jump S
  run_callback : World S → Jump S
  start_writer : World S → Jump S

-- There is something to write: `SvROK(sv) || (SvPOK(sv) && SvCUR(sv) > 0)`.
abbrev pub has_output : Buffer → Bool
has_output (string []) = false
has_output undef = false
has_output _ = true

-- Fewer bytes than the sub asked for, and room for more. The first test compares unsigned numbers.
abbrev pub wants_more : ℤ → Pv → Bool
wants_more min_len b =
    ltb (length b.bytes + 1) (as_unsigned min_len) && ltb (length b.bytes + 1) b.len

module _ {S : Type 0} (e : Env S) where
  -- `ngxe_buf_svgrow(svbuf, SvLEN(svbuf) + 16384)` on a full buffer
  unfoldable pub grow_if_full : Pv → Pv
  unfolding svgrow_size
  grow_if_full b =
      if b.len == length b.bytes + 1
      then record b { len = e.grow b.len (svgrow_size e.pagesize (b.len + 16384)) }
      else b

  -- `ngx_handle_read_event(c->read, 0)`, the error path, then `goto RECVAGAIN` on a ready event and
  -- the timer on another.
  unfoldable pub wait_read : ℕ → World S → Jump S
  unfolding handle_read
  wait_read cb w =
      let (ok, w') = handle_read e w in
      if ok
      then if w'.read.ready then recv_again w' else return (add_read_timer e w')
      else return (fail e cb event_error w')

  -- Lines 204 to 236: is there enough data for the sub?
  unfoldable pub check_min_len : ℕ → World S → Jump S
  unfolding wait_read
  check_min_len cb w =
      if wants_more (w.callbacks cb).min_len w.reader_buffer then wait_read cb w else run_callback w

  -- Lines 145 to 201, on the value that `c->recv` returned.
  unfoldable pub after_recv : ℕ → Received → World S → Jump S
  unfolding check_min_len handle_read
  after_recv cb read_failed w = return (fail e cb read_error w)
  after_recv cb (data_read []) w = return (fail e cb read_error w)
  after_recv cb read_again w = return (add_read_timer e w)
  after_recv cb (data_read (x ∷ xs)) w =
      let stored = record w {
        reader_buffer = record w.reader_buffer { bytes = w.reader_buffer.bytes ++ x ∷ xs };
        received = w.received ++ x ∷ xs;
      } in
      let (ok, w') = handle_read e stored in
      if ok then check_min_len cb (add_read_timer e w') else return (fail e cb event_error w')

  -- `c->recv` into the free part of the buffer, less the byte behind the string.
  unfoldable pub receive : World S → Received × World S
  receive w =
      let b = w.reader_buffer in
      let (n, ready, s) = e.recv w.outside (b.len - length b.bytes - 1) in
      (n, record w { read = record w.read { ready = ready }; outside = s })

  -- RECVAGAIN
  unfoldable pub recv_block : ℕ → World S → Jump S
  unfolding grow_if_full after_recv receive
  recv_block cb w =
      let w' = record w { reader_buffer = grow_if_full w.reader_buffer } in
      if leb w'.reader_buffer.len (length w'.reader_buffer.bytes + 1)
      then run_callback w'
      else let (n, w'') = receive w' in after_recv cb n w''

  -- Lines 241 to 305, after the sub was called.
  unfoldable pub after_callback : ℕ → World S → Jump S
  unfolding wait_read reader_stop
  after_callback cb w =
      if w.destroyed
      then return w
      else if is_dummy w.read.handler
      then return w
      else if not (is_dummy w.write.handler)
      then return w
      else if is_some w.writer_callback && w.has_writer_buffer && has_output w.writer_buffer
      then start_writer (reader_stop connection (record w { writer_offset = 0; writer_index = 0 }))
      else wait_read cb w

  -- CALLBACK
  unfoldable pub callback_block : ℕ → World S → Jump S
  unfolding after_callback
  callback_block cb w = after_callback cb (callback e cb false w)

  -- The loop over the labels. `limit` is the fuel of the writer handler that it may end in.
  unfoldable pub run : ℕ → ℕ → ℕ → Jump S → Option (World S)
  unfolding writer_start
  run limit cb fuel (return w) = some w
  run limit cb fuel (start_writer w) = writer_start e limit connection w
  run limit cb zero _ = none
  run limit cb (suc fuel) (recv_again w) = run limit cb fuel (recv_block cb w)
  run limit cb (suc fuel) (run_callback w) = run limit cb fuel (callback_block cb w)

  -- Lines 81 to 108.
  unfoldable pub enter : ℕ → World S → Jump S
  enter cb w =
      if w.read.timedout
      then return
          (fail e cb timed_out_error (log "client timed out" (record w { timed_out = true })))
      else recv_again (record w { read = del_timer w.read })

  -- The guards after `c == NULL`.
  unfoldable pub handle_reader : ℕ → ℕ → World S → Option (World S)
  unfolding run enter
  handle_reader limit fuel w =
      if w.has_session
      then elim w.reader_callback [
        | none ↦ some (log "ngxe_reader_handler(): cb == NULL" w)
        | some cb ↦
            if w.has_reader_buffer
            then run limit cb fuel (enter cb w)
            else some (log "ngxe_reader_handler(): svbuf == NULL" w)
      ]
      else some (log "ngxe_reader_handler(): s == NULL" w)

  -- ngxe_reader_handler
  unfoldable pub reader_event : ℕ → ℕ → Pointer → World S → Option (World S)
  unfolding handle_reader
  reader_event limit fuel null w = some (log "ngxe_reader_handler(): c == NULL" w)
  reader_event limit fuel connection w = handle_reader limit fuel w
