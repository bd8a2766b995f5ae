-- ===== src/Api/Reader.antt =====
-- ngxe_reader, ngxe_reader_timeout, ngxe_reader_start and the two stopping functions of Engine.xs.
use nginx_engine.Base.{ℕ, ℤ, pos, ◌+◌, true, Option, some, List, [], if◌then◌else◌}
use nginx_engine.State.{World, Env, Pointer, connection, string, dummy_handler}
use nginx_engine.Connection.{reader_start, reader_stop}
use nginx_engine.Writer.{writer_start}
use nginx_engine.Api.{
  Globals, Reply, returned, answered, Supply, has_start, if_initialized, with_session, warn_many,
  optional, returning,
}
use nginx_engine.Api.Creation.{
  change, new_arg, shared_arg, extra_args, with_callback, with_args, first_args, reader_buffer_arg,
}

module _ {S : Type 0} (e : Env S) (g : Globals) where
  -- $writer_buffer, as ngxe_reader makes it: newSV(1), a string.
  unfoldable pub writer_buffer_arg : ℕ → Supply → World S → World S
  unfolding new_arg shared_arg
  writer_buffer_arg cb s w =
      if w.has_writer_buffer
      then shared_arg cb w.writer_scalar w
      else record (new_arg cb (s.fresh 4) w) {
        has_writer_buffer = true;
        writer_scalar = s.fresh 4;
        writer_buffer = string [];
      }

  -- The arguments of the callback. `extra` is the number of those that Perl code has passed.
  unfoldable pub reader_args : ℕ → Supply → ℕ → World S → World S
  unfolding first_args reader_buffer_arg writer_buffer_arg new_arg extra_args
  reader_args cb s extra w =
      extra_args cb (λ i. s.fresh (i + 6)) extra
        (change cb (λ c. record c { min_len = pos 0 })
          (new_arg cb (s.fresh 5)
            (writer_buffer_arg cb s (reader_buffer_arg cb s e g (first_args cb s w)))))

  -- What the session keeps, and the start.
  unfoldable pub reader_set : ℕ → ℤ → ℤ → World S → Reply S
  unfolding reader_start
  reader_set cb start timeout w =
      let w' = record w {
        reader_flags = start;
        reader_callback = some cb;
        reader_timeout = timeout;
        read = record w.read { handler = dummy_handler };
      } in
      answered (pos 1) (if has_start start then reader_start e connection w' else w')

  -- ngxe_reader. `cb` names the new callback.
  unfoldable pub reader : Pointer → ℤ → ℤ → ℕ → ℕ → Supply → World S → Option (Reply S)
  unfolding with_session with_callback with_args reader_args reader_set
  reader p start timeout extra cb s = with_session g p (
      with_callback cb s (
        with_args cb s (extra + 5)
          (λ w. some (reader_set cb start timeout (reader_args cb s extra w)))))

  -- ngxe_reader_timeout. `args` are the arguments behind the connection.
  unfoldable pub reader_timeout : Pointer → List ℤ → World S → Option (Reply S)
  unfolding with_session
  reader_timeout p args = with_session g p (λ w. some (
      answered w.reader_timeout
        (record (warn_many "Too many arguments for ngxe_reader_timeout (ignored)" args w) {
          reader_timeout = optional args w.reader_timeout;
        })))

  -- The ngxe_reader_start of Engine.xs.
  unfoldable pub start_reader : Pointer → List ℤ → World S → Option (Reply S)
  unfolding with_session reader_start
  start_reader p args = with_session g p (λ w. some (
      returned (
        reader_start e p
          (record (warn_many "Too many arguments for ngxe_reader_start (ignored)" args w) {
            reader_timeout = optional args w.reader_timeout;
          }))))

  -- The ngxe_reader_stop of Engine.xs.
  unfoldable pub stop_reader : Pointer → World S → Option (Reply S)
  unfolding if_initialized reader_stop
  stop_reader p = if_initialized g (λ w. some (returned (reader_stop p w)))

  -- ngxe_reader_stop_writer_start
  unfoldable pub stop_reader_start_writer : ℕ → Pointer → World S → Option (Reply S)
  unfolding if_initialized reader_stop writer_start
  stop_reader_start_writer fuel p =
      if_initialized g (λ w. returning (writer_start e fuel p (reader_stop p w)))
