-- ===== src/Api/Writer.antt =====
-- ngxe_writer, ngxe_writer_timeout, ngxe_writer_buffer_set and the functions of Engine.xs that start and
-- stop the writer, and its ngxe_close.
use nginx_engine.Base.{
  ℕ, ℤ, ◌+◌, Bool, true, false, Option, some, List, [], ◌∷◌, ◌++◌, if◌then◌else◌,
}
use nginx_engine.State.{
  Buffer, string, undef, scalar_ref, array_ref, World, Env, Pointer, connection, dummy_handler,
}
use nginx_engine.Connection.{reader_start, writer_stop, close}
use nginx_engine.Writer.{writer_start}
use nginx_engine.Writer.Plain.{plain_bytes}
use nginx_engine.Writer.Stream.Rules.{content}
use nginx_engine.Api.{
  Globals, Reply, undefined, returned, answered, Supply, has_start, warn, if_initialized,
  with_session, warn_many, optional, returning, answering_one,
}
use nginx_engine.Api.Creation.{
  new_arg, shared_arg, extra_args, with_callback, with_args, first_args, reader_buffer_arg,
}

module _ {S : Type 0} (e : Env S) where
  -- SvPOK_on: what is no reference is taken for a string from then on.
  abbrev pub pok_on : Buffer → Buffer
  pok_on undef = string (e.stray_bytes undef)
  pok_on b = b

  -- What the write buffer holds after ngxe_writer has copied `b` into it. `is_pv` is
  -- `SvTYPE(buffer) == SVt_PV`.
  abbrev pub supported : Bool → Buffer → Buffer
  supported is_pv (scalar_ref b) = scalar_ref b
  supported is_pv (array_ref l) = array_ref l
  supported is_pv b = if is_pv then b else pok_on b

  -- sv_setsv(s->writer_buffer, data)
  abbrev pub fill : Buffer → World S → World S
  fill b w = record w { writer_buffer = b; queued = w.queued ++ content b }

  module _ (g : Globals) where
    -- $writer_buffer, as ngxe_writer makes it.
    unfoldable pub filled_buffer_arg : ℕ → Supply → Bool → Buffer → World S → World S
    unfolding new_arg shared_arg
    filled_buffer_arg cb s is_pv b w = fill (supported is_pv b) (
        if w.has_writer_buffer
        then shared_arg cb w.writer_scalar w
        else record (new_arg cb (s.fresh 4) w) {
          has_writer_buffer = true;
          writer_scalar = s.fresh 4;
        })

    -- The arguments of the callback. `extra` is the number of those that Perl code has passed.
    unfoldable pub writer_args : ℕ → Supply → ℕ → Bool → Buffer → World S → World S
    unfolding first_args reader_buffer_arg filled_buffer_arg extra_args
    writer_args cb s extra is_pv b w =
        extra_args cb (λ i. s.fresh (i + 5)) extra
          (filled_buffer_arg cb s is_pv b (reader_buffer_arg cb s e g (first_args cb s w)))

    -- What the session keeps, and the start.
    unfoldable pub writer_set : ℕ → ℕ → ℤ → ℤ → World S → Option (Reply S)
    unfolding writer_start
    writer_set fuel cb start timeout w =
        let w' = record w {
          writer_callback = some cb;
          writer_timeout = timeout;
          write = record w.write { handler = dummy_handler };
        } in
        answering_one (if has_start start then writer_start e fuel connection w' else some w')

    -- ngxe_writer. `cb` names the new callback.
    unfoldable pub writer :
        ℕ → Pointer → ℤ → ℤ → Bool → Buffer → ℕ → ℕ → Supply → World S → Option (Reply S)
    unfolding with_session with_callback with_args writer_args writer_set
    writer fuel p start timeout is_pv b extra cb s = with_session g p (
        with_callback cb s (
          with_args cb s (extra + 4)
            (λ w. writer_set fuel cb start timeout (writer_args cb s extra is_pv b w))))

    -- ngxe_writer_timeout
    unfoldable pub writer_timeout : Pointer → List ℤ → World S → Option (Reply S)
    unfolding with_session
    writer_timeout p args = with_session g p (λ w. some (
        answered w.writer_timeout
          (record (warn_many "Too many arguments for ngxe_writer_timeout (ignored)" args w) {
            writer_timeout = optional args w.writer_timeout;
          })))

    -- What is put into the buffer, by the kind of the data.
    unfoldable pub put_data : ℕ → Bool → Buffer → World S → Option (Reply S)
    unfolding writer_start
    put_data fuel is_pv (scalar_ref b) w =
        returning
          (writer_start e fuel connection (record (fill (scalar_ref b) w) { writer_offset = 0 }))
    put_data fuel is_pv (array_ref l) w = returning (
        writer_start e fuel connection
          (record (fill (array_ref l) w) { writer_offset = 0; writer_index = 0 }))
    put_data fuel false b w = returning (writer_start e fuel connection (fill (pok_on b) w))
    put_data fuel true b w = elim (plain_bytes e b) [
      | [] ↦ some (undefined w)
      | ◌∷◌ x xs ↦ returning (writer_start e fuel connection (fill b w))
    ]

    -- ngxe_writer_buffer_set, also called ngxe_writer_put
    unfoldable pub writer_buffer_set : ℕ → Pointer → Bool → Buffer → World S → Option (Reply S)
    unfolding with_session put_data
    writer_buffer_set fuel p is_pv b = with_session g p (λ w.
        if w.has_writer_buffer
        then put_data fuel is_pv b w
        else some (undefined (warn "s->writer_buffer is not initialized, ignoring" w)))

    -- The ngxe_writer_start of Engine.xs.
    unfoldable pub start_writer : ℕ → Pointer → List ℤ → World S → Option (Reply S)
    unfolding with_session writer_start
    start_writer fuel p args = with_session g p (λ w. returning (
        writer_start e fuel p
          (record (warn_many "Too many arguments for ngxe_writer_start (ignored)" args w) {
            writer_timeout = optional args w.writer_timeout;
          })))

    -- The ngxe_writer_stop of Engine.xs.
    unfoldable pub stop_writer : Pointer → World S → Option (Reply S)
    unfolding if_initialized writer_stop
    stop_writer p = if_initialized g (λ w. some (returned (writer_stop p w)))

    -- ngxe_writer_stop_reader_start
    unfoldable pub stop_writer_start_reader : Pointer → World S → Option (Reply S)
    unfolding if_initialized writer_stop reader_start
    stop_writer_start_reader p =
        if_initialized g (λ w. some (returned (reader_start e p (writer_stop p w))))

    -- The ngxe_close of Engine.xs.
    unfoldable pub ngxe_close : Pointer → World S → Option (Reply S)
    unfolding if_initialized close
    ngxe_close p = if_initialized g (λ w. some (returned (close e p w)))
