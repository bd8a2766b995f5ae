-- ===== src/Writer.antt =====
-- ngxe_writer_handler and its two helpers for buffers passed by reference, and ngxe_writer_start.
-- A `goto` of the source is a value of `Jump`; `drive` follows the jumps. Each round of the loop
-- takes one unit of fuel, and `none` means that the handler has not returned after so many rounds.
pub mod Blocks
pub mod Drive
pub mod Plain
pub mod Offset
pub mod Scalar
pub mod Array
pub mod Frame
pub mod Coherence
pub mod Stream
pub mod Returns
pub mod Delivery
pub mod Termination
pub mod Waiting
use nginx_engine.Base.{ℕ, Option, none, some, if◌then◌else◌}
use nginx_engine.State.{
  Buffer, string, undef, scalar_ref, array_ref, other_ref, World, Env, Pointer, null, connection,
  writer_handler,
}
use nginx_engine.Connection.{
  fail, handle_write, add_write_timer, del_timer, log, start_error, unsupported_error,
}
use Blocks.{drive}

module _ {S : Type 0} (e : Env S) where
  -- On the type of the buffer.
  unfoldable pub dispatch : ℕ → ℕ → Buffer → World S → Option (World S)
  unfolding drive Plain.enter Scalar.enter Array.enter
  dispatch fuel cb (scalar_ref b) w = drive fuel (Scalar.labels e cb) (Scalar.enter e cb w)
  dispatch fuel cb (array_ref l) w = drive fuel (Array.labels e cb) (Array.enter e cb w)
  dispatch fuel cb other_ref w = some (fail e cb unsupported_error w)
  dispatch fuel cb (string b) w = drive fuel (Plain.labels e cb) (Plain.enter e cb w)
  dispatch fuel cb undef w = drive fuel (Plain.labels e cb) (Plain.enter e cb w)

  -- The guards of ngxe_writer_handler after `c == NULL`.
  unfoldable pub handle_writer : ℕ → World S → Option (World S)
  unfolding dispatch
  handle_writer fuel w =
      if w.has_session
      then elim w.writer_callback [
        | none ↦ some (log "ngxe_writer_handler(): cb == NULL" w)
        | some cb ↦
            if w.has_writer_buffer
            then dispatch fuel cb w.writer_buffer w
            else some (log "ngxe_writer_handler(): svbuf == NULL" w)
      ]
      else some (log "ngxe_writer_handler(): s == NULL" w)

  -- ngxe_writer_handler
  unfoldable pub writer_event : ℕ → Pointer → World S → Option (World S)
  unfolding handle_writer
  writer_event fuel null w = some (log "ngxe_writer_handler(): c == NULL" w)
  writer_event fuel connection w = handle_writer fuel w

  -- ngxe_writer_start. The handler that it calls is the one that it has set.
  unfoldable pub writer_start : ℕ → Pointer → World S → Option (World S)
  unfolding handle_write handle_writer
  writer_start fuel null w = some (log "ngxe_writer_start() called on a NULL reference" w)
  writer_start fuel connection w =
      let (ok, w') =
        handle_write e
          (record w { write = record (del_timer w.write) { handler = writer_handler } }) in
      if ok
      then if w'.write.ready
        then handle_writer fuel (add_write_timer e w')
        else some (add_write_timer e w')
      else some (start_error e w'.writer_callback w')
