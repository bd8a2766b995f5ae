-- ===== src/Writer/Waiting.antt =====
-- ngxe_writer_handler and ngxe_writer_start: a writer that goes on waiting has its timer.
pub mod Labels
use nginx_engine.Base.{
  ℕ, true, Option, none, some, is_some, if◌then◌else◌, ◌≡◌, sym, arith, if_rule, if_true,
}
use mathlib.Core.Path.{subst}
use mathlib.Core.Option.{some-injective}
use nginx_engine.State.{
  Buffer, string, undef, scalar_ref, array_ref, other_ref, World, Env, connection, writer_handler,
}
use nginx_engine.Callback.{callback}
use nginx_engine.Connection.{add_write_timer, start_error, log, handle_write, del_timer}
use nginx_engine.Writer.{dispatch, handle_writer, writer_event, writer_start}
use nginx_engine.Writer.Drive.{drive_inv}
use nginx_engine.Writer.Plain
use nginx_engine.Writer.Scalar
use nginx_engine.Writer.Array
use Labels.{
  Waits, AtPlain, AtScalar, AtArray, plain_enter, scalar_enter, array_enter, plain_labels,
  scalar_labels, array_labels, failed, armed,
}

module _ {S : Type 0} (e : Env S) where
  -- A run that returns leaves the writer like that.
  abbrev Leaves : Option (World S) → Type 0
  Leaves o = (w' : World S) → o ≡ some w' → Waits w'

  leaves : (w : World S) → Waits w → Leaves (some w)
  leaves w p w' h = subst Waits (some-injective w w' h) p

  dispatch-Leaves : (fuel cb : ℕ) (b : Buffer) (w : World S) → Leaves (dispatch e fuel cb b w)
  unfolding dispatch
  dispatch-Leaves fuel cb (string b) w w' h =
      drive_inv (AtPlain e) (Plain.labels e cb) (plain_labels e cb) fuel _ (plain_enter e cb w) h
  dispatch-Leaves fuel cb undef w w' h =
      drive_inv (AtPlain e) (Plain.labels e cb) (plain_labels e cb) fuel _ (plain_enter e cb w) h
  dispatch-Leaves fuel cb (scalar_ref b) w w' h =
      drive_inv (AtScalar e) (Scalar.labels e cb) (scalar_labels e cb) fuel _ (scalar_enter e cb w)
        h
  dispatch-Leaves fuel cb (array_ref l) w w' h =
      drive_inv (AtArray e) (Array.labels e cb) (array_labels e cb) fuel _ (array_enter e cb w) h
  dispatch-Leaves fuel cb other_ref w w' h = leaves _ (failed e cb _ w) w' h

  -- A session that can write.
  pub record CanWrite (w : World S) : Type 0 where
    pub session : w.has_session ≡ true
    pub callback : is_some w.writer_callback ≡ true
    pub output : w.has_writer_buffer ≡ true

  handle_writer-Leaves : (fuel : ℕ) (w : World S) → CanWrite w → Leaves (handle_writer e fuel w)
  unfolding handle_writer
  handle_writer-Leaves fuel w c =
      subst Leaves (sym (if_true w.has_session _ _ c.session))
        (with_callback w.writer_callback c.callback)
    where
      with_callback :
          (o : Option ℕ)
          → is_some o ≡ true
          → Leaves (elim o [
            | none ↦ some (log "ngxe_writer_handler(): cb == NULL" w)
            | some cb ↦
                if w.has_writer_buffer
                then dispatch e fuel cb w.writer_buffer w
                else some (log "ngxe_writer_handler(): svbuf == NULL" w)
          ])
      with_callback none h = absurd cc
      with_callback (some cb) h =
          subst Leaves (sym (if_true w.has_writer_buffer _ _ c.output))
            (dispatch-Leaves fuel cb w.writer_buffer w)

  -- When the writer's handler returns, on any kind of buffer, for a session with a callback and a buffer
  -- for it, and whatever its sub does: the connection is destroyed, or the writer is stopped, or the
  -- timer of the write event is set if there is a timeout for it, or the session has no reader that
  -- could go on.
  pub writer_event_waits :
      (fuel : ℕ) (w w' : World S)
      → CanWrite w
      → writer_event e fuel connection w ≡ some w'
      → Waits w'
  unfolding writer_event
  writer_event_waits fuel w w' c h = handle_writer-Leaves fuel w c w' h

  -- The same of ngxe_writer_start.
  pub writer_start_waits :
      (fuel : ℕ) (w w' : World S)
      → CanWrite w
      → writer_start e fuel connection w ≡ some w'
      → Waits w'
  unfolding writer_start handle_write
  writer_start_waits fuel w w' c =
      if_rule Goal (e.handle_write_event w.outside).0
        (if_rule Goal w.write.ready
          (handle_writer-Leaves fuel (add_write_timer e started)
            (record { session = c.session; callback = c.callback; output = c.output }) w')
          (leaves (add_write_timer e started) (armed e started) w'))
        (leaves (start_error e started.writer_callback started)
          (start_failed started.writer_callback c.callback) w')
    where
      Goal : Option (World S) → Type 0
      Goal o = o ≡ some w' → Waits w'

      started : World S
      started =
          (handle_write e
            (record w { write = record (del_timer w.write) { handler = writer_handler } })).1

      start_failed : (o : Option ℕ) → is_some o ≡ true → Waits (start_error e o started)
      start_failed none h = absurd cc
      start_failed (some cb) h = unfold start_error in failed e cb _ started
