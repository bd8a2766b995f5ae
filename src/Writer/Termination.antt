-- ===== src/Writer/Termination.antt =====
-- ngxe_writer_handler and ngxe_writer_start return, whatever the buffer is.
use nginx_engine.Base.{
  ℕ, ◌+◌, ◌*◌, ◌≤◌, true, Option, none, some, is_some, if◌then◌else◌, ◌≡◌, refl, arith, ap, if_rule,
}
use nginx_engine.State.{
  Buffer, string, undef, scalar_ref, array_ref, other_ref, World, Env, Pointer, null, connection,
  writer_handler,
}
use nginx_engine.Connection.{log, del_timer, add_write_timer}
use nginx_engine.Writer.{dispatch, handle_writer, writer_event, writer_start}
use nginx_engine.Writer.Returns.Rules.{Fills}
use nginx_engine.Writer.Returns.Plain.{plain_returns}
use nginx_engine.Writer.Returns.Scalar.{scalar_returns}
use nginx_engine.Writer.Scalar.{is_ref}
use nginx_engine.Writer.Returns.Array.{Ends, HasAtMost, rounds, rounds_mono, array_returns}

-- The rounds of the writer, where `n` bounds what the socket takes and the subs put in, and `most`
-- the elements of an array.
abbrev pub writer_rounds : ℕ → ℕ → ℕ
writer_rounds most n = rounds most n + 3 * n + 2 * most + 2

module _ {S : Type 0} (e : Env S) (left : S → ℕ) (most : ℕ) (f : Fills e left)
    (t : Ends e left most) (fuel : ℕ) where
  abbrev Returns : Option (World S) → Type 0
  Returns o = is_some o ≡ true

  abbrev pub Enough : World S → Type 0
  Enough w = (writer_rounds most (left w.outside) ≤ fuel) × HasAtMost e most w.writer_buffer

  dispatch-Returns :
      (cb : ℕ) (b : Buffer) (w : World S)
      → w.writer_buffer ≡ b
      → Enough w
      → Returns (dispatch e fuel cb b w)
  unfolding dispatch
  dispatch-Returns cb (string b) w h n = plain_returns e left f cb fuel w (omega (arith, n.0))
  dispatch-Returns cb undef w h n = plain_returns e left f cb fuel w (omega (arith, n.0))
  dispatch-Returns cb (scalar_ref b) w h n = scalar_returns e left f cb fuel w (omega (arith, n.0))
  dispatch-Returns cb (array_ref l) w h n =
      array_returns e left most f t cb fuel w (omega (arith, n.0, n.1 (ap is_ref h)))
  dispatch-Returns cb other_ref w h n = refl

  handle_writer-Returns : (w : World S) → Enough w → Returns (handle_writer e fuel w)
  unfolding handle_writer
  handle_writer-Returns w n = if_rule Returns w.has_session (with_callback w.writer_callback) refl
    where
      with_callback :
          (c : Option ℕ)
          → Returns (elim c [
            | none ↦ some (log "ngxe_writer_handler(): cb == NULL" w)
            | some cb ↦
                if w.has_writer_buffer
                then dispatch e fuel cb w.writer_buffer w
                else some (log "ngxe_writer_handler(): svbuf == NULL" w)
          ])
      with_callback none = refl
      with_callback (some cb) =
          if_rule Returns w.has_writer_buffer (dispatch-Returns cb w.writer_buffer w refl n) refl

  -- If the socket is full at some time and the subs have finitely many arrays, each of at most
  -- `most` elements, the handler of the writer returns on every kind of buffer, on fuel of at
  -- least `writer_rounds`.
  pub writer_event_returns :
      (p : Pointer) (w : World S) → Enough w → is_some (writer_event e fuel p w) ≡ true
  unfolding writer_event
  writer_event_returns null w n = refl
  writer_event_returns connection w n = handle_writer-Returns w n

  -- If the socket is full at some time, the subs have finitely many arrays, each of at most
  -- `most` elements, and ngx_handle_write_event makes no room in the socket, ngxe_writer_start
  -- returns, on fuel of at least `writer_rounds`.
  pub writer_start_returns :
      ((s : S) → left (e.handle_write_event s).1 ≤ left s)
      → (p : Pointer) (w : World S) → Enough w
      → is_some (writer_start e fuel p w) ≡ true
  unfolding writer_start
  writer_start_returns k null w n = refl
  writer_start_returns k connection w n =
      if_rule Returns (e.handle_write_event w.outside).0
        (if_rule Returns w.write.ready
          (handle_writer-Returns
            (add_write_timer e (record w {
              write = record (del_timer w.write) { handler = writer_handler };
              outside = (e.handle_write_event w.outside).1;
            }))
            (
              omega (
                arith,
                n.0,
                k w.outside,
                rounds_mono most (left (e.handle_write_event w.outside).1) (left w.outside)
                    (k w.outside),
              ),
              n.1,
            ))
          refl)
        refl
