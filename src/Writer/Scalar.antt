-- ===== src/Writer/Scalar.antt =====
-- ngxe_rvpv_writer_handler: the buffer is a reference to a scalar, sent from `writer_offset` on.
use nginx_engine.Base.{
  ℕ, zero, suc, ◌+◌, Bool, true, false, ◌&&◌, List, ◌++◌, ltb, if◌then◌else◌, length, take,
}
use nginx_engine.State.{
  Buffer, string, undef, scalar_ref, World, Env, Sent, accepted, write_again, write_failed,
}
use nginx_engine.Callback.{callback}
use nginx_engine.Connection.{is_dummy, fail, del_timer, write_error}
use nginx_engine.Writer.Offset.{to_int, has_more, text_from}
use nginx_engine.Writer.Blocks.{
  Jump, return, send_again, done, after_callback, Labels, time_out, wait_write, retry_write,
  restart_reader,
}

-- `SvOK(sv) && SvROK(sv)`
abbrev pub is_ref : Buffer → Bool
is_ref (string b) = false
is_ref undef = false
is_ref _ = true

module _ {S : Type 0} where
  abbrev pub reset_offset : World S → World S
  reset_offset w = record w { writer_offset = 0 }

  module _ (e : Env S) where
    -- The string of `SvRV(s->writer_buffer)`.
    abbrev pub referent : Buffer → List ℕ
    referent (scalar_ref b) = b
    referent other = e.stray_bytes other

    module _ (cb : ℕ) where
      unfoldable pub after_send : Sent → World S → Jump S
      unfolding retry_write wait_write
      after_send write_failed w = return (fail e cb write_error (reset_offset w))
      after_send (accepted zero) w = return (fail e cb write_error (reset_offset w))
      after_send write_again w = retry_write e cb reset_offset w
      after_send (accepted (suc n)) w =
          let b = referent w.writer_buffer in
          let offset = to_int (w.writer_offset + suc n) in
          let moved = record w {
            writer_offset = offset;
            sent = w.sent ++ take (suc n) (text_from e w.writer_offset b);
          } in
          if has_more offset b
          then return (
              wait_write e cb reset_offset
                (record moved { write = record moved.write { ready = false } }))
          else done (reset_offset moved)

      -- SENDAGAIN
      unfoldable pub send_block : World S → Jump S
      unfolding after_send
      send_block w =
          let (n, ready, s) =
            e.send w.outside (text_from e w.writer_offset (referent w.writer_buffer)) in
          after_send n (record w { write = record w.write { ready = ready }; outside = s })

      -- Lines 531 to 536. The release of what the reference refers to goes with the reference, which
      -- `refs` does not count.
      unfoldable pub done_block : World S → Jump S
      done_block w = after_callback (callback e cb false (record w { writer_buffer = undef }))

      -- AFTERCALLBACK
      unfoldable pub after_block : World S → Jump S
      unfolding wait_write restart_reader
      after_block w =
          if w.destroyed
          then return w
          else if is_dummy w.write.handler
          then return w
          else if is_ref w.writer_buffer && ltb 0 (length (referent w.writer_buffer))
          then if w.write.ready then send_again w else return (wait_write e cb reset_offset w)
          else return (restart_reader e cb w)

      unfoldable pub enter : World S → Jump S
      unfolding time_out
      enter w =
          if w.write.timedout
          then return (time_out e cb w)
          else let w' = record w { write = del_timer w.write } in
            if has_more w.writer_offset (referent w.writer_buffer)
            then send_again w'
            else after_callback (callback e cb false (reset_offset w'))

      abbrev pub labels : Labels S
      labels = record {
        next_buf_at = λ w. return w;
        send_again_at = send_block;
        done_at = done_block;
        after_callback_at = after_block;
      }
