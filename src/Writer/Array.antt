-- ===== src/Writer/Array.antt =====
-- ngxe_rvpvav_writer_handler: the buffer is a reference to an array of references to scalars. They
-- are sent one after the other, from byte `writer_offset` of element `writer_index` on.
use nginx_engine.Base.{
  ℕ, zero, suc, ◌+◌, false, Option, none, some, List, [], ◌++◌, if◌then◌else◌, take, get_elem?,
}
use nginx_engine.State.{
  Buffer, undef, array_ref, Item, scalar, not_ref, World, Env, Sent, accepted, write_again,
  write_failed,
}
use nginx_engine.Callback.{callback}
use nginx_engine.Connection.{is_dummy, fail, del_timer, write_error, not_scalar_error}
use nginx_engine.Writer.Offset.{to_int, has_more, text_from}
use nginx_engine.Writer.Blocks.{
  Jump, return, next_buf, send_again, done, Labels, time_out, wait_write, retry_write,
  restart_reader,
}
use nginx_engine.Writer.Scalar.{is_ref, reset_offset}

module _ {S : Type 0} where
  abbrev pub reset_position : World S → World S
  reset_position w = record w { writer_offset = 0; writer_index = 0 }

  abbrev pub next_item : World S → World S
  next_item w = record w { writer_offset = 0; writer_index = w.writer_index + 1 }

  module _ (e : Env S) where
    -- The array of `SvRV(s->writer_buffer)`.
    abbrev pub items : Buffer → List Item
    items (array_ref l) = l
    items other = e.stray_items other

    -- The string that an element refers to.
    abbrev pub item_bytes : Option Item → List ℕ
    item_bytes (some (scalar b)) = b
    item_bytes _ = []

    abbrev pub current : World S → Option Item
    current w = get_elem? (items w.writer_buffer) w.writer_index

    module _ (cb : ℕ) where
      unfoldable pub next_at : Option Item → World S → Jump S
      next_at none w = done w
      next_at (some not_ref) w = return (fail e cb not_scalar_error (reset_position w))
      next_at (some (scalar b)) w =
          if has_more w.writer_offset b then send_again w else next_buf (next_item w)

      -- NEXTBUF
      unfoldable pub next_block : World S → Jump S
      unfolding next_at
      next_block w = next_at (current w) w

      unfoldable pub after_send : Sent → World S → Jump S
      unfolding retry_write wait_write
      after_send write_failed w = return (fail e cb write_error (reset_position w))
      after_send (accepted zero) w = return (fail e cb write_error (reset_position w))
      after_send write_again w = retry_write e cb reset_offset w
      after_send (accepted (suc n)) w =
          let b = item_bytes (current w) in
          let offset = to_int (w.writer_offset + suc n) in
          let moved = record w {
            writer_offset = offset;
            sent = w.sent ++ take (suc n) (text_from e w.writer_offset b);
            write = del_timer w.write;
          } in
          if has_more offset b
          then return (
              wait_write e cb reset_offset
                (record moved { write = record moved.write { ready = false } }))
          else next_buf (next_item moved)

      -- SENDAGAIN
      unfoldable pub send_block : World S → Jump S
      unfolding after_send
      send_block w =
          let (n, ready, s) =
            e.send w.outside (text_from e w.writer_offset (item_bytes (current w))) in
          after_send n (record w { write = record w.write { ready = ready }; outside = s })

      -- Lines 788 to 844, after the sub was called.
      unfoldable pub after_done : World S → Jump S
      unfolding wait_write restart_reader
      after_done w =
          if w.destroyed
          then return w
          else if is_dummy w.write.handler
          then return w
          else if is_ref w.writer_buffer
          then if w.write.ready
            then next_buf (reset_position w)
            else return (wait_write e cb reset_offset (reset_position w))
          else return (restart_reader e cb w)

      -- DONE. The release of what the reference refers to goes with the reference, which `refs` does
      -- not count.
      unfoldable pub done_block : World S → Jump S
      unfolding after_done
      done_block w = after_done (callback e cb false (record w { writer_buffer = undef }))

      unfoldable pub enter : World S → Jump S
      unfolding time_out
      enter w =
          if w.write.timedout
          then return (time_out e cb w)
          else next_buf (record w { write = del_timer w.write })

      abbrev pub labels : Labels S
      labels = record {
        next_buf_at = next_block;
        send_again_at = send_block;
        done_at = done_block;
        after_callback_at = λ w. return w;
      }
