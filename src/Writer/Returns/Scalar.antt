-- ===== src/Writer/Returns/Scalar.antt =====
-- ngxe_rvpv_writer_handler returns.
use nginx_engine.Base.{
  ℕ, zero, suc, ◌+◌, ◌*◌, ◌≤◌, ◌<◌, true, false, ◌&&◌, is_some, List, length, ltb, ◌≡◌, refl, arith,
  if_rule,
}
use nginx_engine.State.{World, Env, Sent, accepted, write_again, write_failed, undef}
use nginx_engine.Connection.{is_dummy, del_timer}
use nginx_engine.Writer.Offset.{to_int, has_more, text_from}
use nginx_engine.Writer.Blocks.{
  Jump, return, next_buf, send_again, done, after_callback, drive, retry_write,
}
use nginx_engine.Writer.Scalar.{
  is_ref, referent, after_send, send_block, done_block, after_block, reset_offset, enter, labels,
}
use nginx_engine.Writer.Returns.Rules.{Fills, IsBounded, drive_returns, left-callback}

module _ {S : Type 0} (e : Env S) (left : S → ℕ) (f : Fills e left) (cb : ℕ) where
  abbrev rank : Jump S → ℕ
  rank (return w) = 0
  rank (next_buf w) = 1
  rank (send_again w) = 3 * left w.outside + 1
  rank (after_callback w) = 3 * left w.outside + 2
  rank (done w) = 3 * left w.outside + 3

  abbrev Less : ℕ → Jump S → Type 0
  Less n j = rank j < n

  after_send-Less :
      (x : Sent) (n : ℕ) (w : World S)
      → 0 < n
      → (x ≡ write_again → w.write.ready ≡ false)
      → ((k : ℕ) → x ≡ accepted (suc k) → 3 * left w.outside + 3 < n)
      → Less n (after_send e cb x w)
  unfolding after_send retry_write
  after_send-Less write_failed n w p again less = p
  after_send-Less (accepted zero) n w p again less = p
  after_send-Less write_again n w p again less =
      if_rule (Less n) (e.handle_write_event w.outside).0 (rw (again refl) p) p
  after_send-Less (accepted (suc k)) n w p again less =
      if_rule (Less n) (has_more (to_int (w.writer_offset + suc k)) (referent e w.writer_buffer)) p
        (less k refl)

  send_block-Less : (w : World S) → Less (rank (send_again w)) (send_block e cb w)
  unfolding send_block
  send_block-Less w =
      let b : List ℕ = text_from e w.writer_offset (referent e w.writer_buffer) in
      after_send-Less (e.send w.outside b).0 (rank (send_again w)) _ (omega arith)
        (f.waits w.outside b) (λ k h. omega (arith, f.less w.outside b k h))

  done_block-Less : (w : World S) → Less (rank (done w)) (done_block e cb w)
  unfolding done_block
  done_block-Less w = omega (arith, left-callback e left f cb (record w { writer_buffer = undef }))

  after_block-Less : (w : World S) → Less (rank (after_callback w)) (after_block e cb w)
  unfolding after_block
  after_block-Less w =
      let L : Jump S → Type 0 = Less (rank (after_callback w)) in
      if_rule L w.destroyed (omega arith) (
        if_rule L (is_dummy w.write.handler) (omega arith) (
          if_rule L (is_ref w.writer_buffer && ltb 0 (length (referent e w.writer_buffer)))
            (if_rule L w.write.ready (omega arith) (omega arith)) (omega arith)))

  bounded : IsBounded (λ j. Unit {0}) rank (labels e cb)
  bounded = record {
    next_buf_at = λ w p. (tt, omega arith);
    send_again_at = λ w p. (tt, send_block-Less w);
    done_at = λ w p. (tt, done_block-Less w);
    after_callback_at = λ w p. (tt, after_block-Less w);
  }

  enter-Less : (n : ℕ) (w : World S) → 3 * left w.outside + 2 ≤ n → Less (suc n) (enter e cb w)
  unfolding enter
  enter-Less n w h = if_rule (Less (suc n)) w.write.timedout (omega arith) (
      if_rule (Less (suc n)) (has_more w.writer_offset (referent e w.writer_buffer)) (omega arith) (
        omega (
          arith,
          left-callback e left f cb (reset_offset (record w { write = del_timer w.write })),
        )))

  -- On a reference to a scalar the handler returns, within three rounds for each time that the
  -- socket still takes bytes, and two more.
  pub scalar_returns :
      (fuel : ℕ) (w : World S)
      → 3 * left w.outside + 2 ≤ fuel
      → is_some (drive fuel (labels e cb) (enter e cb w)) ≡ true
  scalar_returns fuel w h =
      drive_returns (λ j. Unit {0}) rank (labels e cb) bounded fuel (enter e cb w)
        (tt, enter-Less fuel w h)
