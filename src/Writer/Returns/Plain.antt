-- ===== src/Writer/Returns/Plain.antt =====
-- ngxe_writer_handler on a string returns.
use nginx_engine.Base.{
  ℕ, zero, suc, ◌+◌, ◌*◌, ◌≤◌, ◌<◌, true, false, is_some, List, [], ◌∷◌, drop, ◌≡◌, refl, arith,
  if_rule,
}
use nginx_engine.State.{World, Env, Sent, accepted, write_again, write_failed}
use nginx_engine.Connection.{is_dummy}
use nginx_engine.Writer.Blocks.{
  Jump, return, next_buf, send_again, done, after_callback, drive, retry_write,
}
use nginx_engine.Writer.Plain.{
  plain_bytes, after_chop, after_send, send_block, refilled, after_block, start_sending, enter,
  labels,
}
use nginx_engine.Writer.Returns.Rules.{Fills, IsBounded, drive_returns, left-callback}

module _ {S : Type 0} (e : Env S) (left : S → ℕ) (f : Fills e left) (cb : ℕ) where
  abbrev rank : Jump S → ℕ
  rank (return w) = 0
  rank (next_buf w) = 1
  rank (done w) = 1
  rank (send_again w) = 2 * left w.outside + 1
  rank (after_callback w) = 2 * left w.outside + 2

  abbrev Less : ℕ → Jump S → Type 0
  Less n j = rank j < n

  after_chop-Less :
      (b : List ℕ) (n : ℕ) (w : World S) → 2 * left w.outside + 2 < n → Less n (after_chop e cb b w)
  unfolding after_chop
  after_chop-Less [] n w h = omega (arith, left-callback e left f cb w)
  after_chop-Less (x ∷ xs) n w h = omega arith

  after_send-Less :
      (x : Sent) (n : ℕ) (w : World S)
      → 0 < n
      → (x ≡ write_again → w.write.ready ≡ false)
      → ((k : ℕ) → x ≡ accepted (suc k) → 2 * left w.outside + 2 < n)
      → Less n (after_send e cb x w)
  unfolding after_send retry_write
  after_send-Less write_failed n w p again less = p
  after_send-Less (accepted zero) n w p again less = p
  after_send-Less write_again n w p again less =
      if_rule (Less n) (e.handle_write_event w.outside).0 (rw (again refl) p) p
  after_send-Less (accepted (suc k)) n w p again less =
      after_chop-Less (drop (suc k) (plain_bytes e w.writer_buffer)) n _ (less k refl)

  send_block-Less : (w : World S) → Less (rank (send_again w)) (send_block e cb w)
  unfolding send_block
  send_block-Less w =
      let b : List ℕ = plain_bytes e w.writer_buffer in
      after_send-Less (e.send w.outside b).0 (rank (send_again w)) _ (omega arith)
        (f.waits w.outside b) (λ k h. omega (arith, f.less w.outside b k h))

  refilled-Less :
      (b : List ℕ) (n : ℕ) (w : World S) → 2 * left w.outside + 1 < n → Less n (refilled e cb b w)
  unfolding refilled
  refilled-Less [] n w h = omega arith
  refilled-Less (x ∷ xs) n w h = if_rule (Less n) w.write.ready h (omega arith)

  after_block-Less : (w : World S) → Less (rank (after_callback w)) (after_block e cb w)
  unfolding after_block
  after_block-Less w = if_rule (Less (rank (after_callback w))) w.destroyed (omega arith) (
      if_rule (Less (rank (after_callback w))) (is_dummy w.write.handler) (omega arith)
        (refilled-Less (plain_bytes e w.writer_buffer) _ w (omega arith)))

  start_sending-Less :
      (b : List ℕ) (n : ℕ) (w : World S)
      → 2 * left w.outside + 2 < n
      → Less n (start_sending e cb b w)
  unfolding start_sending
  start_sending-Less [] n w h = omega (arith, left-callback e left f cb w)
  start_sending-Less (x ∷ xs) n w h = omega arith

  bounded : IsBounded (λ j. Unit {0}) rank (labels e cb)
  bounded = record {
    next_buf_at = λ w p. (tt, omega arith);
    send_again_at = λ w p. (tt, send_block-Less w);
    done_at = λ w p. (tt, omega arith);
    after_callback_at = λ w p. (tt, after_block-Less w);
  }

  enter-Less : (n : ℕ) (w : World S) → 2 * left w.outside + 2 ≤ n → Less (suc n) (enter e cb w)
  unfolding enter
  enter-Less n w h =
      if_rule (Less (suc n)) w.write.timedout (omega arith)
        (start_sending-Less (plain_bytes e w.writer_buffer) (suc n) _ (omega (arith, h)))

  -- On a string buffer the handler returns, within two rounds for each time that the socket still
  -- takes bytes, and two more.
  pub plain_returns :
      (fuel : ℕ) (w : World S)
      → 2 * left w.outside + 2 ≤ fuel
      → is_some (drive fuel (labels e cb) (enter e cb w)) ≡ true
  plain_returns fuel w h =
      drive_returns (λ j. Unit {0}) rank (labels e cb) bounded fuel (enter e cb w)
        (tt, enter-Less fuel w h)
