-- ===== src/Writer/Plain.antt =====
-- ngxe_writer_handler on a buffer that is a string: what is sent is chopped off its front.
use nginx_engine.Base.{ℕ, zero, suc, false, List, [], ◌∷◌, ◌++◌, if◌then◌else◌, take, drop}
use nginx_engine.State.{Buffer, string, World, Env, Sent, accepted, write_again, write_failed}
use nginx_engine.Callback.{callback}
use nginx_engine.Connection.{is_dummy, fail, del_timer, write_error}
use nginx_engine.Writer.Blocks.{
  Jump, return, send_again, after_callback, Labels, time_out, wait_write, retry_write,
  restart_reader,
}

module _ {S : Type 0} (e : Env S) where
  -- What `SvCUR` and `SvPV_nolen` read.
  abbrev pub plain_bytes : Buffer → List ℕ
  plain_bytes (string b) = b
  plain_bytes other = e.stray_bytes other

  module _ (cb : ℕ) where
    -- Lines 997 to 1028: the rest of the buffer is empty or not.
    unfoldable pub after_chop : List ℕ → World S → Jump S
    unfolding wait_write
    after_chop [] w = after_callback (callback e cb false w)
    after_chop (x ∷ xs) w =
        return (wait_write e cb (λ w'. w') (record w { write = record w.write { ready = false } }))

    unfoldable pub after_send : Sent → World S → Jump S
    unfolding retry_write after_chop
    after_send write_failed w = return (fail e cb write_error w)
    after_send (accepted zero) w = return (fail e cb write_error w)
    after_send write_again w = retry_write e cb (λ w'. w') w
    after_send (accepted (suc n)) w =
        let b = plain_bytes w.writer_buffer in
        let rest = drop (suc n) b in
        after_chop rest (record w { writer_buffer = string rest; sent = w.sent ++ take (suc n) b })

    -- SENDAGAIN
    unfoldable pub send_block : World S → Jump S
    unfolding after_send
    send_block w =
        let (n, ready, s) = e.send w.outside (plain_bytes w.writer_buffer) in
        after_send n (record w { write = record w.write { ready = ready }; outside = s })

    unfoldable pub refilled : List ℕ → World S → Jump S
    unfolding wait_write restart_reader
    refilled [] w = return (restart_reader e cb w)
    refilled (x ∷ xs) w =
        if w.write.ready then send_again w else return (wait_write e cb (λ w'. w') w)

    -- AFTERCALLBACK
    unfoldable pub after_block : World S → Jump S
    unfolding refilled
    after_block w =
        if w.destroyed
        then return w
        else if is_dummy w.write.handler
        then return w
        else refilled (plain_bytes w.writer_buffer) w

    unfoldable pub start_sending : List ℕ → World S → Jump S
    start_sending [] w = after_callback (callback e cb false w)
    start_sending (x ∷ xs) w = send_again w

    unfoldable pub enter : World S → Jump S
    unfolding time_out start_sending
    enter w =
        if w.write.timedout
        then return (time_out e cb w)
        else start_sending (plain_bytes w.writer_buffer) (record w { write = del_timer w.write })

    -- There is no NEXTBUF here, and the sub is called where the sending ends.
    abbrev pub labels : Labels S
    labels = record {
      next_buf_at = λ w. return w;
      send_again_at = send_block;
      done_at = λ w. return w;
      after_callback_at = after_block;
    }
