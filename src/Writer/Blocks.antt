-- ===== src/Writer/Blocks.antt =====
-- What the three writer handlers share: jumps, the loop that follows them, and the steps that all
-- three contain.
use nginx_engine.Base.{ℕ, zero, suc, true, ◌&&◌, Option, none, some, is_some, if◌then◌else◌}
use nginx_engine.State.{World, Env, connection}
use nginx_engine.Connection.{
  fail, handle_write, add_write_timer, log, reader_start, writer_stop, timed_out_error, event_error,
}

-- Where a handler goes next: it returns, or jumps to a label. `done` is DONE, or the place behind
-- the sending where there is no such label; `after_callback` is AFTERCALLBACK.
pub data Jump (S : Type 0) : Type 0 where
  return : World S → Jump S
  next_buf : World S → Jump S
  send_again : World S → Jump S
  done : World S → Jump S
  after_callback : World S → Jump S

-- The code behind each label.
pub record Labels (S : Type 0) : Type 0 where
  pub next_buf_at : World S → Jump S
  pub send_again_at : World S → Jump S
  pub done_at : World S → Jump S
  pub after_callback_at : World S → Jump S

module _ {S : Type 0} where
  unfoldable pub drive : ℕ → Labels S → Jump S → Option (World S)
  drive fuel l (return w) = some w
  drive zero l _ = none
  drive (suc fuel) l (next_buf w) = drive fuel l (l.next_buf_at w)
  drive (suc fuel) l (send_again w) = drive fuel l (l.send_again_at w)
  drive (suc fuel) l (done w) = drive fuel l (l.done_at w)
  drive (suc fuel) l (after_callback w) = drive fuel l (l.after_callback_at w)

  module _ (e : Env S) (cb : ℕ) where
    -- `if (ev->timedout) { … }`
    unfoldable pub time_out : World S → World S
    time_out w = fail e cb timed_out_error (log "client timed out" (record w { timed_out = true }))

    -- `ngx_handle_write_event(c->write, 0)`; on an error `reset` and the error path, then the timer.
    unfoldable pub wait_write : (World S → World S) → World S → World S
    unfolding handle_write
    wait_write reset w =
        let (ok, w') = handle_write e w in
        if ok then add_write_timer e w' else fail e cb event_error (reset w')

    -- The same on NGX_AGAIN, where a ready event goes to SENDAGAIN.
    unfoldable pub retry_write : (World S → World S) → World S → Jump S
    unfolding handle_write
    retry_write reset w =
        let (ok, w') = handle_write e w in
        if ok
        then if w'.write.ready then send_again w' else return (add_write_timer e w')
        else return (fail e cb event_error (reset w'))

    -- Nothing is left to write: the reader goes on, if there is one.
    unfoldable pub restart_reader : World S → World S
    unfolding writer_stop reader_start
    restart_reader w =
        if is_some w.reader_callback && w.has_reader_buffer
        then reader_start e connection (writer_stop connection w)
        else w
