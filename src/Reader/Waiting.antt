-- ===== src/Reader/Waiting.antt =====
-- ngxe_reader_handler: a reader that goes on waiting has its timer.
use nginx_engine.Base.{
  ℕ, ◌+◌, ℤ, nonzero, Bool, true, false, not, ◌&&◌, some, is_some, [], ◌∷◌, ◌++◌, leb, length, ◌≡◌,
  sym, ◌∙◌, arith, if_rule, if_cases, ◌⊎◌, inl, inr,
}
use nginx_engine.State.{
  Event, World, Env, ErrorValue, Received, data_read, read_again, read_failed, connection,
}
use nginx_engine.Callback.{callback}
use nginx_engine.Connection.{is_dummy, fail, add_timer, add_read_timer, timed_out_error}
use nginx_engine.Connection.Close.{fail-destroyed}
use nginx_engine.Writer.{writer_start}
use nginx_engine.Writer.Waiting.Labels.{Waits as WriterWaits}
use nginx_engine.Reader.{
  Jump, return, start_writer, recv_again, run_callback, wants_more, has_output, wait_read,
  check_min_len, after_recv, receive, recv_block, grow_if_full, after_callback, callback_block, run,
  enter, handle_reader, reader_event,
}
use nginx_engine.Reader.Drive.{KeepsBlocks, Ends, run_inv}

-- The read event has a timer, if the session has a timeout for it.
abbrev pub IsArmed : {S : Type 0} → World S → Type 0
IsArmed w = nonzero w.reader_timeout ≡ true → is_some w.read.timer ≡ true

-- How a reader may be left: without its connection, stopped, with the writer at work, or with a timer.
abbrev pub Waits : {S : Type 0} → World S → Type 0
Waits w =
    (w.destroyed ≡ true)
    ⊎ ((is_dummy w.read.handler ≡ true) ⊎ ((is_dummy w.write.handler ≡ false) ⊎ IsArmed w))

add_timer_lem : (t : ℤ) (ev : Event) → nonzero t ≡ true → is_some (add_timer t ev).timer ≡ true
add_timer_lem t ev h = ground arith

not_lem : (b : Bool) → not b ≡ true → b ≡ false
not_lem b h = ground arith

and_lem : (a b c : Bool) → (a && b && c) ≡ true → (a ≡ true) × (b ≡ true)
and_lem a b c h = ground arith

-- `K` is about the session pointer, and calls of the sub keep it.
module _ {S : Type 0} (e : Env S) (K : Bool → Type 0)
    (kept : (cb : ℕ) (w : World S) → K w.has_session → K (callback e cb false w).has_session) where
  abbrev P : Jump S → Type 0
  P (return w) = Waits w
  P (start_writer w) =
      K w.has_session × (is_some w.writer_callback ≡ true) × (w.has_writer_buffer ≡ true)
  P (recv_again w) = K w.has_session
  P (run_callback w) = K w.has_session

  armed : (w : World S) → Waits (add_read_timer e w)
  armed w = inr (inr (inr (add_timer_lem w.reader_timeout w.read)))

  fail-Waits : (cb : ℕ) (err : ErrorValue) (w : World S) → Waits (fail e cb err w)
  fail-Waits cb err w = inl (fail-destroyed e cb err w)

  module _ (cb : ℕ) where
    wait_read-P : (w : World S) → K w.has_session → P (wait_read e cb w)
    unfolding wait_read
    wait_read-P w k =
        if_rule P (e.handle_read_event w.outside).0
          (if_rule P w.read.ready k
            (armed (record w { outside = (e.handle_read_event w.outside).1 })))
          (fail-Waits cb _ _)

    check_min_len-P : (w : World S) → K w.has_session → P (check_min_len e cb w)
    unfolding check_min_len
    check_min_len-P w k =
        if_rule P (wants_more (w.callbacks cb).min_len w.reader_buffer) (wait_read-P w k) k

    after_recv-P : (x : Received) (w : World S) → K w.has_session → P (after_recv e cb x w)
    unfolding after_recv
    after_recv-P read_failed w k = fail-Waits cb _ _
    after_recv-P (data_read []) w k = fail-Waits cb _ _
    after_recv-P read_again w k = armed w
    after_recv-P (data_read (y ∷ ys)) w k =
        if_rule P (e.handle_read_event w.outside).0
          (check_min_len-P
            (add_read_timer e (record w {
              reader_buffer = record w.reader_buffer { bytes = w.reader_buffer.bytes ++ y ∷ ys };
              received = w.received ++ y ∷ ys;
              outside = (e.handle_read_event w.outside).1;
            }))
            k)
          (fail-Waits cb _ _)

    recv_block-P : (w : World S) → K w.has_session → P (recv_block e cb w)
    unfolding recv_block
    recv_block-P w k =
        let w' : World S = record w { reader_buffer = grow_if_full e w.reader_buffer } in
        if_rule P (leb w'.reader_buffer.len (length w'.reader_buffer.bytes + 1)) k
          (after_recv-P (receive e w').0 (receive e w').1 k)

    after_callback-P : (w : World S) → K w.has_session → P (after_callback e cb w)
    unfolding after_callback
    after_callback-P w k = if_cases P w.destroyed inl (λ alive.
        if_cases P (is_dummy w.read.handler) (λ h. inr (inl h))
          (λ reads.
            if_cases P (not (is_dummy w.write.handler)) (λ h. inr (inr (inl (not_lem _ h))))
              (λ idle.
                if_cases P
                  (is_some w.writer_callback && w.has_writer_buffer && has_output w.writer_buffer)
                  (λ h. (k, (and_lem _ _ _ h).0, (and_lem _ _ _ h).1)) (λ _. wait_read-P w k))))

    blocks : KeepsBlocks e P cb
    unfolding callback_block
    blocks = record {
      recv_at = recv_block-P;
      callback_at = λ w k. after_callback-P (callback e cb false w) (kept cb w k);
    }

    enter-P : (w : World S) → K w.has_session → P (enter e cb w)
    unfolding enter
    enter-P w k = if_rule P w.read.timedout (fail-Waits cb timed_out_error _) k

  run_waits :
      (limit fuel cb : ℕ) (w w' : World S)
      → K w.has_session
      → run e limit cb fuel (enter e cb w) ≡ some w'
      → Ends e P limit w'
  run_waits limit fuel cb w w' k h =
      run_inv e P limit cb (blocks cb) fuel (enter e cb w) (enter-P cb w k) h

-- Perl subs and native handlers leave the session pointer alone.
pub record KeepSession {S : Type 0} (e : Env S) : Type 0 where
  pub sub : (k : ℕ) (w : World S) → (e.call_sv k w).has_session ≡ w.has_session
  pub native : (f : ℕ) (w : World S) → (e.call_native f w).has_session ≡ w.has_session

module _ {S : Type 0} (e : Env S) where
  reader_event-run :
      (limit fuel cb : ℕ) (w : World S)
      → w.has_session ≡ true
      → w.reader_callback ≡ some cb
      → w.has_reader_buffer ≡ true
      → reader_event e limit fuel connection w ≡ run e limit cb fuel (enter e cb w)
  unfolding reader_event handle_reader
  reader_event-run limit fuel cb w s c b = ground arith

  -- When the reader's handler returns, for a connection with a session, a callback and a buffer, and
  -- whatever its sub does: the connection is destroyed, or the reader is stopped, or the writer is at
  -- work, or the timer of the read event is set if there is a timeout for it; or the handler has ended
  -- in ngxe_writer_start.
  pub reader_event_waits :
      (limit fuel cb : ℕ) (w w' : World S)
      → w.has_session ≡ true
      → w.reader_callback ≡ some cb
      → w.has_reader_buffer ≡ true
      → reader_event e limit fuel connection w ≡ some w'
      → Waits w' ⊎ ((v : World S) × (writer_start e limit connection v ≡ some w'))
  reader_event_waits limit fuel cb w w' s c b h =
      let q = sym (reader_event-run limit fuel cb w s c b) ∙ h in
      elim (run_waits e (λ _. Unit {0}) (λ cb w k. tt) limit fuel cb w w' tt q) [
        | inl r ↦ inl r
        | inr (v, t, r) ↦ inr (v, r)
      ]
