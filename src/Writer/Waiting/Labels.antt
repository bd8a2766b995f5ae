-- ===== src/Writer/Waiting/Labels.antt =====
-- What the labels of the three writer handlers leave: a writer that goes on waiting has its timer.
use nginx_engine.Base.{
  ℕ, zero, suc, ◌+◌, ℤ, nonzero, Bool, true, false, ◌&&◌, Option, none, some, is_some, List, [],
  ◌∷◌, ◌++◌, if◌then◌else◌, length, take, ltb, ◌≡◌, refl, arith, if_rule, if_cases,
}
use nginx_engine.State.{
  Event, undef, Item, scalar, not_ref, World, Env, Sent, accepted, write_again, write_failed,
  ErrorValue,
}
use nginx_engine.Callback.{callback}
use nginx_engine.Connection.{
  is_dummy, fail, add_timer, add_write_timer, start_error, handle_write, del_timer,
}
use nginx_engine.Connection.Close.{fail-destroyed}
use nginx_engine.Writer.Offset.{to_int, has_more, text_from}
use nginx_engine.Writer.Blocks.{
  Jump, return, next_buf, send_again, done, after_callback, time_out, wait_write, retry_write,
  restart_reader,
}
use nginx_engine.Writer.Drive.{KeepsLabels}
use nginx_engine.Writer.Plain
use nginx_engine.Writer.Scalar
use nginx_engine.Writer.Array
use nginx_engine.Writer.Scalar.{is_ref, referent, reset_offset}
use nginx_engine.Writer.Array.{current, item_bytes, reset_position}

-- The write event has a timer, if the session has a timeout for it.
abbrev pub IsArmed : {S : Type 0} → World S → Type 0
IsArmed w = nonzero w.writer_timeout ≡ true → is_some w.write.timer ≡ true

-- How a writer may be left: without its connection, stopped, with a timer, or without a reader that
-- could go on.
pub data Waits {S : Type 0} (w : World S) : Type 0 where
  gone : w.destroyed ≡ true → Waits w
  stopped : is_dummy w.write.handler ≡ true → Waits w
  timed : IsArmed w → Waits w
  no_reader : (is_some w.reader_callback && w.has_reader_buffer) ≡ false → Waits w

add_timer_lem : (t : ℤ) (ev : Event) → nonzero t ≡ true → is_some (add_timer t ev).timer ≡ true
add_timer_lem t ev h = ground arith

module _ {S : Type 0} (e : Env S) where
  -- What holds at a return; the handlers do not have all of the labels.
  abbrev pub At : Type 0 → Type 0 → Type 0 → Jump S → Type 0
  At N D A (return w) = Waits w
  At N D A (next_buf w) = N
  At N D A (send_again w) = Unit {0}
  At N D A (done w) = D
  At N D A (after_callback w) = A

  abbrev pub AtPlain : Jump S → Type 0
  AtPlain = At ⊥ ⊥ (Unit {0})

  abbrev pub AtScalar : Jump S → Type 0
  AtScalar = At ⊥ (Unit {0}) (Unit {0})

  abbrev pub AtArray : Jump S → Type 0
  AtArray = At (Unit {0}) (Unit {0}) ⊥

  pub armed : (w : World S) → Waits (add_write_timer e w)
  armed w = timed (add_timer_lem w.writer_timeout w.write)

  pub failed : (cb : ℕ) (err : ErrorValue) (w : World S) → Waits (fail e cb err w)
  failed cb err w = gone (fail-destroyed e cb err w)

  pub start_failed :
      (c : Option ℕ) (w : World S) → is_dummy w.write.handler ≡ true → Waits (start_error e c w)
  unfolding start_error
  start_failed none w h = stopped h
  start_failed (some cb) w h = failed cb _ w

  module _ (cb : ℕ) where
    time_out-Waits : (w : World S) → Waits (time_out e cb w)
    unfolding time_out
    time_out-Waits w = failed cb _ _

    wait_write-Waits : (reset : World S → World S) (w : World S) → Waits (wait_write e cb reset w)
    unfolding wait_write
    wait_write-Waits reset w =
        if_rule Waits (e.handle_write_event w.outside).0 (armed (handle_write e w).1)
          (failed cb _ _)

    retry_write-P :
        (N D A : Type 0) (reset : World S → World S) (w : World S)
        → At N D A (retry_write e cb reset w)
    unfolding retry_write
    retry_write-P N D A reset w =
        if_rule (At N D A) (e.handle_write_event w.outside).0
          (if_rule (At N D A) w.write.ready tt (armed (handle_write e w).1)) (failed cb _ _)

    restart_reader-Waits : (w : World S) → Waits (restart_reader e cb w)
    unfolding restart_reader
    restart_reader-Waits w =
        if_cases Waits (is_some w.reader_callback && w.has_reader_buffer)
          (λ _.
            if_rule Waits (e.handle_read_event w.outside).0 (stopped refl)
              (start_failed w.reader_callback _ refl))
          no_reader

    -- What stands behind the tests of an AFTERCALLBACK.
    after :
        (N D A : Type 0) (w : World S) (j : Jump S)
        → At N D A j
        → At N D A
            (if w.destroyed then return w else if is_dummy w.write.handler then return w else j)
    after N D A w j p =
        if_cases (At N D A) w.destroyed gone
          (λ _. if_cases (At N D A) (is_dummy w.write.handler) stopped (λ _. p))

    chopped : (rest : List ℕ) (w : World S) → AtPlain (Plain.after_chop e cb rest w)
    unfolding Plain.after_chop
    chopped [] w = tt
    chopped (x ∷ xs) w =
        wait_write-Waits (λ v. v) (record w { write = record w.write { ready = false } })

    plain_sent : (n : Sent) (w : World S) → AtPlain (Plain.after_send e cb n w)
    unfolding Plain.after_send
    plain_sent write_failed w = failed cb _ w
    plain_sent (accepted zero) w = failed cb _ w
    plain_sent write_again w = retry_write-P ⊥ ⊥ (Unit {0}) (λ v. v) w
    plain_sent (accepted (suc n)) w = chopped _ _

    refilled-P : (b : List ℕ) (w : World S) → AtPlain (Plain.refilled e cb b w)
    unfolding Plain.refilled
    refilled-P [] w = restart_reader-Waits w
    refilled-P (x ∷ xs) w = if_rule AtPlain w.write.ready tt (wait_write-Waits (λ v. v) w)

    starting : (b : List ℕ) (w : World S) → AtPlain (Plain.start_sending e cb b w)
    unfolding Plain.start_sending
    starting [] w = tt
    starting (x ∷ xs) w = tt

    pub plain_enter : (w : World S) → AtPlain (Plain.enter e cb w)
    unfolding Plain.enter
    plain_enter w = if_rule AtPlain w.write.timedout (time_out-Waits w) (starting _ _)

    scalar_sent : (n : Sent) (w : World S) → AtScalar (Scalar.after_send e cb n w)
    unfolding Scalar.after_send
    scalar_sent write_failed w = failed cb _ _
    scalar_sent (accepted zero) w = failed cb _ _
    scalar_sent write_again w = retry_write-P ⊥ (Unit {0}) (Unit {0}) reset_offset w
    scalar_sent (accepted (suc n)) w =
        if_rule AtScalar (has_more (to_int (w.writer_offset + suc n)) (referent e w.writer_buffer))
          (wait_write-Waits reset_offset (record w {
            writer_offset = to_int (w.writer_offset + suc n);
            sent =
                w.sent ++ take (suc n) (text_from e w.writer_offset (referent e w.writer_buffer));
            write = record w.write { ready = false };
          }))
          tt

    pub scalar_enter : (w : World S) → AtScalar (Scalar.enter e cb w)
    unfolding Scalar.enter
    scalar_enter w =
        if_rule AtScalar w.write.timedout (time_out-Waits w)
          (if_rule AtScalar (has_more w.writer_offset (referent e w.writer_buffer)) tt tt)

    next_at-P : (i : Option Item) (w : World S) → AtArray (Array.next_at e cb i w)
    unfolding Array.next_at
    next_at-P none w = tt
    next_at-P (some not_ref) w = failed cb _ _
    next_at-P (some (scalar b)) w = if_rule AtArray (has_more w.writer_offset b) tt tt

    array_sent : (n : Sent) (w : World S) → AtArray (Array.after_send e cb n w)
    unfolding Array.after_send
    array_sent write_failed w = failed cb _ _
    array_sent (accepted zero) w = failed cb _ _
    array_sent write_again w = retry_write-P (Unit {0}) (Unit {0}) ⊥ reset_offset w
    array_sent (accepted (suc n)) w =
        if_rule AtArray (has_more (to_int (w.writer_offset + suc n)) (item_bytes e (current e w)))
          (wait_write-Waits reset_offset (record w {
            writer_offset = to_int (w.writer_offset + suc n);
            sent =
                w.sent ++ take (suc n) (text_from e w.writer_offset (item_bytes e (current e w)));
            write = record (del_timer w.write) { ready = false };
          }))
          tt

    pub array_enter : (w : World S) → AtArray (Array.enter e cb w)
    unfolding Array.enter
    array_enter w = if_rule AtArray w.write.timedout (time_out-Waits w) tt

    -- after c->send
    abbrev received : World S → Bool → S → World S
    received w ready s = record w { write = record w.write { ready = ready }; outside = s }

    pub plain_labels : KeepsLabels AtPlain (Plain.labels e cb)
    unfolding Plain.send_block Plain.after_block
    plain_labels = record {
      next_buf_at = λ w p. absurd p;
      send_again_at = λ w p.
          let n = e.send w.outside (Plain.plain_bytes e w.writer_buffer) in
          plain_sent n.0 (received w n.1 n.2);
      done_at = λ w p. absurd p;
      after_callback_at = λ w p. after ⊥ ⊥ (Unit {0}) w _ (refilled-P _ w);
    }

    pub scalar_labels : KeepsLabels AtScalar (Scalar.labels e cb)
    unfolding Scalar.send_block Scalar.done_block Scalar.after_block
    scalar_labels = record {
      next_buf_at = λ w p. absurd p;
      send_again_at = λ w p.
          let n = e.send w.outside (text_from e w.writer_offset (referent e w.writer_buffer)) in
          scalar_sent n.0 (received w n.1 n.2);
      done_at = λ w p. tt;
      after_callback_at = λ w p. after ⊥ (Unit {0}) (Unit {0}) w _ (
          if_rule AtScalar (is_ref w.writer_buffer && ltb 0 (length (referent e w.writer_buffer)))
            (if_rule AtScalar w.write.ready tt (wait_write-Waits reset_offset w))
            (restart_reader-Waits w));
    }

    array_called : (w : World S) → AtArray (Array.after_done e cb w)
    unfolding Array.after_done
    array_called w = after (Unit {0}) (Unit {0}) ⊥ w _ (
        if_rule AtArray (is_ref w.writer_buffer)
          (if_rule AtArray w.write.ready tt (wait_write-Waits reset_offset (reset_position w)))
          (restart_reader-Waits w))

    pub array_labels : KeepsLabels AtArray (Array.labels e cb)
    unfolding Array.next_block Array.send_block Array.done_block
    array_labels = record {
      next_buf_at = λ w p. next_at-P _ w;
      send_again_at = λ w p.
          let n = e.send w.outside (text_from e w.writer_offset (item_bytes e (current e w))) in
          array_sent n.0 (received w n.1 n.2);
      done_at = λ w p. array_called (callback e cb false (record w { writer_buffer = undef }));
      after_callback_at = λ w p. absurd p;
    }
