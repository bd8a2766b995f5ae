-- ===== src/Writer/Frame/Handlers.antt =====
-- The three handlers of the writer keep such a property.
use nginx_engine.Base.{
  ℕ, zero, suc, ◌+◌, false, ◌&&◌, Option, none, some, List, [], ◌∷◌, ◌++◌, length, take, drop, ltb,
  if_rule,
}
use nginx_engine.State.{
  Item, scalar, not_ref, World, Env, Sent, accepted, write_again, write_failed,
}
use nginx_engine.Connection.{is_dummy, del_timer}
use nginx_engine.Writer.Offset.{to_int, has_more, text_from}
use nginx_engine.Writer.Blocks.{Jump}
use nginx_engine.Writer.Drive.{target, KeepsLabels}
use nginx_engine.Writer.Plain
use nginx_engine.Writer.Scalar
use nginx_engine.Writer.Array
use nginx_engine.Writer.Scalar.{reset_offset}
use nginx_engine.Writer.Frame.Rules.{
  IsFrame, wrote, placed, moved, time_out_frame, wait_write_frame, retry_write_frame,
  restart_reader_frame, reset_offset_frame,
}

module _ {ℓ} {S : Type 0} (e : Env S) (P : World S → Type ℓ) (f : IsFrame e P) where
  abbrev Q : Jump S → Type ℓ
  Q j = P (target j)

  module _ (cb : ℕ) where
    plain_after_send : (n : Sent) (w : World S) → P w → Q (Plain.after_send e cb n w)
    unfolding Plain.after_send
    plain_after_send write_failed w p = f.fails cb _ w p
    plain_after_send (accepted zero) w p = f.fails cb _ w p
    plain_after_send write_again w p = retry_write_frame e P f cb (λ v. v) (λ v q. q) w p
    plain_after_send (accepted (suc n)) w p =
        chop (drop (suc n) (Plain.plain_bytes e w.writer_buffer)) _ (f.steps w _ _ _ _ _ _ _ _ p)
      where
        chop : (rest : List ℕ) (v : World S) → P v → Q (Plain.after_chop e cb rest v)
        chop [] v q = f.calls cb v q
        chop (x ∷ xs) v q =
            wait_write_frame e P f cb (λ u. u) (λ u r. r) _
              (wrote e P f v (record v.write { ready = false }) v.outside q)

    pub plain_labels : KeepsLabels Q (Plain.labels e cb)
    unfolding Plain.send_block Plain.after_block
    plain_labels = record {
      next_buf_at = λ w p. p;
      send_again_at = λ w p. plain_after_send _ _ (wrote e P f w _ _ p);
      done_at = λ w p. p;
      after_callback_at =
          λ w p. if_rule Q w.destroyed p (if_rule Q (is_dummy w.write.handler) p (refilled _ w p));
    }
      where
        refilled : (b : List ℕ) (w : World S) → P w → Q (Plain.refilled e cb b w)
        refilled [] w p = restart_reader_frame e P f cb w p
        refilled (x ∷ xs) w p =
            if_rule Q w.write.ready p (wait_write_frame e P f cb (λ u. u) (λ u r. r) w p)

    pub plain_enter : (w : World S) → P w → Q (Plain.enter e cb w)
    unfolding Plain.enter
    plain_enter w p =
        if_rule Q w.write.timedout (time_out_frame e P f cb w p)
          (sending _ _ (wrote e P f w _ w.outside p))
      where
        sending : (b : List ℕ) (v : World S) → P v → Q (Plain.start_sending e cb b v)
        sending [] v q = f.calls cb v q
        sending (x ∷ xs) v q = q

    scalar_after_send : (n : Sent) (w : World S) → P w → Q (Scalar.after_send e cb n w)
    unfolding Scalar.after_send
    scalar_after_send write_failed w p = f.fails cb _ _ (reset_offset_frame e P f cb w p)
    scalar_after_send (accepted zero) w p = f.fails cb _ _ (reset_offset_frame e P f cb w p)
    scalar_after_send write_again w p =
        retry_write_frame e P f cb reset_offset (reset_offset_frame e P f cb) w p
    scalar_after_send (accepted (suc n)) w p =
        if_rule Q (has_more (to_int (w.writer_offset + suc n)) (Scalar.referent e w.writer_buffer))
          (wait_write_frame e P f cb reset_offset (reset_offset_frame e P f cb) _ (
            moved e P f w (record w.write { ready = false }) (to_int (w.writer_offset + suc n))
              (w.sent
                ++ take (suc n) (text_from e w.writer_offset (Scalar.referent e w.writer_buffer)))
              p))
          (f.steps w w.read w.write w.timed_out w.writer_buffer _ w.writer_index _ w.outside p)

    pub scalar_labels : KeepsLabels Q (Scalar.labels e cb)
    unfolding Scalar.send_block Scalar.done_block Scalar.after_block
    scalar_labels = record {
      next_buf_at = λ w p. p;
      send_again_at = λ w p. scalar_after_send _ _ (wrote e P f w _ _ p);
      done_at = λ w p. f.calls cb _ (f.steps w _ _ _ _ _ _ _ _ p);
      after_callback_at = λ w p. if_rule Q w.destroyed p (
          if_rule Q (is_dummy w.write.handler) p (
            if_rule Q
              (Scalar.is_ref w.writer_buffer && ltb 0 (length (Scalar.referent e w.writer_buffer)))
              (if_rule Q w.write.ready p
                (wait_write_frame e P f cb reset_offset (reset_offset_frame e P f cb) w p))
              (restart_reader_frame e P f cb w p)));
    }

    pub scalar_enter : (w : World S) → P w → Q (Scalar.enter e cb w)
    unfolding Scalar.enter
    scalar_enter w p = if_rule Q w.write.timedout (time_out_frame e P f cb w p) (
        if_rule Q (has_more w.writer_offset (Scalar.referent e w.writer_buffer))
          (wrote e P f w _ w.outside p) (f.calls cb _ (f.steps w _ _ _ _ _ _ _ _ p)))

    array_after_send : (n : Sent) (w : World S) → P w → Q (Array.after_send e cb n w)
    unfolding Array.after_send
    array_after_send write_failed w p = f.fails cb _ _ (placed e P f w _ _ p)
    array_after_send (accepted zero) w p = f.fails cb _ _ (placed e P f w _ _ p)
    array_after_send write_again w p =
        retry_write_frame e P f cb reset_offset (reset_offset_frame e P f cb) w p
    array_after_send (accepted (suc n)) w p =
        if_rule Q
          (has_more (to_int (w.writer_offset + suc n)) (Array.item_bytes e (Array.current e w)))
          (wait_write_frame e P f cb reset_offset (reset_offset_frame e P f cb) _ (
            moved e P f w (record (del_timer w.write) { ready = false })
              (to_int (w.writer_offset + suc n))
              (w.sent
                ++ take (suc n)
                    (text_from e w.writer_offset (Array.item_bytes e (Array.current e w))))
              p))
          (f.steps w w.read _ w.timed_out w.writer_buffer _ _ _ w.outside p)

    array_after_done : (w : World S) → P w → Q (Array.after_done e cb w)
    unfolding Array.after_done
    array_after_done w p = if_rule Q w.destroyed p (
        if_rule Q (is_dummy w.write.handler) p (
          if_rule Q (Scalar.is_ref w.writer_buffer)
            (if_rule Q w.write.ready (placed e P f w _ _ p) (
              wait_write_frame e P f cb reset_offset (reset_offset_frame e P f cb) _
                (placed e P f w _ _ p)))
            (restart_reader_frame e P f cb w p)))

    pub array_labels : KeepsLabels Q (Array.labels e cb)
    unfolding Array.next_block Array.send_block Array.done_block
    array_labels = record {
      next_buf_at = λ w p. at _ w p;
      send_again_at = λ w p. array_after_send _ _ (wrote e P f w _ _ p);
      done_at = λ w p. array_after_done _ (f.calls cb _ (f.steps w _ _ _ _ _ _ _ _ p));
      after_callback_at = λ w p. p;
    }
      where
        at : (i : Option Item) (w : World S) → P w → Q (Array.next_at e cb i w)
        at none w p = p
        at (some not_ref) w p = f.fails cb _ _ (placed e P f w _ _ p)
        at (some (scalar b)) w p = if_rule Q (has_more w.writer_offset b) p (placed e P f w _ _ p)

    pub array_enter : (w : World S) → P w → Q (Array.enter e cb w)
    unfolding Array.enter
    array_enter w p =
        if_rule Q w.write.timedout (time_out_frame e P f cb w p) (wrote e P f w _ w.outside p)
