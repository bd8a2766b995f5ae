-- ===== src/Writer/Stream/Plain.antt =====
-- ngxe_writer_handler on a string: the bytes go out in order, each once.
use nginx_engine.Base.{
  ℕ, zero, suc, true, false, some, List, [], ◌∷◌, ◌++◌, append-nil, append_assoc, take, drop,
  take-append-drop, ◌≡◌, refl, sym, ap, ◌∙◌, ◌⊎◌, inl, inr, if_rule,
}
use mathlib.Core.Path.{subst}
use nginx_engine.State.{Buffer, string, World, Env, Sent, accepted, write_again, write_failed}
use nginx_engine.Connection.{is_dummy}
use nginx_engine.Writer.Blocks.{Jump, return, next_buf, send_again, done, after_callback, drive}
use nginx_engine.Writer.Drive.{KeepsLabels, drive_inv}
use nginx_engine.Writer.Plain.{
  plain_bytes, after_chop, after_send, send_block, refilled, after_block, start_sending, enter,
  labels,
}
use nginx_engine.Writer.Stream.Rules.{
  View, view, content, Fresh, Refilled, Refills, callback-Refilled, fail_rule, time_out_rule,
  wait_write_rule, retry_write_rule, restart_reader_rule,
}

module _ {S : Type 0} (e : Env S) where
  -- What the C code takes for the string is what the buffer holds.
  abbrev pub IsPlain : Buffer → ℕ → Type 0
  IsPlain b o = plain_bytes e b ≡ content b

  -- The connection is destroyed, or what was sent and the string are what Perl subs have queued.
  abbrev pub Sound : View → Type 0
  Sound v = (v.destroyed ≡ true) ⊎ Fresh v

  abbrev P : Jump S → Type 0
  P (return w) = Sound (view w)
  P (next_buf w) = Sound (view w)
  P (send_again w) = Fresh (view w) × IsPlain w.writer_buffer w.writer_offset
  P (done w) = Sound (view w)
  P (after_callback w) = Refilled IsPlain (view w)

  dead : (v : View) → v.destroyed ≡ true → Sound v
  dead v h = inl h

  module _ (r : Refills IsPlain e) (cb : ℕ) where
    chop :
        (rest : List ℕ) (w : World S)
        → w.writer_buffer ≡ string rest
        → w.sent ++ rest ≡ w.queued
        → P (after_chop e cb rest w)
    unfolding after_chop
    chop [] w b h =
        callback-Refilled e IsPlain r cb w
          (record { all_sent = sym (append-nil w.sent) ∙ h; empty = rw b refl; kind = rw b refl })
    chop (x ∷ xs) w b h =
        let f : Fresh (view w) = rw b h in
        wait_write_rule e Sound dead cb (λ v. v)
          (record w { write = record w.write { ready = false } }) (inr f)

    after_send-P :
        (n : Sent) (w : World S)
        → Fresh (view w)
        → IsPlain w.writer_buffer w.writer_offset
        → P (after_send e cb n w)
    unfolding after_send
    after_send-P write_failed w f k = fail_rule e Sound dead cb _ _
    after_send-P (accepted zero) w f k = fail_rule e Sound dead cb _ _
    after_send-P write_again w f k =
        retry_write_rule e P cb (λ v. v) w
          (λ v q. subst (λ x. Fresh x × IsPlain x.buffer x.offset) (sym q) (f, k))
          (λ v q. inr (subst Fresh (sym q) f)) (λ v. dead (view v))
    after_send-P (accepted (suc n)) w f k =
        chop (drop (suc n) (plain_bytes e w.writer_buffer)) _ refl (
          append_assoc w.sent (take (suc n) (plain_bytes e w.writer_buffer))
            (drop (suc n) (plain_bytes e w.writer_buffer))
          ∙ ap (λ t. w.sent ++ t) (take-append-drop (suc n) (plain_bytes e w.writer_buffer) ∙ k)
          ∙ f)

    keeps : KeepsLabels P (labels e cb)
    unfolding send_block after_block
    keeps = record {
      next_buf_at = λ w p. p;
      send_again_at =
          λ w p. after_send-P (e.send w.outside (plain_bytes e w.writer_buffer)).0 _ p.0 p.1;
      done_at = λ w p. p;
      after_callback_at = after_block-P;
    }
      where
        refilled-P :
            (b : List ℕ) (w : World S)
            → Fresh (view w)
            → IsPlain w.writer_buffer w.writer_offset
            → P (refilled e cb b w)
        refilled-P [] w f k = restart_reader_rule e Sound dead cb w (inr f)
        refilled-P (x ∷ xs) w f k =
            if_rule P w.write.ready (f, k) (wait_write_rule e Sound dead cb (λ v. v) w (inr f))

        after_block-P : (w : World S) → Refilled IsPlain (view w) → P (after_block e cb w)
        after_block-P w (inl d) = rw d (inl refl)
        after_block-P w (inr (f, k)) = if_rule P w.destroyed (inr f) (
            if_rule P (is_dummy w.write.handler) (inr f)
              (refilled-P (plain_bytes e w.writer_buffer) w f k))

    start_sending-P :
        (b : List ℕ) (w : World S)
        → plain_bytes e w.writer_buffer ≡ b
        → Fresh (view w)
        → IsPlain w.writer_buffer w.writer_offset
        → P (start_sending e cb b w)
    unfolding start_sending
    start_sending-P [] w q f k = callback-Refilled e IsPlain r cb w (record {
      all_sent = sym (append-nil w.sent) ∙ ap (λ t. w.sent ++ t) (sym q ∙ k) ∙ f;
      empty = sym k ∙ q;
      kind = k;
    })
    start_sending-P (x ∷ xs) w q f k = (f, k)

    enter-P :
        (w : World S) → Fresh (view w) → IsPlain w.writer_buffer w.writer_offset → P (enter e cb w)
    unfolding enter
    enter-P w f k =
        if_rule P w.write.timedout (time_out_rule e Sound dead cb w)
          (start_sending-P (plain_bytes e w.writer_buffer) _ refl f k)

    -- However often the handler of a string buffer sends, waits or calls the sub: if it starts where
    -- what was sent and the string are what Perl subs have queued, then so it is when it returns, or
    -- the connection is destroyed.
    pub plain_stream :
        (fuel : ℕ) (w w' : World S)
        → Fresh (view w)
        → IsPlain w.writer_buffer w.writer_offset
        → drive fuel (labels e cb) (enter e cb w) ≡ some w'
        → Sound (view w')
    plain_stream fuel w w' f k h =
        drive_inv P (labels e cb) keeps fuel (enter e cb w) (enter-P w f k) h
