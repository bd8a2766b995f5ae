-- ===== src/Writer/Stream/Scalar.antt =====
-- ngxe_rvpv_writer_handler: the bytes of the scalar go out in order, each once.
use mathlib.Core.Path.{subst}
use nginx_engine.Base.{
  ℕ, zero, suc, ◌+◌, ◌≤◌, ◌<◌, Bool, true, false, ◌&&◌, some, List, [], ◌++◌, append-nil,
  append_assoc, take, drop, drop_all, take-append-drop_from, length, length-drop, if◌then◌else◌,
  ltb, ◌≡◌, refl, sym, ap, ◌∙◌, ◌⊎◌, inl, inr, if_rule, if_cases, arith,
}
use nginx_engine.State.{
  Buffer, undef, scalar_ref, World, Env, Sent, accepted, write_again, write_failed,
}
use nginx_engine.Connection.{is_dummy, del_timer}
use nginx_engine.Writer.Blocks.{
  Jump, return, next_buf, send_again, done, after_callback, drive, wait_write,
}
use nginx_engine.Writer.Drive.{KeepsLabels, drive_inv}
use nginx_engine.Writer.Offset.{int_limit, text_from, text_from-drop, has_more-ltb, to_int_small}
use nginx_engine.Writer.Scalar.{
  is_ref, reset_offset, referent, after_send, send_block, done_block, after_block, enter, labels,
}
use nginx_engine.Writer.Stream.Rules.{
  View, view, content, unsent, Underway, Settled, Refilled, Refills, IsPart, SendsPart,
  callback-Refilled, fail_rule, time_out_rule, wait_write_rule, retry_write_rule,
  restart_reader_rule,
}

-- A reference to a scalar whose length an `int` can hold.
abbrev pub IsScalarRef : Buffer → Type 0
IsScalarRef b = (x : List ℕ) × (b ≡ scalar_ref x) × (length x < int_limit)

-- A buffer that the handler writes from its start, or none that it writes.
abbrev pub IsScalar : Buffer → ℕ → Type 0
IsScalar b o = (o ≡ 0) × ((is_ref b ≡ false) ⊎ IsScalarRef b)

dead : (v : View) → v.destroyed ≡ true → Settled v
dead v h = inl h

-- A reference of the handler's kind that the test lets through.
ref_of :
    (b : Buffer) (c : Bool)
    → (is_ref b && c) ≡ true
    → (is_ref b ≡ false) ⊎ IsScalarRef b
    → IsScalarRef b
ref_of b c t (inl h) = absurd (ground arith)
ref_of b c t (inr k) = k

-- A string that the position does not lie in is empty.
empty_of : (xs : List ℕ) (o : ℕ) → length xs ≤ o → (o ≡ 0) ⊎ (o < length xs) → xs ≡ []
empty_of xs o h p = drop_all 0 xs (omega arith)

module _ {S : Type 0} (e : Env S) where
  unsent-referent : (b : Buffer) (o i : ℕ) → IsScalarRef b → unsent b o i ≡ drop o (referent e b)
  unsent-referent b o i (x, h, s) = rw h refl

  content-referent : (b : Buffer) → IsScalarRef b → content b ≡ referent e b
  content-referent b (x, h, s) = rw h refl

  short_referent : (b : Buffer) → IsScalarRef b → length (referent e b) < int_limit
  short_referent b (x, h, s) = rw h s

  -- The writer is inside of the scalar.
  abbrev Inside : World S → Type 0
  Inside w = IsScalarRef w.writer_buffer × (w.writer_offset < length (referent e w.writer_buffer))

  abbrev P : Jump S → Type 0
  P (return w) = Settled (view w)
  P (next_buf w) = Settled (view w)
  P (send_again w) = Underway (view w) × Inside w
  P (done w) = (w.sent ≡ w.queued) × (w.writer_offset ≡ 0)
  P (after_callback w) = Refilled IsScalar (view w)

  module _ (r : Refills IsScalar e) (part_sent : SendsPart e) (cb : ℕ) where
    -- Some bytes went out, and the offset has not wrapped around.
    moves :
        (n : ℕ) (w : World S)
        → Underway (view w)
        → IsScalarRef w.writer_buffer
        → let v = record w {
          writer_offset = w.writer_offset + suc n;
          sent = w.sent ++ take (suc n) (drop w.writer_offset (referent e w.writer_buffer));
        } in
          P (
            if ltb (w.writer_offset + suc n) (length (referent e w.writer_buffer))
            then return (
                wait_write e cb reset_offset
                  (record v { write = record w.write { ready = false } }))
            else done (reset_offset v))
    moves n w u k =
        let b : List ℕ = referent e w.writer_buffer in
        let o : ℕ = w.writer_offset in
        let v : World S = record w {
          writer_offset = o + suc n;
          sent = w.sent ++ take (suc n) (drop o b);
          write = record w.write { ready = false };
        } in
        let split : (w.sent ++ take (suc n) (drop o b)) ++ drop (o + suc n) b ≡ w.queued =
          append_assoc w.sent (take (suc n) (drop o b)) (drop (o + suc n) b)
          ∙ ap (λ t. w.sent ++ t)
              (take-append-drop_from o (suc n) b
                ∙ sym (unsent-referent w.writer_buffer o w.writer_index k))
          ∙ u in
        if_cases P (ltb (o + suc n) (length b))
          (λ more. wait_write_rule e Settled dead cb reset_offset v (
            inr (
              inl (
                ap (λ t. v.sent ++ t) (unsent-referent w.writer_buffer (o + suc n) w.writer_index k)
                ∙ split))))
          (λ all. (
            sym (append-nil (w.sent ++ take (suc n) (drop o b)))
                ∙ ap (λ t. (w.sent ++ take (suc n) (drop o b)) ++ t)
                    (sym (drop_all (o + suc n) b (ground arith)))
                ∙ split,
            refl,
          ))

    after_send-P :
        (n : Sent) (w : World S)
        → Underway (view w)
        → Inside w
        → IsPart n (text_from e w.writer_offset (referent e w.writer_buffer))
        → P (after_send e cb n w)
    unfolding after_send
    after_send-P write_failed w u k part = fail_rule e Settled dead cb _ _
    after_send-P (accepted zero) w u k part = fail_rule e Settled dead cb _ _
    after_send-P write_again w u k part =
        retry_write_rule e P cb reset_offset w
          (λ v q.
            subst
              (λ x. Underway x × (IsScalarRef x.buffer × (x.offset < length (referent e x.buffer))))
              (sym q) (u, k))
          (λ v q. inr (inl (subst Underway (sym q) u))) (λ v. dead (view v))
    after_send-P (accepted (suc n)) w u (k, inside) part =
        let b : List ℕ = referent e w.writer_buffer in
        let o : ℕ = w.writer_offset in
        let all_read : text_from e o b ≡ drop o b =
          text_from-drop e o b (omega (arith, inside, short_referent w.writer_buffer k)) in
        let fits : o + suc n < int_limit = omega (
          arith,
          part,
          ap length all_read,
          length-drop o b,
          inside,
          short_referent w.writer_buffer k,
        ) in
        rw (to_int_small (o + suc n) fits, all_read, has_more-ltb (o + suc n) b fits)
          (moves n w u k)

    -- The test of AFTERCALLBACK.
    starts :
        (w : World S)
        → w.writer_offset ≡ 0
        → (is_ref w.writer_buffer && ltb 0 (length (referent e w.writer_buffer))) ≡ true
        → w.writer_offset < length (referent e w.writer_buffer)
    starts w z t = ground (arith, z, t)

    after_block-P : (w : World S) → Refilled IsScalar (view w) → P (after_block e cb w)
    unfolding after_block
    after_block-P w (inl d) = rw d (inl refl)
    after_block-P w (inr (f, (z, k))) = if_rule P w.destroyed (inr (inr f)) (
        if_rule P (is_dummy w.write.handler) (inr (inr f)) (
          if_cases P (is_ref w.writer_buffer && ltb 0 (length (referent e w.writer_buffer)))
            (λ t.
              let k' : IsScalarRef w.writer_buffer =
                ref_of w.writer_buffer (ltb 0 (length (referent e w.writer_buffer))) t k in
              if_rule P w.write.ready
                (
                  ap (λ t. w.sent ++ t)
                        (ap (λ o. unsent w.writer_buffer o w.writer_index) z
                          ∙ unsent-referent w.writer_buffer 0 w.writer_index k'
                          ∙ sym (content-referent w.writer_buffer k'))
                      ∙ f,
                  (k', starts w z t),
                )
                (wait_write_rule e Settled dead cb reset_offset w (inr (inr f))))
            (λ t. restart_reader_rule e Settled dead cb w (inr (inr f)))))

    keeps : KeepsLabels P (labels e cb)
    unfolding send_block done_block
    keeps = record {
      next_buf_at = λ w p. p;
      send_again_at = λ w p.
          after_send-P
            (e.send w.outside (text_from e w.writer_offset (referent e w.writer_buffer))).0 _ p.0
            p.1 (part_sent w.outside (text_from e w.writer_offset (referent e w.writer_buffer)));
      done_at = λ w p.
          callback-Refilled e IsScalar r cb (record w { writer_buffer = undef })
            (record { all_sent = p.0; empty = refl; kind = (p.1, inl refl) });
      after_callback_at = after_block-P;
    }

    enter-P :
        (w : World S)
        → Underway (view w)
        → IsScalarRef w.writer_buffer
        → (w.writer_offset ≡ 0) ⊎ (w.writer_offset < length (content w.writer_buffer))
        → P (enter e cb w)
    unfolding enter
    enter-P w u k p = if_rule P w.write.timedout (time_out_rule e Settled dead cb w) (
        rw
          (has_more-ltb w.writer_offset (referent e w.writer_buffer) (
            within p (ap length (content-referent w.writer_buffer k))
              (short_referent w.writer_buffer k)))
          (if_cases P (ltb w.writer_offset (length (referent e w.writer_buffer)))
            (λ t. (u, (k, ground arith)))
            (λ t.
              let short : length (referent e w.writer_buffer) ≤ w.writer_offset = ground arith in
              callback-Refilled e IsScalar r cb
                (reset_offset (record w { write = del_timer w.write }))
                (record {
                  all_sent =
                      sym (append-nil w.sent)
                      ∙ ap (λ t. w.sent ++ t)
                          (sym (
                            unsent-referent w.writer_buffer w.writer_offset w.writer_index k
                            ∙ drop_all w.writer_offset (referent e w.writer_buffer) short))
                      ∙ u;
                  empty =
                      empty_of (content w.writer_buffer) w.writer_offset
                        (rw (content-referent w.writer_buffer k) short) p;
                  kind = (refl, inr k);
                }))))
      where
        within :
            (w.writer_offset ≡ 0) ⊎ (w.writer_offset < length (content w.writer_buffer))
            → length (content w.writer_buffer) ≡ length (referent e w.writer_buffer)
            → length (referent e w.writer_buffer) < int_limit
            → w.writer_offset < int_limit
        within (inl z) c s = omega (arith, z)
        within (inr h) c s = omega (arith, h, c, s)

    -- However often the handler of a scalar reference sends, waits or calls the sub: if it starts at
    -- a position in the scalar, with what was sent and what is left behind it being what Perl subs
    -- have queued, then so it is when it returns, for the rest of a buffer or for a new one, or the
    -- connection is destroyed.
    pub scalar_stream :
        (fuel : ℕ) (w w' : World S)
        → Underway (view w)
        → IsScalarRef w.writer_buffer
        → (w.writer_offset ≡ 0) ⊎ (w.writer_offset < length (content w.writer_buffer))
        → drive fuel (labels e cb) (enter e cb w) ≡ some w'
        → Settled (view w')
    scalar_stream fuel w w' u k p h =
        drive_inv P (labels e cb) keeps fuel (enter e cb w) (enter-P w u k p) h
