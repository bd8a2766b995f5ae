-- ===== src/Life/Echo/Sending.antt =====
-- The labels of the writer of such a connection, whose buffer is a string.
use nginx_engine.Base.{
  ℕ, true, Bool, zero, suc, false, ◌&&◌, Option, none, some, is_some, List, [], ◌∷◌, ◌++◌,
  append_assoc, take, drop, take-append-drop, if_rule, ◌≡◌, refl, sym, ap, ◌∙◌, inl, inr,
}
use nginx_engine.State.{
  Event, Buffer, string, undef, scalar_ref, array_ref, other_ref, World, Env, Sent, accepted,
  write_again, write_failed, connection, ErrorValue, reader_handler,
}
use nginx_engine.Callback.{callback}
use nginx_engine.Connection.{
  is_dummy, add_timer, del_timer, fail, start_error, reader_start, handle_read, writer_stop,
}
use nginx_engine.Connection.Close.{fail-destroyed}
use nginx_engine.Reader.Frame.{handler-add_timer}
use nginx_engine.Writer.Blocks.{Jump, return, time_out, wait_write, retry_write, restart_reader}
use nginx_engine.Writer.Drive.{target, KeepsLabels}
use nginx_engine.Writer.Plain.{
  plain_bytes, after_chop, after_send, send_block, refilled, after_block, start_sending, enter,
  labels,
}
use nginx_engine.Writer.Stream.Rules.{content}
use nginx_engine.Life.Echo.{
  IsText, IsWriting, Writes, Works, KeepEcho, Left, callback-Left, callback_gone,
}

module _ {S : Type 0} (e : Env S) (mine : ℕ → Bool) (k : KeepEcho e mine) where
  abbrev pub P : Jump S → Type 0
  P (return w) = Works e mine w
  P j = Writes e mine (target j)

  text_bytes : (b : Buffer) → IsText e b → plain_bytes e b ≡ content b
  text_bytes (string b) t = refl
  text_bytes undef t = t
  text_bytes (scalar_ref b) t = absurd t
  text_bytes (array_ref l) t = absurd t
  text_bytes other_ref t = absurd t

  works : (w : World S) → Writes e mine w → Works e mine w
  works w (inl d) = inl d
  works w (inr i) = inr (inr i)

  -- A step of the writer that leaves the stream.
  wrote :
      (w : World S) (v : Event) (s : S)
      → v.handler ≡ w.write.handler
      → Writes e mine w
      → Writes e mine (record w { write = v; outside = s })
  wrote w v s h (inl d) = inl d
  wrote w v s h (inr i) =
      inr (record { echoing = i.echoing; writes = h ∙ i.writes; rests = i.rests })

  failed : (cb : ℕ) (err : ErrorValue) (w : World S) → Works e mine (fail e cb err w)
  failed cb err w = inl (fail-destroyed e cb err w)

  pub start_failed :
      (c : Option ℕ) (w : World S) → Works e mine w → Works e mine (start_error e c w)
  unfolding start_error
  start_failed none w (inl d) = inl d
  start_failed none w (inr (inl i)) =
      inr (inl (record { echoing = i.echoing; reads = i.reads; rests = i.rests; empty = i.empty }))
  start_failed none w (inr (inr i)) =
      inr (inr (record { echoing = i.echoing; writes = i.writes; rests = i.rests }))
  start_failed (some c) w p = failed c _ w

  module _ (cb : ℕ) (own : mine cb ≡ true) where
    -- The sub is called when nothing is left to write.
    called :
        (w : World S)
        → content w.writer_buffer ≡ []
        → Writes e mine w
        → Writes e mine (callback e cb false w)
    called w h (inl d) = inl (callback_gone e mine k cb w d)
    called w h (inr i) = left (callback-Left e mine k cb w own i.echoing h)
      where
        left : Left e mine w (callback e cb false w) → Writes e mine (callback e cb false w)
        left (inl d) = inl d
        left (inr (j, r, x)) =
            inr (record { echoing = j; writes = x ∙ i.writes; rests = r ∙ i.rests })

    waits : (w : World S) → Writes e mine w → Works e mine (wait_write e cb (λ v. v) w)
    unfolding wait_write
    waits w p =
        if_rule (Works e mine) (e.handle_write_event w.outside).0
          (works _ (wrote w _ _ (handler-add_timer w.writer_timeout w.write) p)) (failed cb _ _)

    retries : (w : World S) → Writes e mine w → P (retry_write e cb (λ v. v) w)
    unfolding retry_write
    retries w p =
        if_rule P (e.handle_write_event w.outside).0
          (if_rule P w.write.ready (wrote w _ _ refl p)
            (works _ (wrote w _ _ (handler-add_timer w.writer_timeout w.write) p)))
          (failed cb _ _)

    -- The reader goes on when nothing is left to write.
    restarts :
        (w : World S)
        → content w.writer_buffer ≡ []
        → Writes e mine w
        → Works e mine (restart_reader e cb w)
    unfolding restart_reader writer_stop reader_start handle_read
    restarts w h p =
        let r : Event = record (del_timer w.read) { handler = reader_handler } in
        let s : S = (e.handle_read_event w.outside).1 in
        if_rule (Works e mine) (is_some w.reader_callback && w.has_reader_buffer)
          (if_rule (Works e mine) (e.handle_read_event w.outside).0
            (reads (add_timer w.reader_timeout r) s (handler-add_timer w.reader_timeout r) p)
            (start_failed w.reader_callback
              (record (writer_stop connection w) { read = r; outside = s }) (reads r s refl p)))
          (works w p)
      where
        reads :
            (r : Event) (s : S)
            → r.handler ≡ reader_handler
            → Writes e mine w
            → Works e mine (record (writer_stop connection w) { read = r; outside = s })
        reads r s h' (inl d) = inl d
        reads r s h' (inr i) =
            inr (inl (record { echoing = i.echoing; reads = h'; rests = refl; empty = h }))

    -- Some bytes went out, and the rest is in the buffer.
    moved :
        (n : ℕ) (w : World S)
        → Writes e mine w
        → Writes e mine (record w {
          writer_buffer = string (drop n (plain_bytes e w.writer_buffer));
          sent = w.sent ++ take n (plain_bytes e w.writer_buffer);
        })
    moved n w (inl d) = inl d
    moved n w (inr i) = inr (record {
      echoing = record {
        text = tt;
        echoed =
            append_assoc w.sent (take n b) (drop n b ++ w.reader_buffer.bytes)
            ∙ ap (λ t. w.sent ++ t)
                (sym (append_assoc (take n b) (drop n b) w.reader_buffer.bytes)
                  ∙ ap (λ t. t ++ w.reader_buffer.bytes)
                      (take-append-drop n b ∙ text_bytes w.writer_buffer i.echoing.text))
            ∙ i.echoing.echoed;
        callback = i.echoing.callback;
        output = i.echoing.output;
        reader_mine = i.echoing.reader_mine;
        writer_mine = i.echoing.writer_mine;
      };
      writes = i.writes;
      rests = i.rests;
    })
      where
        b : List ℕ
        b = plain_bytes e w.writer_buffer

    chopped :
        (rest : List ℕ) (w : World S)
        → w.writer_buffer ≡ string rest
        → Writes e mine w
        → P (after_chop e cb rest w)
    unfolding after_chop
    chopped [] w h p = called w (ap content h) p
    chopped (x ∷ xs) w h p = waits _ (wrote w (record w.write { ready = false }) w.outside refl p)

    sent : (n : Sent) (w : World S) → Writes e mine w → P (after_send e cb n w)
    unfolding after_send
    sent write_failed w p = failed cb _ w
    sent (accepted zero) w p = failed cb _ w
    sent write_again w p = retries w p
    sent (accepted (suc n)) w p =
        chopped (drop (suc n) (plain_bytes e w.writer_buffer)) _ refl (moved (suc n) w p)

    -- An empty buffer, as the C code sees it, has no content.
    no_content :
        (w : World S)
        → plain_bytes e w.writer_buffer ≡ []
        → IsWriting e mine w
        → content w.writer_buffer ≡ []
    no_content w h i = sym (text_bytes w.writer_buffer i.echoing.text) ∙ h

    refills :
        (b : List ℕ) (w : World S)
        → plain_bytes e w.writer_buffer ≡ b
        → IsWriting e mine w
        → P (refilled e cb b w)
    unfolding refilled
    refills [] w h i = restarts w (no_content w h i) (inr i)
    refills (x ∷ xs) w h i = if_rule P w.write.ready (inr i) (waits w (inr i))

    starts :
        (b : List ℕ) (w : World S)
        → plain_bytes e w.writer_buffer ≡ b
        → Writes e mine w
        → P (start_sending e cb b w)
    unfolding start_sending
    starts [] w h (inl d) = inl (callback_gone e mine k cb w d)
    starts [] w h (inr i) = called w (no_content w h i) (inr i)
    starts (x ∷ xs) w h p = p

    after_called : (w : World S) → Writes e mine w → P (after_block e cb w)
    unfolding after_block
    after_called w (inl d) = rw d (inl refl)
    after_called w (inr i) =
        if_rule P w.destroyed (inr (inr i))
          (if_rule P (is_dummy w.write.handler) (inr (inr i)) (refills _ w refl i))

    pub keeps : KeepsLabels P (labels e cb)
    unfolding send_block
    keeps = record {
      next_buf_at = λ w p. works w p;
      send_again_at = λ w p. sent _ _ (wrote w _ _ refl p);
      done_at = λ w p. works w p;
      after_callback_at = after_called;
    }

    pub enters : (w : World S) → Writes e mine w → P (enter e cb w)
    unfolding enter time_out
    enters w p =
        if_rule P w.write.timedout (failed cb _ _)
          (starts _ _ refl (wrote w (del_timer w.write) w.outside refl p))
