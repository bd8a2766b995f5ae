-- ===== src/Life/Echo/Reading.antt =====
-- The reader of such a connection.
use nginx_engine.Base.{
  ℕ, Bool, true, false, not, ◌&&◌, some, is_some, List, [], ◌∷◌, ◌++◌, append_assoc, String,
  if_cases, ◌≡◌, refl, sym, ap, ◌∙◌, arith, inl, inr,
}
use nginx_engine.State.{
  Event, Buffer, string, undef, scalar_ref, array_ref, other_ref, World, Env, connection, Handler,
  dummy_handler, reader_handler,
}
use nginx_engine.Callback.{callback}
use nginx_engine.Connection.{is_dummy, log, reader_stop}
use nginx_engine.Connection.Close.{fail-destroyed}
use nginx_engine.Reader.{
  Jump, has_output, callback_block, after_callback, grow_if_full, reader_event,
}
use nginx_engine.Reader.Frame.{IsReaderFrame, Q, grown, stored, wait_read_frame, reader_event_frame}
use nginx_engine.Writer.Stream.Rules.{content}
use nginx_engine.Life.Echo.{
  IsEchoing, IsReading, Reads, Works, KeepEcho, Left, callback-Left, callback_gone,
}
use nginx_engine.Life.Echo.Writing.{writer_start-Works}

module _ {S : Type 0} (e : Env S) (mine : ℕ → Bool) (k : KeepEcho e mine) where
  bytes-grown : (w : World S) → (grow_if_full e w.reader_buffer).bytes ≡ w.reader_buffer.bytes
  unfolding grow_if_full
  bytes-grown w = ground arith

  grows : (w : World S) → Reads e mine w → Reads e mine (grown e w)
  grows w (inl d) = inl d
  grows w (inr i) = inr (record {
    echoing = record {
      text = i.echoing.text;
      echoed = rw (bytes-grown w) i.echoing.echoed;
      callback = i.echoing.callback;
      output = i.echoing.output;
      reader_mine = i.echoing.reader_mine;
      writer_mine = i.echoing.writer_mine;
    };
    reads = i.reads;
    rests = i.rests;
    empty = i.empty;
  })

  stores : (xs : List ℕ) (w : World S) → Reads e mine w → Reads e mine (stored xs w)
  stores xs w (inl d) = inl d
  stores xs w (inr i) = inr (record {
    echoing = record {
      text = i.echoing.text;
      echoed =
          ap (λ t. w.sent ++ t)
            (sym (append_assoc (content w.writer_buffer) w.reader_buffer.bytes xs))
          ∙ sym (append_assoc w.sent (content w.writer_buffer ++ w.reader_buffer.bytes) xs)
          ∙ ap (λ t. t ++ xs) i.echoing.echoed;
      callback = i.echoing.callback;
      output = i.echoing.output;
      reader_mine = i.echoing.reader_mine;
      writer_mine = i.echoing.writer_mine;
    };
    reads = i.reads;
    rests = i.rests;
    empty = i.empty;
  })

  -- A step of the reader that leaves the stream.
  stepped :
      (w : World S) (r : Event) (t : Bool) (s : S)
      → r.handler ≡ w.read.handler
      → Reads e mine w
      → Reads e mine (record w { read = r; timed_out = t; outside = s })
  stepped w r t s h (inl d) = inl d
  stepped w r t s h (inr i) =
      inr (record { echoing = i.echoing; reads = h ∙ i.reads; rests = i.rests; empty = i.empty })

  logged : (w : World S) (line : String) → Reads e mine w → Reads e mine (log line w)
  logged w line (inl d) = inl d
  logged w line (inr i) =
      inr (record { echoing = i.echoing; reads = i.reads; rests = i.rests; empty = i.empty })

  Reads-frame : IsReaderFrame e (Reads e mine)
  Reads-frame = record {
    steps = stepped;
    lines = logged;
    fails = λ cb err w p. inl (fail-destroyed e cb err w);
    grows = grows;
    stores = λ w s xs q p. stores xs w p;
  }

  -- What the writer is started with.
  abbrev Starts : World S → Type 0
  Starts w = IsEchoing e mine w × (w.read.handler ≡ dummy_handler)

  abbrev P : Jump S → Type 0
  P = Q e (Reads e mine) Starts Reads-frame

  no_output : (b : Buffer) → has_output b ≡ false → content b ≡ []
  no_output (string []) h = refl
  no_output (string (x ∷ xs)) h = absurd cc
  no_output undef h = refl
  no_output (scalar_ref b) h = absurd cc
  no_output (array_ref l) h = absurd cc
  no_output other_ref h = absurd cc

  reads_not_dummy : (h : Handler) → h ≡ reader_handler → is_dummy h ≡ true → ⊥
  reads_not_dummy h r d = absurd (cc (ap is_dummy r))

  dummy_is_dummy : (h : Handler) → h ≡ dummy_handler → not (is_dummy h) ≡ true → ⊥
  dummy_is_dummy h r d = absurd (cc (ap is_dummy r))

  module _ (cb : ℕ) (own : mine cb ≡ true) where
    -- The writer is started if there is something to write; otherwise the reader waits.
    after_call :
        (w : World S)
        → IsEchoing e mine w
        → w.read.handler ≡ reader_handler
        → w.write.handler ≡ dummy_handler
        → P (after_callback e cb w)
    unfolding after_callback reader_stop
    after_call w i r x =
        if_cases P w.destroyed (λ d. inl d)
          (λ _.
            if_cases P (is_dummy w.read.handler) (λ d. absurd (reads_not_dummy _ r d))
              (λ _.
                if_cases P (not (is_dummy w.write.handler)) (λ d. absurd (dummy_is_dummy _ x d))
                  (λ _.
                    if_cases P
                      (is_some w.writer_callback
                        && w.has_writer_buffer
                        && has_output w.writer_buffer)
                      (λ _. (i, refl))
                      (λ none. wait_read_frame e (Reads e mine) Starts Reads-frame cb w (
                        inr (record {
                          echoing = i;
                          reads = r;
                          rests = x;
                          empty = no_output w.writer_buffer (rest none);
                        }))))))
      where
        rest :
            (is_some w.writer_callback && w.has_writer_buffer && has_output w.writer_buffer) ≡ false
            → has_output w.writer_buffer ≡ false
        rest h = ground (arith, i.callback, i.output, h)

    called : (w : World S) → Reads e mine w → P (callback_block e cb w)
    unfolding callback_block after_callback
    called w (inl d) = rw (callback_gone e mine k cb w d) (inl refl)
    called w (inr i) =
        left (callback e cb false w) (callback-Left e mine k cb w own i.echoing i.empty)
      where
        left : (v : World S) → Left e mine w v → P (after_callback e cb v)
        left v (inl d) = rw d (inl refl)
        left v (inr (j, r, x)) = after_call v j (r ∙ i.reads) (x ∙ i.rests)

  -- A run of the reader's handler that returns, by itself or through the writer.
  pub reader_event-Works :
      (limit fuel : ℕ) (w w' : World S)
      → IsReading e mine w
      → reader_event e limit fuel connection w ≡ some w'
      → Works e mine w'
  reader_event-Works limit fuel w w' i h =
      elim (reader_event_frame e (Reads e mine) Starts Reads-frame limit fuel w w'
        (λ cb own. called cb (i.echoing.reader_mine cb own)) (inr i) h) [
          | inl (inl d) ↦ inl d
          | inl (inr j) ↦ inr (inl j)
          | inr (v, (j, r), s) ↦ writer_start-Works e mine k limit v j r w' s
        ]
