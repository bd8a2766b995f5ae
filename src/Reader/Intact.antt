-- ===== src/Reader/Intact.antt =====
-- ngxe_reader_handler: no byte that was received is lost, repeated or moved, and none is written
-- behind the buffer.
use nginx_engine.Base.{
  ℕ, ◌+◌, ◌-◌, ◌≤◌, true, false, Option, none, some, List, ◌++◌, length, length-append,
  append_assoc, ◌≡◌, refl, sym, ap, ◌∙◌, arith, if_rule, ◌⊎◌, inl, inr,
}
use nginx_engine.State.{World, Env, connection, ErrorValue}
use nginx_engine.Callback.{callback, push_args, call_perl}
use nginx_engine.Callback.Rule.{callback_rule}
use nginx_engine.Connection.{fail, start_error, reader_start}
use nginx_engine.Connection.Close.{fail-destroyed}
use nginx_engine.Writer.Frame.Rules.{IsFrame}
use nginx_engine.Writer.Frame.{writer_start_frame}
use nginx_engine.Reader.{reader_event}
use nginx_engine.Reader.Frame.{
  IsReaderFrame, stored, grown, reader_event_frame, callback_block_frame,
}
use nginx_engine.Reader.Room.{ReadLaws, Fits, grow_if_full-room, bytes-grow_if_full}

-- What Perl subs have taken and what lies in the read buffer are together what was received, in
-- order, and the buffer holds its string.
pub record IsIntact {S : Type 0} (w : World S) : Type 0 where
  pub stream : w.consumed ++ w.reader_buffer.bytes ≡ w.received
  pub fits : Fits w.reader_buffer

-- A connection that is destroyed has no buffer.
abbrev pub Alive : {S : Type 0} → World S → Type 0
Alive w = (w.destroyed ≡ true) ⊎ IsIntact w

-- Perl subs and native handlers take bytes from the front of the read buffer only (`consumed` says
-- which), and do not make the buffer too small for its string.
pub record KeepIntact {S : Type 0} (e : Env S) : Type 0 where
  pub sub : (k : ℕ) (w : World S) → Alive w → Alive (e.call_sv k w)
  pub native : (f : ℕ) (w : World S) → Alive w → Alive (e.call_native f w)

module _ {S : Type 0} (e : Env S) (l : ReadLaws e) (k : KeepIntact e) where
  -- A step that leaves what the property reads.
  same :
      (w v : World S)
      → v.destroyed ≡ w.destroyed
      → v.consumed ≡ w.consumed
      → v.reader_buffer ≡ w.reader_buffer
      → v.received ≡ w.received
      → Alive w
      → Alive v
  same w v d c b r (inl h) = inl (d ∙ h)
  same w v d c b r (inr i) = inr (record { stream = rw (c, b, r) i.stream; fits = rw b i.fits })

  callback-Alive : (cb : ℕ) (w : World S) → Alive w → Alive (callback e cb false w)
  unfolding call_perl
  callback-Alive cb w p = callback_rule e Alive cb false w called (λ f. k.native f w p) p
    where
      called : (sub : ℕ) → Alive (call_perl e cb sub false w)
      called sub =
          same (e.call_sv cb (push_args cb sub w)) _ refl refl refl refl
            (k.sub cb (push_args cb sub w) (unfold push_args in same w _ refl refl refl refl p))

  fail-Alive : (cb : ℕ) (err : ErrorValue) (w : World S) → Alive (fail e cb err w)
  fail-Alive cb err w = inl (fail-destroyed e cb err w)

  start_error-Alive : (cb : Option ℕ) (w : World S) → Alive w → Alive (start_error e cb w)
  unfolding start_error
  start_error-Alive none w p = same w _ refl refl refl refl p
  start_error-Alive (some cb) w p = fail-Alive cb _ w

  reader_start-Alive : (w : World S) → Alive w → Alive (reader_start e connection w)
  unfolding reader_start
  reader_start-Alive w p =
      if_rule Alive (e.handle_read_event w.outside).0 (same w _ refl refl refl refl p)
        (start_error-Alive w.reader_callback _ (same w _ refl refl refl refl p))

  pub Alive-frame : IsFrame e Alive
  Alive-frame = record {
    steps = λ w r v t b o i s x p. same w _ refl refl refl refl p;
    lines = λ w line p. same w _ refl refl refl refl p;
    calls = callback-Alive;
    fails = λ cb err w p. fail-Alive cb err w;
    starts = start_error-Alive;
    reads = reader_start-Alive;
  }

  stored-Alive :
      (xs : List ℕ) (w : World S)
      → (Fits w.reader_buffer → length w.reader_buffer.bytes + length xs + 1 ≤ w.reader_buffer.len)
      → Alive w
      → Alive (stored xs w)
  stored-Alive xs w room (inl h) = inl h
  stored-Alive xs w room (inr i) = inr (record {
    stream = sym (append_assoc w.consumed w.reader_buffer.bytes xs) ∙ ap (λ t. t ++ xs) i.stream;
    fits = omega (arith, length-append w.reader_buffer.bytes xs, room i.fits);
  })

  grown-Alive : (w : World S) → Alive w → Alive (grown e w)
  grown-Alive w (inl h) = inl h
  grown-Alive w (inr i) = inr (record {
    stream = rw (bytes-grow_if_full e l w.reader_buffer) i.stream;
    fits = omega (arith, grow_if_full-room e l w.reader_buffer i.fits);
  })

  Alive-reader_frame : IsReaderFrame e Alive
  Alive-reader_frame = record {
    steps = λ w r t s h p. same w _ refl refl refl refl p;
    lines = λ w line p. same w _ refl refl refl refl p;
    fails = λ cb err w p. fail-Alive cb err w;
    grows = grown-Alive;
    stores = λ w s xs q p.
        stored-Alive xs w
          (λ h. omega (
            arith,
            h,
            l.recv_bounded s (w.reader_buffer.len - length w.reader_buffer.bytes - 1) xs q,
          ))
          p;
  }

  -- Over a whole run of the reader's handler, with all the reads, calls of Perl subs and the writer
  -- that it may start: if the connection is not destroyed at the end, what Perl subs have taken and
  -- what is in the read buffer are, in order, exactly the bytes received, and the string with the
  -- byte behind it lies in the buffer's memory.
  pub reader_event-IsIntact :
      (limit fuel : ℕ) (w w' : World S)
      → IsIntact w
      → reader_event e limit fuel connection w ≡ some w'
      → (w'.destroyed ≡ true) ⊎ IsIntact w'
  reader_event-IsIntact limit fuel w w' i h =
      elim (reader_event_frame e Alive Alive Alive-reader_frame limit fuel w w'
        (λ cb own.
          callback_block_frame e Alive Alive-reader_frame (λ w r p. same w _ refl refl refl refl p)
            cb (callback-Alive cb))
        (inr i) h) [
          | inl q ↦ q
          | inr (v, q, s) ↦ writer_start_frame e Alive Alive-frame limit connection v q w' s
        ]
