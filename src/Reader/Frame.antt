-- ===== src/Reader/Frame.antt =====
-- A property that the reader's own steps keep holds after ngxe_reader_handler, if the calls of the Perl
-- sub keep it, and where the handler ends in ngxe_writer_start, another may hold at that call.
use nginx_engine.Base.{
  ℕ, ℤ, arith, ◌+◌, ◌-◌, Bool, true, false, not, ◌&&◌, some, is_some, List, [], ◌∷◌, ◌++◌, String,
  leb, length, ◌≡◌, refl, if_rule, ◌⊎◌,
}
use nginx_engine.State.{
  Event, World, Env, Received, data_read, read_again, read_failed, connection, ErrorValue,
}
use nginx_engine.Callback.{callback}
use nginx_engine.Connection.{
  is_dummy, add_timer, fail, handle_read, add_read_timer, del_timer, log, timed_out_error,
}
use nginx_engine.Writer.{writer_start}
use nginx_engine.Reader.{
  Jump, start_writer, run_callback, wants_more, has_output, wait_read, check_min_len, after_recv,
  receive, recv_block, grow_if_full, callback_block, after_callback, enter, reader_event,
}
use nginx_engine.Reader.Drive.{target, reader_event_inv}

abbrev pub stored : {S : Type 0} → List ℕ → World S → World S
stored xs w = record w {
  reader_buffer = record w.reader_buffer { bytes = w.reader_buffer.bytes ++ xs };
  received = w.received ++ xs;
}

abbrev pub grown : {S : Type 0} → Env S → World S → World S
grown e w = record w { reader_buffer = grow_if_full e w.reader_buffer }

-- `P` does not depend on what the reader itself changes, but for the bytes that it stores and the growth
-- of the buffer, and survives these and the error path.
pub record IsReaderFrame {ℓ} {S : Type 0} (e : Env S) (P : World S → Type ℓ) : Type ℓ where
  pub steps :
      (w : World S) (r : Event) (t : Bool) (s : S)
      → r.handler ≡ w.read.handler
      → P w
      → P (record w { read = r; timed_out = t; outside = s })
  pub lines : (w : World S) (line : String) → P w → P (log line w)
  pub fails : (cb : ℕ) (err : ErrorValue) (w : World S) → P w → P (fail e cb err w)
  pub grows : (w : World S) → P w → P (grown e w)
  pub stores :
      (w : World S) (s : S) (xs : List ℕ)
      → (e.recv s (w.reader_buffer.len - length w.reader_buffer.bytes - 1)).0 ≡ data_read xs
      → P w
      → P (stored xs w)

pub handler-add_timer : (t : ℤ) (ev : Event) → (add_timer t ev).handler ≡ ev.handler
handler-add_timer t ev = ground arith

module _ {ℓ} {S : Type 0} (e : Env S) (P Starts : World S → Type ℓ) (f : IsReaderFrame e P) where
  -- What holds at a jump, where `Starts` is for the call of ngxe_writer_start.
  abbrev pub Q : Jump S → Type ℓ
  Q (start_writer w) = Starts w
  Q j = P (target j)

  stepped :
      (w : World S) (r : Event) (s : S)
      → r.handler ≡ w.read.handler
      → P w
      → P (record w { read = r; outside = s })
  stepped w r s h p = f.steps w r w.timed_out s h p

  timed : (w : World S) (s : S) → P w → P (add_read_timer e (record w { outside = s }))
  timed w s p = stepped w _ s (handler-add_timer w.reader_timeout w.read) p

  module _ (cb : ℕ) where
    pub wait_read_frame : (w : World S) → P w → Q (wait_read e cb w)
    unfolding wait_read
    wait_read_frame w p =
        if_rule Q (e.handle_read_event w.outside).0
          (if_rule Q w.read.ready (stepped w _ _ refl p) (timed w _ p))
          (f.fails cb _ _ (stepped w _ _ refl p))

    check_min_len_frame : (w : World S) → P w → Q (check_min_len e cb w)
    unfolding check_min_len
    check_min_len_frame w p =
        if_rule Q (wants_more (w.callbacks cb).min_len w.reader_buffer) {y = run_callback w}
          (wait_read_frame w p) p

    -- What a read has returned can be stored.
    abbrev CanStore : Received → World S → Type ℓ
    CanStore n w = (xs : List ℕ) → n ≡ data_read xs → P (stored xs w)

    after_recv_frame : (n : Received) (w : World S) → CanStore n w → P w → Q (after_recv e cb n w)
    unfolding after_recv
    after_recv_frame read_failed w c p = f.fails cb _ w p
    after_recv_frame (data_read []) w c p = f.fails cb _ w p
    after_recv_frame read_again w c p = timed w w.outside p
    after_recv_frame (data_read (x ∷ xs)) w c p =
        if_rule Q (e.handle_read_event w.outside).0
          (check_min_len_frame (add_read_timer e (handle_read e (stored (x ∷ xs) w)).1)
            (timed (stored (x ∷ xs) w) _ (c (x ∷ xs) refl)))
          (f.fails cb _ _ (stepped (stored (x ∷ xs) w) _ _ refl (c (x ∷ xs) refl)))

    recv_block_frame : (w : World S) → P w → Q (recv_block e cb w)
    unfolding recv_block
    recv_block_frame w p =
        let v : World S = grown e w in
        if_rule Q (leb v.reader_buffer.len (length v.reader_buffer.bytes + 1)) (f.grows w p) (
          after_recv_frame (receive e v).0 (receive e v).1
            (λ xs q. stepped (stored xs v) _ _ refl (f.stores v w.outside xs q (f.grows w p)))
            (stepped v _ _ refl (f.grows w p)))

    enter_frame : (w : World S) → P w → Q (enter e cb w)
    unfolding enter
    enter_frame w p =
        if_rule Q w.read.timedout
          (f.fails cb timed_out_error _ (f.lines _ _ (f.steps w w.read true w.outside refl p)))
          (stepped w (del_timer w.read) w.outside refl p)

  pub reader_event_frame :
      (limit fuel : ℕ) (w w' : World S)
      → ((cb : ℕ) → w.reader_callback ≡ some cb → (v : World S) → P v → Q (callback_block e cb v))
      → P w
      → reader_event e limit fuel connection w ≡ some w'
      → P w' ⊎ ((v : World S) × Starts v × (writer_start e limit connection v ≡ some w'))
  reader_event_frame limit fuel w w' calls p h =
      reader_event_inv e Q limit fuel w
        (λ cb own. record { recv_at = recv_block_frame cb; callback_at = calls cb own })
        (λ cb. enter_frame cb w p) (λ line. f.lines w line p) w' h

module _ {ℓ} {S : Type 0} (e : Env S) (P : World S → Type ℓ) (f : IsReaderFrame e P) where
  -- A sub that keeps the property keeps it for the writer too, if the handlers do not matter.
  pub callback_block_frame :
      ((w : World S) (r : Event)
        → P w
        → P (record w { read = r; writer_offset = 0; writer_index = 0 }))
      → (cb : ℕ) → ((w : World S) → P w → P (callback e cb false w))
      → (w : World S) → P w
      → Q e P P f (callback_block e cb w)
  unfolding callback_block after_callback
  callback_block_frame stops cb k w p =
      let v : World S = callback e cb false w in
      let q : P v = k w p in
      if_rule (Q e P P f) v.destroyed q (
        if_rule (Q e P P f) (is_dummy v.read.handler) q (
          if_rule (Q e P P f) (not (is_dummy v.write.handler)) q (
            if_rule (Q e P P f)
              (is_some v.writer_callback && v.has_writer_buffer && has_output v.writer_buffer)
              (stops v _ q) (wait_read_frame e P P f cb v q))))
