-- ===== src/Reader/Returns.antt =====
-- ngxe_reader_handler returns, when there is no more to read at some time.
use nginx_engine.Base.{
  ℕ, zero, suc, ◌+◌, ◌*◌, ◌≤◌, true, Option, none, some, is_some, if◌then◌else◌, ◌≡◌, refl, arith,
  if_rule, ◌⊎◌, returned,
}
use nginx_engine.State.{World, Env, connection}
use nginx_engine.Connection.{log}
use nginx_engine.Writer.{writer_start}
use nginx_engine.Writer.Returns.Rules.{Fills}
use nginx_engine.Writer.Returns.Array.{Ends, HasAtMost, rounds_mono}
use nginx_engine.Writer.Termination.{writer_rounds, writer_start_returns}
use nginx_engine.Reader.{
  Jump, return, recv_again, run_callback, start_writer, recv_block, callback_block, run, enter,
  handle_reader, reader_event,
}
use nginx_engine.Reader.Room.{ReadLaws, Fits}
use nginx_engine.Reader.Rounds.{Drains, IsFine, Less, recv_block-Less, callback_block-Less}
use nginx_engine.Reader.Intact.{IsIntact, KeepIntact, reader_event-IsIntact}

module _ {S : Type 0} (e : Env S) (left pending : S → ℕ) (most : ℕ) (l : ReadLaws e)
    (f : Fills e left) (t : Ends e left most) (d : Drains e left pending most)
    (room : (s : S) → left (e.handle_write_event s).1 ≤ left s) where
  abbrev Below : ℕ → ℕ → Jump S → Type 0
  Below = Less e left pending most

  abbrev Fine : ℕ → World S → Type 0
  Fine = IsFine e left pending most

  start_returns :
      (limit bound : ℕ) (w : World S)
      → writer_rounds most bound ≤ limit
      → Fine bound w
      → is_some (writer_start e limit connection w) ≡ true
  start_returns limit bound w h i = writer_start_returns e left most f t limit room connection w (
    omega (arith, h, i.left_bounded, rounds_mono most (left w.outside) bound i.left_bounded),
    i.items_bounded,
  )

  run_returns :
      (limit bound cb fuel : ℕ) (j : Jump S)
      → writer_rounds most bound ≤ limit
      → Below bound (suc fuel) j
      → is_some (run e limit cb fuel j) ≡ true
  unfolding run
  run_returns limit bound cb fuel (return w) h p = refl
  run_returns limit bound cb fuel (start_writer w) h p = start_returns limit bound w h p.0
  run_returns limit bound cb zero (recv_again w) h p = absurd (omega (arith, p.1))
  run_returns limit bound cb zero (run_callback w) h p = absurd (omega (arith, p.1))
  run_returns limit bound cb (suc fuel) (recv_again w) h p =
      let q = recv_block-Less e left pending most l f t d bound cb w p.0 in
      run_returns limit bound cb fuel (recv_block e cb w) h (q.0, omega (arith, p.1, q.1))
  run_returns limit bound cb (suc fuel) (run_callback w) h p =
      let q = callback_block-Less e left pending most l f t d bound cb w p.0 in
      run_returns limit bound cb fuel (callback_block e cb w) h (q.0, omega (arith, p.1, q.1))

  enter-Below :
      (bound cb n : ℕ) (w : World S)
      → Fine bound w
      → 2 * pending w.outside + 1 ≤ n
      → Below bound (suc n) (enter e cb w)
  unfolding enter
  enter-Below bound cb n w i h =
      if_rule (Below bound (suc n)) w.read.timedout (tt, omega arith)
        (
          record { fits = i.fits; items_bounded = i.items_bounded; left_bounded = i.left_bounded },
          omega (arith, h),
        )

  -- If there is nothing to read any more at some time, the socket is full at some time and the subs
  -- have finitely many arrays, the reader's handler returns, by itself or through the writer.
  pub reader_event_returns :
      (limit fuel : ℕ) (w : World S)
      → Fits w.reader_buffer
      → HasAtMost e most w.writer_buffer
      → writer_rounds most (left w.outside) ≤ limit
      → 2 * pending w.outside + 1 ≤ fuel
      → is_some (reader_event e limit fuel connection w) ≡ true
  unfolding reader_event handle_reader
  reader_event_returns limit fuel w i b h r =
      if_rule Returns w.has_session (with_callback w.reader_callback) refl
    where
      Returns : Option (World S) → Type 0
      Returns o = is_some o ≡ true

      with_callback :
          (c : Option ℕ)
          → Returns (elim c [
            | none ↦ some (log "ngxe_reader_handler(): cb == NULL" w)
            | some cb ↦
                if w.has_reader_buffer
                then run e limit cb fuel (enter e cb w)
                else some (log "ngxe_reader_handler(): svbuf == NULL" w)
          ])
      with_callback none = refl
      with_callback (some cb) =
          if_rule Returns w.has_reader_buffer
            (run_returns limit (left w.outside) cb fuel (enter e cb w) h (
              enter-Below (left w.outside) cb fuel w
                (record { fits = i; items_bounded = b; left_bounded = omega arith }) r))
            refl

  -- The reader's handler returns, and unless the connection is destroyed, the bytes that Perl subs have
  -- taken and then those in the read buffer are exactly the bytes received, and the string with the
  -- byte behind it lies in the buffer's memory. It starts like that, and the subs keep to it; there is
  -- nothing to read any more at some time, the socket is full at some time, and the subs have finitely
  -- many arrays.
  pub reader_event_delivers :
      KeepIntact e
      → (limit fuel : ℕ) (w : World S) → IsIntact w
      → HasAtMost e most w.writer_buffer
      → writer_rounds most (left w.outside) ≤ limit
      → 2 * pending w.outside + 1 ≤ fuel
      → (w' : World S) × (reader_event e limit fuel connection w ≡ some w')
        × ((w'.destroyed ≡ true) ⊎ IsIntact w')
  reader_event_delivers k limit fuel w i b h r =
      let (w', q) = returned _ (reader_event_returns limit fuel w i.fits b h r) in
      (w', q, reader_event-IsIntact e l k limit fuel w w' i q)
