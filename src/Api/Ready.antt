-- ===== src/Api/Ready.antt =====
-- ngxe_reader makes the connection ready for the handler of the reader.
use nginx_engine.Base.{
  ℕ, if◌then◌else◌, ℤ, ◌+◌, zero, suc, true, false, some, ◌≡◌, refl, arith, if_cases, Bool-cases,
  inl, inr, if_rule, append-nil, ◌∙◌,
}
use nginx_engine.Base.{[]}
use nginx_engine.State.{Buffer, string}
use nginx_engine.State.{World, Env, connection, reader_handler, dummy_handler}
use nginx_engine.Connection.{reader_start, handle_read}
use nginx_engine.Reader.Room.{ReadLaws}
use nginx_engine.Reader.Intact.{IsIntact}
use nginx_engine.Api.{Globals, Reply, Supply, state_of, has_start, mint, touch}
use nginx_engine.Api.Creation.{
  new_arg, shared_arg, extra_args, first_args, reader_buffer_arg, newsv_size,
}
use nginx_engine.Api.Books.{blank_callback}
use nginx_engine.Api.Balance.{IsServed, session_served}
use nginx_engine.Api.Reader

-- What is to be written stays, and is nothing if there was no buffer for it.
abbrev pub output_of : {S : Type 0} → World S → Buffer
output_of w = if w.has_writer_buffer then w.writer_buffer else string []

-- Before the call: a read buffer that is there is intact, and without one all that was received was
-- consumed.
pub record IsReadable {S : Type 0} (w : World S) : Type 0 where
  pub buffer : w.has_reader_buffer ≡ true → IsIntact w
  pub no_buffer : w.has_reader_buffer ≡ false → w.consumed ≡ w.received

-- What a session needs for the reader, and that the buffer is intact.
pub record IsReady {S : Type 0} (w : World S) : Type 0 where
  pub session : w.has_session ≡ true
  pub input : w.has_reader_buffer ≡ true
  pub intact : IsIntact w

module _ {S : Type 0} (e : Env S) (l : ReadLaws e) (g : Globals) (cb : ℕ) (s : Supply) where
  extra_args-IsReady :
      (n : ℕ) (fresh : ℕ → ℕ) (w : World S) → IsReady w → IsReady (extra_args cb fresh n w)
  unfolding extra_args new_arg mint
  extra_args-IsReady zero fresh w h = h
  extra_args-IsReady (suc n) fresh w h = extra_args-IsReady n _ (new_arg cb (fresh 0) w) (record {
    session = h.session;
    input = h.input;
    intact = record { stream = h.intact.stream; fits = h.intact.fits };
  })

  reader_buffer_arg-IsReady :
      (w : World S) → w.has_session ≡ true → IsReadable w → IsReady (reader_buffer_arg cb s e g w)
  unfolding reader_buffer_arg new_arg mint shared_arg
  reader_buffer_arg-IsReady w p h =
      if_cases IsReady w.has_reader_buffer
        (λ t. record {
          session = p;
          input = t;
          intact = record { stream = (h.buffer t).stream; fits = (h.buffer t).fits };
        })
        (λ f. record {
          session = p;
          input = refl;
          intact = record {
            stream = append-nil w.consumed ∙ h.no_buffer f;
            fits = omega (arith, l.grow_enough 0 (newsv_size e.pagesize g.reader_buffer_size + 1));
          };
        })

  -- Steps that change neither.
  kept :
      (v w : World S)
      → w.has_session ≡ v.has_session
      → w.has_reader_buffer ≡ v.has_reader_buffer
      → w.reader_buffer ≡ v.reader_buffer
      → w.consumed ≡ v.consumed
      → w.received ≡ v.received
      → IsReady v
      → IsReady w
  kept v w p b r c d h = record {
    session = p ∙ h.session;
    input = b ∙ h.input;
    intact = record { stream = rw (r, c, d) h.intact.stream; fits = rw r h.intact.fits };
  }

  writer_buffer_arg-IsReady :
      (w : World S) → IsReady w → IsReady (Reader.writer_buffer_arg e g cb s w)
  unfolding Reader.writer_buffer_arg new_arg mint shared_arg
  writer_buffer_arg-IsReady w h =
      if_rule IsReady w.has_writer_buffer (kept w _ refl refl refl refl refl h)
        (kept w _ refl refl refl refl refl h)

  pub reader_args-IsReady :
      (extra : ℕ) (w : World S)
      → w.has_session ≡ true
      → IsReadable w
      → IsReady (Reader.reader_args e g cb s extra w)
  unfolding Reader.reader_args new_arg mint first_args
  reader_args-IsReady extra w p h =
      extra_args-IsReady extra (λ i. s.fresh (i + 6)) _
        (kept (Reader.writer_buffer_arg e g cb s given) _ refl refl refl refl refl (
          writer_buffer_arg-IsReady given (
            reader_buffer_arg-IsReady (first_args cb s w) p (record {
              buffer = λ t. record { stream = (h.buffer t).stream; fits = (h.buffer t).fits };
              no_buffer = h.no_buffer;
            }))))
    where
      given : World S
      given = reader_buffer_arg cb s e g (first_args cb s w)

  writer_buffer-extra_args :
      (n : ℕ) (fresh : ℕ → ℕ) (w : World S)
      → (extra_args cb fresh n w).writer_buffer ≡ w.writer_buffer
  unfolding extra_args new_arg mint
  writer_buffer-extra_args zero fresh w = refl
  writer_buffer-extra_args (suc n) fresh w =
      writer_buffer-extra_args n (λ i. fresh (i + 1)) (new_arg cb (fresh 0) w)

  writer_buffer-writer_buffer_arg :
      (w : World S) → (Reader.writer_buffer_arg e g cb s w).writer_buffer ≡ output_of w
  unfolding Reader.writer_buffer_arg new_arg mint shared_arg
  writer_buffer-writer_buffer_arg w = ground arith

  output_of-reader_buffer_arg :
      (w : World S) → output_of (reader_buffer_arg cb s e g w) ≡ output_of w
  unfolding reader_buffer_arg new_arg mint shared_arg
  output_of-reader_buffer_arg w =
      if_rule (λ (v : World S). output_of v ≡ output_of w) w.has_reader_buffer
        {x = shared_arg cb w.reader_scalar w} refl refl

  pub writer_buffer-reader_args :
      (extra : ℕ) (w : World S) → (Reader.reader_args e g cb s extra w).writer_buffer ≡ output_of w
  unfolding Reader.reader_args new_arg mint first_args
  writer_buffer-reader_args extra w =
      writer_buffer-extra_args extra (λ i. s.fresh (i + 6)) _
      ∙ writer_buffer-writer_buffer_arg (reader_buffer_arg cb s e g (first_args cb s w))
      ∙ output_of-reader_buffer_arg (first_args cb s w)

  -- A call of ngxe_reader with a session and the memory that it asks for, where SvGROW gives at
  -- least what is asked and the event system accepts the read event, on a connection whose read
  -- buffer is intact or that has none and nothing received that was not consumed: it returns; the
  -- session has the callback, the timeout and a read buffer, which is intact, the write buffer
  -- holds what it held, or nothing if it is new, and the handler of the read event is that of the
  -- reader if the call was to start it, and otherwise the one that does nothing.
  pub reader-IsReady :
      (start t : ℤ) (extra : ℕ) (w : World S)
      → IsServed g s w
      → ((x : S) → (e.handle_read_event x).0 ≡ true)
      → IsReadable w
      → (r : Reply S) × (Reader.reader e g connection start t extra cb s w ≡ some r)
        × IsReady (state_of r)
        × ((state_of r).reader_callback ≡ some cb)
        × ((state_of r).reader_timeout ≡ t)
        × ((state_of r).writer_buffer ≡ output_of w)
        × ((state_of r).read.handler ≡ (if has_start start then reader_handler else dummy_handler))
  unfolding Reader.reader Reader.reader_set reader_start handle_read mint
  reader-IsReady start t extra w v ok h = (
    Reader.reader_set e g cb start t filled,
    session_served e g cb s (extra + 5) w
        (λ x. some (Reader.reader_set e g cb start t (Reader.reader_args e g cb s extra x))) v,
    if_rule IsReady (has_start start)
        (rw (ok filled.outside) (kept filled _ refl refl refl refl refl ready))
        (kept filled _ refl refl refl refl refl ready),
    if_rule (λ (w : World S). w.reader_callback ≡ some cb) (has_start start)
        (rw (ok filled.outside) refl) refl,
    if_rule (λ (w : World S). w.reader_timeout ≡ t) (has_start start) (rw (ok filled.outside) refl)
        refl,
    if_rule (λ (v : World S). v.writer_buffer ≡ output_of w) (has_start start)
        (rw (ok filled.outside) unwritten) unwritten,
    elim (Bool-cases (has_start start)) [
      | inl y ↦ rw (y, ok filled.outside) (ground arith)
      | inr n ↦ rw n refl
    ],
  )
    where
      filled : World S
      filled = Reader.reader_args e g cb s extra (blank_callback cb (extra + 5) s (touch w))

      ready : IsReady filled
      ready =
          reader_args-IsReady extra (blank_callback cb (extra + 5) s (touch w)) v.session (record {
            buffer = λ t. record { stream = (h.buffer t).stream; fits = (h.buffer t).fits };
            no_buffer = h.no_buffer;
          })

      unwritten : filled.writer_buffer ≡ output_of w
      unwritten = writer_buffer-reader_args extra (blank_callback cb (extra + 5) s (touch w))
