-- ===== src/Api/Balance.antt =====
-- ngxe_reader and ngxe_writer followed by ngxe_close: each reference that was taken is given back.
use nginx_engine.Base.{
  List, ℕ, if◌then◌else◌, ◌∙◌, ℤ, pos, ◌+◌, Bool, true, false, Option, some, [], ◌∷◌, ◌≡◌, refl,
  arith, if_rule,
}
use mathlib.Core.Path.{subst}
use nginx_engine.Writer.Scalar.{is_ref}
use nginx_engine.State.{string, World, Env, connection, Buffer, dummy_handler}
use nginx_engine.Connection.{reader_start, close}
use nginx_engine.Connection.Close.{◌∈◌}
use nginx_engine.Api.{
  Globals, Supply, Reply, answered, state_of, free_temps, has_start, if_initialized, with_session,
  touch,
}
use nginx_engine.Api.Creation.{with_callback, with_args, new_arg, shared_arg}
use nginx_engine.Api.Books.{
  IsBooked, unbooked, first_args-IsBooked, reader_buffer_arg-IsBooked, writer_buffer_arg-IsBooked,
  new_arg-IsBooked, shared_arg-IsBooked, extra_args-IsBooked, min_len-IsBooked, blank_callback,
  blank_callback-IsBooked,
}
use nginx_engine.Api.Refs.{close_booked}
use nginx_engine.Api.Reader
use nginx_engine.Api.Writer

-- A call that is not refused and gets all the memory that it asks for.
pub record IsServed {S : Type 0} (g : Globals) (s : Supply) (w : World S) : Type 0 where
  pub initialized : g.initialized ≡ true
  pub pool : w.has_pool ≡ true
  pub session : w.has_session ≡ true
  pub memory : (i : ℕ) → s.memory i ≡ true

module _ {S : Type 0} (e : Env S) (g : Globals) (cb : ℕ) (s : Supply) where
  pub session_served :
      (n : ℕ) (w : World S) (next : World S → Option (Reply S))
      → IsServed g s w
      → with_session g connection (with_callback cb s (with_args cb s n next)) w
        ≡ next (blank_callback cb n s (touch w))
  unfolding with_session with_callback with_args if_initialized
  session_served n w next v =
      rw (v.initialized, v.pool, v.session, v.memory 0, v.memory 1, v.memory 2) refl

  reader_args-IsBooked :
      (extra : ℕ) (w0 w : World S)
      → IsBooked cb (extra + 5) (cb ∷ w0.cleanups) w0 0 w
      → IsBooked cb
          (extra + 5)
          (cb ∷ w0.cleanups)
          w0
          (extra + 5)
          (Reader.reader_args e g cb s extra w)
  unfolding Reader.reader_args
  reader_args-IsBooked extra w0 w h =
      subst
        (λ k. IsBooked cb (extra + 5) (cb ∷ w0.cleanups) w0 k (Reader.reader_args e g cb s extra w))
        (omega arith)
        (extra_args-IsBooked cb (extra + 5) (cb ∷ w0.cleanups) w0 extra (λ i. s.fresh (i + 6)) 5 _
          (min_len-IsBooked cb (extra + 5) (cb ∷ w0.cleanups) w0 (pos 0) 5 _ (
            new_arg-IsBooked cb (extra + 5) (cb ∷ w0.cleanups) w0 (s.fresh 5) 4 _ (
              writer_buffer_arg-IsBooked cb (extra + 5) (cb ∷ w0.cleanups) w0 s e g 3 _ (
                reader_buffer_arg-IsBooked cb (extra + 5) (cb ∷ w0.cleanups) w0 s e g 2 _
                  (first_args-IsBooked cb (extra + 5) (cb ∷ w0.cleanups) w0 s 0 w h))))))

  reader_set-IsBooked :
      (n : ℕ) (start t : ℤ) (w0 w : World S)
      → ((x : S) → (e.handle_read_event x).0 ≡ true)
      → IsBooked cb n (cb ∷ w0.cleanups) w0 n w
      → IsBooked cb n (cb ∷ w0.cleanups) w0 n (state_of (Reader.reader_set e g cb start t w))
  unfolding Reader.reader_set reader_start
  reader_set-IsBooked n start t w0 w ok h =
      if_rule (IsBooked cb n (cb ∷ w0.cleanups) w0 n) (has_start start)
        (rw (ok w.outside) (unbooked cb n (cb ∷ w0.cleanups) w0 n w _ h refl refl refl refl refl))
        (unbooked cb n (cb ∷ w0.cleanups) w0 n w _ h refl refl refl refl refl)

  -- What a call of ngxe_reader that is served has taken.
  pub reader-IsBooked :
      (start t : ℤ) (extra : ℕ) (w : World S)
      → IsServed g s w
      → ((x : S) → (e.handle_read_event x).0 ≡ true)
      → w.mortals ≡ []
      → (r : Reply S) × (Reader.reader e g connection start t extra cb s w ≡ some r)
        × IsBooked cb (extra + 5) (cb ∷ w.cleanups) w (extra + 5) (state_of r)
  unfolding Reader.reader
  reader-IsBooked start t extra w v ok m = (
    Reader.reader_set e g cb start t (Reader.reader_args e g cb s extra made),
    session_served (extra + 5) w
        (λ x. some (Reader.reader_set e g cb start t (Reader.reader_args e g cb s extra x))) v,
    reader_set-IsBooked (extra + 5) start t w _ ok (
        reader_args-IsBooked extra w made (
          unbooked cb (extra + 5) (cb ∷ w.cleanups) w 0 (blank_callback cb (extra + 5) s w) made
            (blank_callback-IsBooked cb (extra + 5) s w m) refl refl refl refl refl)),
  )
    where
      made : World S
      made = blank_callback cb (extra + 5) s (touch w)

  -- A call of ngxe_reader with a session, the memory that it asks for, no temporary scalars before
  -- it and a callback that is new to the pool of a connection which is not destroyed, and an event
  -- system that accepts the read event: it returns, and when its statement has ended and the
  -- connection is closed, all reference counts are those that closing the connection without the
  -- call would have left.
  pub refs-close-reader :
      (start t : ℤ) (extra : ℕ) (w : World S)
      → IsServed g s w
      → ((x : S) → (e.handle_read_event x).0 ≡ true)
      → w.mortals ≡ []
      → w.destroyed ≡ false
      → cb ∈ w.cleanups ≡ false
      → (r : Reply S) × (Reader.reader e g connection start t extra cb s w ≡ some r)
        × ((close e connection (free_temps (state_of r))).refs ≡ (close e connection w).refs)
  refs-close-reader start t extra w v ok m d f =
      let (r, same, h) = reader-IsBooked start t extra w v ok m in
      (r, same, close_booked e cb (extra + 5) w (state_of r) h d f)

  filled_buffer_arg-IsBooked :
      (n k : ℕ) (is_pv : Bool) (b : Buffer) (w0 w : World S)
      → IsBooked cb n (cb ∷ w0.cleanups) w0 k w
      → IsBooked cb n (cb ∷ w0.cleanups) w0 (k + 1) (Writer.filled_buffer_arg e g cb s is_pv b w)
  unfolding Writer.filled_buffer_arg
  filled_buffer_arg-IsBooked n k is_pv b w0 w h =
      unbooked cb n (cb ∷ w0.cleanups) w0 (k + 1)
        (if w.has_writer_buffer
          then shared_arg cb w.writer_scalar w
          else record (new_arg cb (s.fresh 4) w) {
            has_writer_buffer = true;
            writer_scalar = s.fresh 4;
          })
        _
        (if_rule (IsBooked cb n (cb ∷ w0.cleanups) w0 (k + 1)) w.has_writer_buffer
          (shared_arg-IsBooked cb n (cb ∷ w0.cleanups) w0 _ k w h)
          (unbooked cb n (cb ∷ w0.cleanups) w0 (k + 1) (new_arg cb (s.fresh 4) w) _
            (new_arg-IsBooked cb n (cb ∷ w0.cleanups) w0 (s.fresh 4) k w h) refl refl refl refl
            refl))
        refl refl refl refl refl

  writer_args-IsBooked :
      (extra : ℕ) (is_pv : Bool) (b : Buffer) (w0 w : World S)
      → IsBooked cb (extra + 4) (cb ∷ w0.cleanups) w0 0 w
      → IsBooked cb
          (extra + 4)
          (cb ∷ w0.cleanups)
          w0
          (extra + 4)
          (Writer.writer_args e g cb s extra is_pv b w)
  unfolding Writer.writer_args
  writer_args-IsBooked extra is_pv b w0 w h =
      subst
        (λ k.
          IsBooked cb (extra + 4) (cb ∷ w0.cleanups) w0 k
            (Writer.writer_args e g cb s extra is_pv b w))
        (omega arith)
        (extra_args-IsBooked cb (extra + 4) (cb ∷ w0.cleanups) w0 extra (λ i. s.fresh (i + 5)) 4 _
          (filled_buffer_arg-IsBooked (extra + 4) 3 is_pv b w0 _ (
            reader_buffer_arg-IsBooked cb (extra + 4) (cb ∷ w0.cleanups) w0 s e g 2 _
              (first_args-IsBooked cb (extra + 4) (cb ∷ w0.cleanups) w0 s 0 w h))))

  -- A call of ngxe_writer that does not start the writer, with a string, on a session whose write buffer
  -- holds no reference, with the memory that
  -- it asks for, no temporary scalars before it and a callback that is new to the pool of a
  -- connection which is not destroyed: it returns, and when its statement has ended and the connection
  -- is closed, all reference counts are those that closing the connection without the call
  -- would have left.
  pub refs-close-writer :
      (fuel : ℕ) (start t : ℤ) (is_pv : Bool) (text : List ℕ) (extra : ℕ) (w : World S)
      → IsServed g s w
      → is_ref w.writer_buffer ≡ false
      → has_start start ≡ false
      → w.mortals ≡ []
      → w.destroyed ≡ false
      → cb ∈ w.cleanups ≡ false
      → (r : Reply S) × (Writer.writer e g fuel connection start t is_pv (string text) extra cb s w
          ≡ some r)
        × ((close e connection (free_temps (state_of r))).refs ≡ (close e connection w).refs)
  unfolding Writer.writer Writer.writer_set
  refs-close-writer fuel start t is_pv text extra w v no_ref no_start m d f = (
    answered (pos 1) (record filled {
      writer_callback = some cb;
      writer_timeout = t;
      write = record filled.write { handler = dummy_handler };
    }),
    session_served (extra + 4) w
          (λ x.
            Writer.writer_set e g fuel cb start t
              (Writer.writer_args e g cb s extra is_pv (string text) x))
          v
        ∙ rw no_start refl,
    close_booked e cb (extra + 4) w _
        (unbooked cb (extra + 4) (cb ∷ w.cleanups) w (extra + 4) filled _
          (writer_args-IsBooked extra is_pv (string text) w made (
            unbooked cb (extra + 4) (cb ∷ w.cleanups) w 0 (blank_callback cb (extra + 4) s w) made
              (blank_callback-IsBooked cb (extra + 4) s w m) refl refl refl refl refl))
          refl refl refl refl refl)
        d f,
  )
    where
      made : World S
      made = blank_callback cb (extra + 4) s (touch w)

      filled : World S
      filled = Writer.writer_args e g cb s extra is_pv (string text) made
