-- ===== src/Life/Echo/Opening.antt =====
-- What the sub of ngxe_server does with a new connection in eg/echo-server.pl: ngxe_writer with an empty
-- string, not started, then ngxe_reader, started.
use nginx_engine.Base.{ℕ, Bool, ◌+◌, ℤ, pos, true, false, some, [], ◌≡◌, refl, ◌∙◌, arith}
use mathlib.Core.Path.{subst}
use mathlib.Core.Option.{some-injective}
use nginx_engine.State.{World, Env, string, connection, dummy_handler, reader_handler}
use nginx_engine.Connection.{reader_start, handle_read, del_timer}
use nginx_engine.Reader.Frame.{handler-add_timer}
use nginx_engine.Reader.Room.{ReadLaws}
use nginx_engine.Reader.Intact.{IsIntact}
use nginx_engine.Api.{Globals, Reply, Supply, answered, state_of, has_start, mint, touch}
use nginx_engine.Api.Creation.{change, new_arg, extra_args, first_args, reader_buffer_arg}
use nginx_engine.Api.Books.{blank_callback}
use nginx_engine.Api.Balance.{IsServed, session_served}
use nginx_engine.Api.Reader
use nginx_engine.Api.Writer
use nginx_engine.Life.Echo.{IsReading}
mod Buffers
pub use nginx_engine.Life.Echo.Opening.Buffers.{IsNew}
use nginx_engine.Life.Echo.Opening.Buffers.{
  IsEmpty, CanAnswer, IsSame, HasSession, extra_args-IsSame, both_buffers, both_buffers-HasSession,
  shared_buffers,
}

module _ {S : Type 0} (e : Env S) (l : ReadLaws e) (g : Globals) (cb : ℕ) (s : Supply)
    (mine : ℕ → Bool) (own : mine cb ≡ true) where
  -- ngxe_writer with an empty string, that is not started, of a session without buffers.
  pub opened_writer :
      (fuel extra : ℕ) (start t : ℤ) (w : World S)
      → IsServed g s w
      → has_start start ≡ false
      → IsNew w
      → (r : Reply S) × (Writer.writer e g fuel connection start t true (string []) extra cb s w
          ≡ some r)
        × IsEmpty (state_of r)
        × CanAnswer mine (state_of r)
  unfolding Writer.writer Writer.writer_set Writer.writer_args mint
  opened_writer fuel extra start t w v no_start h = (
    answered (pos 1) (record filled {
      writer_callback = some cb;
      writer_timeout = t;
      write = record filled.write { handler = dummy_handler };
    }),
    session_served e g cb s (extra + 4) w
          (λ x.
            Writer.writer_set e g fuel cb start t
              (Writer.writer_args e g cb s extra true (string []) x))
          v
        ∙ rw no_start refl,
    both,
    record {
      session = kept.session ∙ has.session;
      pool = kept.pool ∙ has.pool;
      callback = refl;
      rests = refl;
      own = λ k same. subst (λ c. mine c ≡ true) (some-injective cb k same) own;
    },
  )
    where
      made : World S
      made = blank_callback cb (extra + 4) s (touch w)

      buffers : World S
      buffers =
          Writer.filled_buffer_arg e g cb s true (string [])
            (reader_buffer_arg cb s e g (first_args cb s made))

      filled : World S
      filled = extra_args cb (λ i. s.fresh (i + 5)) extra buffers

      kept : IsSame mine buffers filled
      kept = extra_args-IsSame mine cb extra (λ i. s.fresh (i + 5)) buffers

      new : IsNew made
      new = h

      both : IsEmpty filled
      both = kept.empty (both_buffers e l g cb s made new)

      has : HasSession buffers
      has =
          both_buffers-HasSession e l g cb s made new
            (record { session = v.session; pool = v.pool })

  -- ngxe_reader, that is started, of a session with empty buffers and a writer: the reader is at work, and
  -- nothing is lost yet.
  pub opened_reader :
      (extra : ℕ) (start t : ℤ) (w : World S)
      → IsServed g s w
      → ((x : S) → (e.handle_read_event x).0 ≡ true)
      → has_start start ≡ true
      → IsEmpty w
      → CanAnswer mine w
      → (r : Reply S) × (Reader.reader e g connection start t extra cb s w ≡ some r)
        × IsReading e mine (state_of r)
        × IsIntact (state_of r)
  unfolding Reader.reader Reader.reader_set Reader.reader_args mint new_arg reader_start handle_read
  opened_reader extra start t w v ok on h c = (
    Reader.reader_set e g cb start t filled,
    session_served e g cb s (extra + 5) w
        (λ x. some (Reader.reader_set e g cb start t (Reader.reader_args e g cb s extra x))) v,
    rw (on, ok filled.outside)
        (record {
          echoing = record {
            text = rw both.0.text tt;
            echoed = rw (both.0.text, both.0.sent, both.0.bytes, both.0.received) refl;
            callback = both.1.callback;
            output = both.0.output;
            reader_mine = λ k same. subst (λ c. mine c ≡ true) (some-injective cb k same) own;
            writer_mine = both.1.own;
          };
          reads = handler-add_timer t (record (del_timer filled.read) { handler = reader_handler });
          rests = both.1.rests;
          empty = rw both.0.text refl;
        }),
    rw (on, ok filled.outside)
        (record {
          stream = rw (both.0.consumed, both.0.bytes, both.0.received) refl;
          fits = both.0.fits;
        }),
  )
    where
      made : World S
      made = blank_callback cb (extra + 5) s (touch w)

      buffers : World S
      buffers =
          Reader.writer_buffer_arg e g cb s (reader_buffer_arg cb s e g (first_args cb s made))

      filled : World S
      filled = Reader.reader_args e g cb s extra made

      shared : IsEmpty buffers × CanAnswer mine buffers
      shared = shared_buffers e l g cb s mine made h c

      numbered : World S
      numbered = change cb (λ c. record c { min_len = pos 0 }) (new_arg cb (s.fresh 5) buffers)

      kept : IsSame mine numbered filled
      kept = extra_args-IsSame mine cb extra (λ i. s.fresh (i + 6)) numbered

      both : IsEmpty filled × CanAnswer mine filled
      both = (kept.empty shared.0, kept.answer shared.1)
