-- ===== src/Life/Echo/Opening/Buffers.antt =====
-- The buffers that the calls of eg/echo-server.pl make and share, and what making an argument
-- leaves as it is.
use nginx_engine.Base.{
  ℕ, Bool, zero, suc, ◌+◌, List, Option, true, false, some, is_some, [], if_false, ◌≡◌, refl, arith,
}
use nginx_engine.State.{World, Env, Pv, Buffer, Handler, string, dummy_handler}
use nginx_engine.Reader.Room.{ReadLaws, Fits}
use nginx_engine.Api.{Globals, Supply, mint}
use nginx_engine.Api.Creation.{
  new_arg, shared_arg, extra_args, first_args, reader_buffer_arg, newsv_size,
}
use nginx_engine.Api.Reader
use nginx_engine.Api.Writer

-- A session without buffers, of a connection on which nothing has happened.
pub record IsNewOf (input output : Bool) (out got taken : List ℕ) : Type 0 where
  pub no_input : input ≡ false
  pub no_output : output ≡ false
  pub sent : out ≡ []
  pub received : got ≡ []
  pub consumed : taken ≡ []

abbrev pub IsNew : {S : Type 0} → World S → Type 0
IsNew w = IsNewOf w.has_reader_buffer w.has_writer_buffer w.sent w.received w.consumed

-- The same with two empty buffers.
pub record IsEmptyOf (i : Bool) (b : Pv) (o : Bool) (d : Buffer) (out got taken : List ℕ)
    : Type 0 where
  pub input : i ≡ true
  pub bytes : b.bytes ≡ []
  pub fits : Fits b
  pub output : o ≡ true
  pub text : d ≡ string []
  pub sent : out ≡ []
  pub received : got ≡ []
  pub consumed : taken ≡ []

abbrev pub IsEmpty : {S : Type 0} → World S → Type 0
IsEmpty w =
    IsEmptyOf w.has_reader_buffer w.reader_buffer w.has_writer_buffer w.writer_buffer w.sent
      w.received w.consumed

-- A session that can write, with a writer that is not at work.
pub record CanAnswerOf (mine : ℕ → Bool) (s p : Bool) (c : Option ℕ) (h : Handler) : Type 0 where
  pub session : s ≡ true
  pub pool : p ≡ true
  pub callback : is_some c ≡ true
  pub rests : h ≡ dummy_handler
  pub own : (k : ℕ) → c ≡ some k → mine k ≡ true

abbrev pub CanAnswer : {S : Type 0} → (ℕ → Bool) → World S → Type 0
CanAnswer mine w = CanAnswerOf mine w.has_session w.has_pool w.writer_callback w.write.handler

-- What making an argument does not touch.
pub record IsSame {S : Type 0} (mine : ℕ → Bool) (v w : World S) : Type 0 where
  pub empty : IsEmpty v → IsEmpty w
  pub answer : CanAnswer mine v → CanAnswer mine w
  pub session : w.has_session ≡ v.has_session
  pub pool : w.has_pool ≡ v.has_pool

pub extra_args-IsSame :
    {S : Type 0} (mine : ℕ → Bool) (cb n : ℕ) (fresh : ℕ → ℕ) (w : World S)
    → IsSame mine w (extra_args cb fresh n w)
unfolding extra_args new_arg mint
extra_args-IsSame mine cb zero fresh w = record {
  empty = λ h. h;
  answer = λ h. h;
  session = refl;
  pool = refl;
}
extra_args-IsSame mine cb (suc n) fresh w =
    let h = extra_args-IsSame mine cb n (λ i. fresh (i + 1)) (new_arg cb (fresh 0) w) in
    record { empty = h.empty; answer = h.answer; session = h.session; pool = h.pool }

-- The session and the pool stay.
pub record HasSession {S : Type 0} (w : World S) : Type 0 where
  pub session : w.has_session ≡ true
  pub pool : w.has_pool ≡ true

module _ {S : Type 0} (e : Env S) (l : ReadLaws e) (g : Globals) (cb : ℕ) (s : Supply) where
  reader_buffer_new :
      (w : World S)
      → w.has_reader_buffer ≡ false
      → reader_buffer_arg cb s e g w ≡ record (new_arg cb (s.fresh 3) w) {
        has_reader_buffer = true;
        reader_scalar = s.fresh 3;
        reader_buffer = record {
          bytes = [];
          len = e.grow 0 (newsv_size e.pagesize g.reader_buffer_size + 1);
        };
      }
  unfolding reader_buffer_arg
  reader_buffer_new w h = if_false w.has_reader_buffer _ _ h

  -- ngxe_writer with an empty string makes both buffers.
  pub both_buffers :
      (w : World S)
      → IsNew w
      → IsEmpty (
          Writer.filled_buffer_arg e g cb s true
            (string [])
            (reader_buffer_arg cb s e g (first_args cb s w)))
  unfolding first_args new_arg mint Writer.filled_buffer_arg
  both_buffers w h =
      rw (reader_buffer_new (first_args cb s w) h.no_input, h.no_output)
        (record {
          input = refl;
          bytes = refl;
          fits = omega (arith, l.grow_enough 0 (newsv_size e.pagesize g.reader_buffer_size + 1));
          output = refl;
          text = refl;
          sent = h.sent;
          received = h.received;
          consumed = h.consumed;
        })

  pub both_buffers-HasSession :
      (w : World S)
      → IsNew w
      → HasSession w
      → HasSession (
          Writer.filled_buffer_arg e g cb s true
            (string [])
            (reader_buffer_arg cb s e g (first_args cb s w)))
  unfolding first_args new_arg mint Writer.filled_buffer_arg
  both_buffers-HasSession w h v =
      rw (reader_buffer_new (first_args cb s w) h.no_input, h.no_output)
        (record { session = v.session; pool = v.pool })

  -- The arguments of a reader whose buffers are there.
  pub shared_buffers :
      (mine : ℕ → Bool) (w : World S)
      → IsEmpty w
      → CanAnswer mine w
      → IsEmpty (Reader.writer_buffer_arg e g cb s (reader_buffer_arg cb s e g (first_args cb s w)))
        × CanAnswer mine
            (Reader.writer_buffer_arg e g cb s (reader_buffer_arg cb s e g (first_args cb s w)))
  unfolding first_args new_arg mint shared_arg reader_buffer_arg Reader.writer_buffer_arg
  shared_buffers mine w h c =
      rw (h.input, h.output)
        (
          record {
            input = refl;
            bytes = h.bytes;
            fits = h.fits;
            output = refl;
            text = h.text;
            sent = h.sent;
            received = h.received;
            consumed = h.consumed;
          },
          c,
        )
