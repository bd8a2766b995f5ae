-- ===== src/Life/Echo.antt =====
-- A connection whose Perl subs send back what they read, as those of eg/echo-server.pl do: what they
-- are taken to do, and what holds between the events.
pub mod Sending
pub mod Writing
pub mod Reading
pub mod Events
pub mod Served
pub mod Opening
pub mod Accepted
use nginx_engine.Base.{
  ℕ, Bool, true, false, Option, is_some, some, List, [], ◌++◌, ◌≡◌, refl, arith, ◌⊎◌, inl, inr,
}
use nginx_engine.State.{
  World, Env, Buffer, string, undef, dummy_handler, reader_handler, writer_handler,
}
use nginx_engine.Callback.{callback, call_perl, push_args, pop_args}
use nginx_engine.Callback.Rule.{callback_rule}
use nginx_engine.Writer.Stream.Rules.{content}

module _ {S : Type 0} (e : Env S) where
  -- A buffer that is sent as a string. `undef` is, if the C code reads no bytes there.
  abbrev pub IsText : Buffer → Type 0
  IsText (string b) = Unit {0}
  IsText undef = e.stray_bytes undef ≡ []
  IsText _ = ⊥

-- `mine` says which callbacks are those of such subs.
module _ {S : Type 0} (e : Env S) (mine : ℕ → Bool) where
  -- The bytes sent, then those in the write buffer, then those in the read buffer, are the bytes
  -- received. The session can write.
  pub record IsEchoingOf (d : Buffer) (out input got : List ℕ) (r c : Option ℕ) (o : Bool)
      : Type 0 where
    pub text : IsText e d
    pub echoed : out ++ (content d ++ input) ≡ got
    pub callback : is_some c ≡ true
    pub output : o ≡ true
    pub reader_mine : (k : ℕ) → r ≡ some k → mine k ≡ true
    pub writer_mine : (k : ℕ) → c ≡ some k → mine k ≡ true

  abbrev pub IsEchoing : World S → Type 0
  IsEchoing w =
      IsEchoingOf w.writer_buffer w.sent w.reader_buffer.bytes w.received w.reader_callback
        w.writer_callback w.has_writer_buffer

  -- The reader is at work and nothing is left to write, or the writer is at work.
  pub record IsReading (w : World S) : Type 0 where
    pub echoing : IsEchoing w
    pub reads : w.read.handler ≡ reader_handler
    pub rests : w.write.handler ≡ dummy_handler
    pub empty : content w.writer_buffer ≡ []

  pub record IsWriting (w : World S) : Type 0 where
    pub echoing : IsEchoing w
    pub writes : w.write.handler ≡ writer_handler
    pub rests : w.read.handler ≡ dummy_handler

  abbrev pub Reads : World S → Type 0
  Reads w = (w.destroyed ≡ true) ⊎ IsReading w

  abbrev pub Writes : World S → Type 0
  Writes w = (w.destroyed ≡ true) ⊎ IsWriting w

  -- between two events
  abbrev pub Works : World S → Type 0
  Works w = (w.destroyed ≡ true) ⊎ (IsReading w ⊎ IsWriting w)

  -- What is left of a connection by a sub that was given `v`.
  abbrev pub Left : World S → World S → Type 0
  Left v w =
      (w.destroyed ≡ true)
      ⊎ (IsEchoing w × (w.read.handler ≡ v.read.handler) × (w.write.handler ≡ v.write.handler))

  -- Perl subs and native handlers, when nothing is left to write, move bytes from the front of the
  -- read buffer into the write buffer or leave them; they leave the handlers of the events
  -- alone, or destroy the connection. Nothing undoes that.
  pub record KeepEcho : Type 0 where
    pub sub :
        (k : ℕ) (v : World S)
        → mine k ≡ true
        → IsEchoing v
        → content v.writer_buffer ≡ []
        → Left v (e.call_sv k v)
    pub native :
        (f : ℕ) (v : World S)
        → IsEchoing v
        → content v.writer_buffer ≡ []
        → Left v (e.call_native f v)
    pub sub_gone : (k : ℕ) (v : World S) → v.destroyed ≡ true → (e.call_sv k v).destroyed ≡ true
    pub native_gone :
        (f : ℕ) (v : World S) → v.destroyed ≡ true → (e.call_native f v).destroyed ≡ true

  module _ (k : KeepEcho) (cb : ℕ) (w : World S) where
    pub callback-Left :
        mine cb ≡ true → IsEchoing w → content w.writer_buffer ≡ [] → Left w (callback e cb false w)
    unfolding call_perl push_args pop_args
    callback-Left own i h =
        callback_rule e (Left w) cb false w
          (λ sub.
            popped (w.callbacks cb).args_n (e.call_sv cb (push_args cb sub w))
              (k.sub cb (push_args cb sub w) own i h))
          (λ f. k.native f w i h) (inr (i, refl, refl))
      where
        popped : (n : ℕ) (u : World S) → Left w u → Left w (pop_args cb n u)
        popped n u (inl d) = inl d
        popped n u (inr (j, r, x)) = inr (j, r, x)

    pub callback_gone : w.destroyed ≡ true → (callback e cb false w).destroyed ≡ true
    unfolding call_perl push_args pop_args
    callback_gone h =
        callback_rule e (λ v. v.destroyed ≡ true) cb false w
          (λ sub. k.sub_gone cb (push_args cb sub w) h) (λ f. k.native_gone f w h) h
