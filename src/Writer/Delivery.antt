-- ===== src/Writer/Delivery.antt =====
-- The three writer handlers return, with the stream of the connection as it should be.
use nginx_engine.Base.{ℕ, ◌+◌, ◌*◌, ◌≤◌, ◌<◌, some, length, ◌≡◌, ◌⊎◌, returned}
use nginx_engine.State.{World, Env}
use nginx_engine.Writer.Blocks.{drive}
use nginx_engine.Writer.Plain
use nginx_engine.Writer.Offset.{int_limit}
use nginx_engine.Writer.Scalar
use nginx_engine.Writer.Array
use nginx_engine.Writer.Stream.Rules.{view, content, Fresh, Underway, Settled, Refills, SendsPart}
use nginx_engine.Writer.Stream.Plain.{IsPlain, Sound, plain_stream}
use nginx_engine.Writer.Stream.Scalar.{IsScalar, IsScalarRef, scalar_stream}
use nginx_engine.Writer.Stream.Array.{IsArray, IsArrayRef, array_stream}
use nginx_engine.Writer.Returns.Rules.{Fills}
use nginx_engine.Writer.Returns.Plain.{plain_returns}
use nginx_engine.Writer.Returns.Scalar.{scalar_returns}
use nginx_engine.Writer.Returns.Array.{Ends, enough, array_returns}

module _ {S : Type 0} (e : Env S) (left : S → ℕ) (f : Fills e left) (cb : ℕ) where
  -- The handler of a string buffer returns, on any fuel of at least two rounds for each time that the
  -- socket still takes bytes, and two more. If it starts where the bytes sent and then the string are
  -- what Perl subs have queued, and the subs keep to that when all is sent, then at the end the bytes
  -- sent and then the buffer are what was queued, or the connection is destroyed.
  pub plain_delivers :
      Refills (IsPlain e) e
      → (fuel : ℕ) (w : World S) → 2 * left w.outside + 2 ≤ fuel
      → Fresh (view w)
      → IsPlain e w.writer_buffer w.writer_offset
      → (w' : World S) × (drive fuel (Plain.labels e cb) (Plain.enter e cb w) ≡ some w')
        × Sound e (view w')
  plain_delivers r fuel w b u k =
      let (w', h) = returned _ (plain_returns e left f cb fuel w b) in
      (w', h, plain_stream e r cb fuel w w' u k h)

  -- The handler of a reference to a scalar returns, on any fuel of at least three rounds for each
  -- time that the socket still takes bytes, and two more. If it starts at offset 0 or inside of the
  -- scalar, where the bytes sent and then those behind the offset are what Perl subs have queued, and
  -- the subs keep to that when all is sent, then at the end this holds for the rest of the scalar or
  -- for a new buffer, or the connection is destroyed. Each scalar has fewer than 2 to the 31 bytes, and
  -- send() takes no more bytes than it is given.
  pub scalar_delivers :
      Refills IsScalar e
      → SendsPart e
      → (fuel : ℕ) (w : World S) → 3 * left w.outside + 2 ≤ fuel
      → Underway (view w)
      → IsScalarRef w.writer_buffer
      → (w.writer_offset ≡ 0) ⊎ (w.writer_offset < length (content w.writer_buffer))
      → (w' : World S) × (drive fuel (Scalar.labels e cb) (Scalar.enter e cb w) ≡ some w')
        × Settled (view w')
  scalar_delivers r part fuel w b u k p =
      let (w', h) = returned _ (scalar_returns e left f cb fuel w b) in
      (w', h, scalar_stream e r part cb fuel w w' u k p h)

  -- The handler of a reference to an array returns, on any fuel of at least the rounds that the rest
  -- of this array and those that the subs still have can take. If it starts where the bytes sent and
  -- then those behind its position (the offset in the element of the index, and the elements behind)
  -- are what Perl subs have queued, and the subs keep to that when all is sent, then at the end this
  -- holds for the rest of an array or for a new buffer, or the connection is destroyed. The arrays have
  -- fewer than 2 to the 31 elements and no holes, each scalar and the offset at the start are below 2 to
  -- the 31, and send() takes no more bytes than it is given.
  pub array_delivers :
      (most : ℕ)
      → Ends e left most
      → Refills IsArray e
      → SendsPart e
      → (fuel : ℕ) (w : World S) → enough e left most w ≤ fuel
      → Underway (view w)
      → IsArrayRef w.writer_buffer
      → w.writer_offset < int_limit
      → (w' : World S) × (drive fuel (Array.labels e cb) (Array.enter e cb w) ≡ some w')
        × Settled (view w')
  array_delivers most t r part fuel w b u k o =
      let (w', h) = returned _ (array_returns e left most f t cb fuel w b) in
      (w', h, array_stream e r part cb fuel w w' u k o h)
