-- ===== src/Writer/Coherence.antt =====
-- ngxe_writer_handler and ngxe_writer_start keep a connection coherent.
use nginx_engine.Base.{ℕ, some, ◌≡◌}
use nginx_engine.State.{World, Env, Pointer, connection}
use nginx_engine.Connection.Close.{IsCoherent}
use nginx_engine.Connection.Coherence.{
  KeepCoherent, callback-IsCoherent, fail-IsCoherent, start_error-IsCoherent,
  reader_start-IsCoherent,
}
use nginx_engine.Writer.{writer_event, writer_start}
use nginx_engine.Writer.Frame.Rules.{IsFrame}
use nginx_engine.Writer.Frame.{writer_event_frame, writer_start_frame}

module _ {S : Type 0} (e : Env S) (k : KeepCoherent e) where
  IsCoherent-frame : IsFrame e IsCoherent
  IsCoherent-frame = record {
    steps = λ w r v t b o i x s p. record { pool = p.pool; once = p.once };
    lines = λ w line p. record { pool = p.pool; once = p.once };
    calls = λ cb w p. callback-IsCoherent e k cb _ w p;
    fails = λ cb err w p. fail-IsCoherent e k cb err w p;
    starts = λ cb w p. start_error-IsCoherent e k cb w p;
    reads = λ w p. reader_start-IsCoherent e k connection w p;
  }

  -- If Perl subs and native handlers keep a connection coherent, so does a run of the writer
  -- handler that returns, on any kind of buffer: the connection was released at most once, and
  -- its pool is alive exactly while it is not destroyed.
  pub writer_event-IsCoherent :
      (fuel : ℕ) (p : Pointer) (w w' : World S)
      → IsCoherent w
      → writer_event e fuel p w ≡ some w'
      → IsCoherent w'
  writer_event-IsCoherent fuel p w w' h =
      writer_event_frame e IsCoherent IsCoherent-frame fuel p w h w'

  -- If Perl subs and native handlers keep a connection coherent, so does a run of
  -- ngxe_writer_start that returns.
  pub writer_start-IsCoherent :
      (fuel : ℕ) (p : Pointer) (w w' : World S)
      → IsCoherent w
      → writer_start e fuel p w ≡ some w'
      → IsCoherent w'
  writer_start-IsCoherent fuel p w w' h =
      writer_start_frame e IsCoherent IsCoherent-frame fuel p w h w'
