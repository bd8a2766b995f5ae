-- ===== src/Reader/Coherence.antt =====
-- ngxe_reader_handler keeps a connection coherent.
use nginx_engine.Base.{ℕ, false, some, ◌≡◌, inl, inr}
use nginx_engine.State.{World, Env, connection}
use nginx_engine.Connection.Close.{IsCoherent}
use nginx_engine.Connection.Coherence.{KeepCoherent, callback-IsCoherent, fail-IsCoherent}
use nginx_engine.Writer.Coherence.{writer_start-IsCoherent}
use nginx_engine.Reader.{reader_event}
use nginx_engine.Reader.Frame.{IsReaderFrame, reader_event_frame, callback_block_frame}

module _ {S : Type 0} (e : Env S) (k : KeepCoherent e) where
  IsCoherent-reader_frame : IsReaderFrame e IsCoherent
  IsCoherent-reader_frame = record {
    steps = λ w r t s h p. record { pool = p.pool; once = p.once };
    lines = λ w line p. record { pool = p.pool; once = p.once };
    fails = λ cb err w p. fail-IsCoherent e k cb err w p;
    grows = λ w p. record { pool = p.pool; once = p.once };
    stores = λ w s xs q p. record { pool = p.pool; once = p.once };
  }

  -- If Perl subs and native handlers keep a connection coherent, so does a run of the reader
  -- handler that returns, by itself or through the writer that it starts: the connection was
  -- released at most once, and its pool is alive exactly while it is not destroyed.
  pub reader_event-IsCoherent :
      (limit fuel : ℕ) (w w' : World S)
      → IsCoherent w
      → reader_event e limit fuel connection w ≡ some w'
      → IsCoherent w'
  reader_event-IsCoherent limit fuel w w' p h =
      elim (reader_event_frame e IsCoherent IsCoherent IsCoherent-reader_frame limit fuel w w'
        (λ cb own.
          callback_block_frame e IsCoherent IsCoherent-reader_frame
            (λ w r p. record { pool = p.pool; once = p.once }) cb
            (callback-IsCoherent e k cb false))
        p h) [ inl q ↦ q | inr (v, q, s) ↦ writer_start-IsCoherent e k limit connection v w' q s ]
