-- ===== src/Life/Reading.antt =====
-- From ngxe_reader to the first event of the reader: what is received is delivered.
use nginx_engine.Base.{ℕ, ℤ, ◌+◌, ◌*◌, ◌≤◌, true, some, ◌≡◌, ◌⊎◌, ◌∙◌, ap, if_true}
use nginx_engine.State.{World, Env, Event, connection}
use nginx_engine.Client.{read_side}
use nginx_engine.Reader.Room.{ReadLaws}
use nginx_engine.Reader.Intact.{IsIntact, KeepIntact}
use nginx_engine.Reader.Rounds.{Drains}
use nginx_engine.Reader.Returns.{reader_event_delivers}
use nginx_engine.Writer.Returns.Rules.{Fills}
use nginx_engine.Writer.Returns.Array.{Ends, HasAtMost}
use nginx_engine.Writer.Termination.{writer_rounds}
use nginx_engine.Api.{Globals, Reply, Supply, state_of, has_start}
use nginx_engine.Api.Balance.{IsServed}
use nginx_engine.Api.Reader
use nginx_engine.Api.Ready.{IsReadable, output_of, reader-IsReady}
use nginx_engine.Life.{deliver, arrive, handler_of}

module _ {S : Type 0} (e : Env S) (left pending : S → ℕ) (most : ℕ) (l : ReadLaws e)
    (f : Fills e left) (t : Ends e left most) (d : Drains e left pending most)
    (room : (s : S) → left (e.handle_write_event s).1 ≤ left s) (g : Globals) (cb : ℕ)
    (s : Supply) where
  -- A call of ngxe_reader that starts the reader, with a session and the memory that it asks for,
  -- on a connection whose read buffer is intact or that has none and nothing received that was not
  -- consumed, returns. When the read event arrives after it, in any state, the handler that the
  -- event has then returns, by itself or through the writer, and unless the connection is
  -- destroyed, the bytes that Perl subs have taken followed by those in the read buffer are exactly
  -- the bytes received, and the string lies in the memory of the buffer. This asks that the event
  -- system accepts the read event, that the subs take from the front of the buffer, do not shrink
  -- it below its string and have finitely many arrays of at most `most` elements, that there is
  -- nothing to read any more at some time and the socket is full at some time, and that recv and
  -- SvGROW keep to `ReadLaws`.
  pub reader_delivers :
      KeepIntact e
      → (start timeout : ℤ) (extra limit fuel : ℕ) (ev : Event) (outside : S) (w : World S)
      → IsServed g s w
      → ((x : S) → (e.handle_read_event x).0 ≡ true)
      → has_start start ≡ true
      → IsReadable w
      → HasAtMost e most (output_of w)
      → writer_rounds most (left outside) ≤ limit
      → 2 * pending outside + 1 ≤ fuel
      → (r : Reply S) × (w' : World S) × (Reader.reader e g connection start timeout extra cb s w
          ≡ some r)
        × (deliver e limit fuel read_side
              (handler_of read_side (state_of r))
              (arrive read_side ev outside (state_of r))
            ≡ some w')
        × ((w'.destroyed ≡ true) ⊎ IsIntact w')
  unfolding deliver
  reader_delivers k start timeout extra limit fuel ev outside w v ok on h most_items rounds enough =
      let (r, same, ready, c, u, output, handler) =
        reader-IsReady e l g cb s start timeout extra w v ok h in
      let w1 : World S = arrive read_side ev outside (state_of r) in
      let (w', q, p) =
        reader_event_delivers e left pending most l f t d room k limit fuel w1
          (record { stream = ready.intact.stream; fits = ready.intact.fits }) (rw output most_items)
          rounds enough in
      (
        r,
        w',
        same,
        ap (λ hd. deliver e limit fuel read_side hd w1) (handler ∙ if_true (has_start start) _ _ on)
            ∙ q,
        p,
      )
