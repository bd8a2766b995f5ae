-- ===== src/Life/Echo/Served.antt =====
-- A connection that sends back what it reads, over any sequence of events.
use nginx_engine.Base.{
  ℕ, Bool, ◌+◌, ◌*◌, ◌≤◌, sym, if_cases, true, false, Option, some, List, [], ◌∷◌, ◌≡◌, refl, ap,
  ◌⊎◌, inl, inr, returned,
}
use mathlib.Core.Path.{subst}
use nginx_engine.State.{
  World, Env, Event, Handler, Buffer, string, undef, scalar_ref, array_ref, other_ref, connection,
  dummy_handler,
}
use nginx_engine.Client.{Side, read_side, write_side}
use nginx_engine.Writer.Returns.Rules.{Fills}
use nginx_engine.Writer.Returns.Array.{Ends, HasAtMost}
use nginx_engine.Writer.Termination.{writer_rounds, writer_event_returns}
use nginx_engine.Reader.Room.{ReadLaws}
use nginx_engine.Reader.Rounds.{Drains}
use nginx_engine.Reader.Intact.{IsIntact, Alive, Alive-frame, KeepIntact, reader_event-IsIntact}
use nginx_engine.Reader.{reader_event}
use nginx_engine.Writer.{writer_event}
use nginx_engine.Writer.Frame.{writer_event_frame}
use nginx_engine.Reader.Returns.{reader_event_returns}
use nginx_engine.Life.{deliver, arrive, handler_of}
use nginx_engine.Life.Echo.{IsText, IsReading, IsWriting, Works, KeepEcho}
use nginx_engine.Life.Echo.Writing.{writer_event-Works}
use nginx_engine.Life.Echo.Reading.{reader_event-Works}
use nginx_engine.Life.Echo.Events.{Arrival, and_then, serve, IsFuelled}

module _ {S : Type 0} (e : Env S) (left pending : S → ℕ) (most : ℕ) (l : ReadLaws e)
    (f : Fills e left) (t : Ends e left most) (d : Drains e left pending most)
    (room : (s : S) → left (e.handle_write_event s).1 ≤ left s) (mine : ℕ → Bool)
    (k : KeepEcho e mine) (i : KeepIntact e) where
  -- A connection between two events.
  record IsServed (w : World S) : Type 0 where
    works : Works e mine w
    alive : Alive w

  text_has_none : (b : Buffer) → IsText e b → HasAtMost e most b
  text_has_none (string b) h r = absurd cc
  text_has_none undef h r = absurd cc
  text_has_none (scalar_ref b) h r = absurd h
  text_has_none (array_ref l) h r = absurd h
  text_has_none other_ref h r = absurd h

  arrives-IsReading :
      (side : Side) (ev : Event) (s : S) (w : World S)
      → IsReading e mine w
      → IsReading e mine (arrive side ev s w)
  arrives-IsReading read_side ev s w h = record {
    echoing = h.echoing;
    reads = h.reads;
    rests = h.rests;
    empty = h.empty;
  }
  arrives-IsReading write_side ev s w h = record {
    echoing = h.echoing;
    reads = h.reads;
    rests = h.rests;
    empty = h.empty;
  }

  arrives-IsWriting :
      (side : Side) (ev : Event) (s : S) (w : World S)
      → IsWriting e mine w
      → IsWriting e mine (arrive side ev s w)
  arrives-IsWriting read_side ev s w h = record {
    echoing = h.echoing;
    writes = h.writes;
    rests = h.rests;
  }
  arrives-IsWriting write_side ev s w h = record {
    echoing = h.echoing;
    writes = h.writes;
    rests = h.rests;
  }

  arrives-IsIntact :
      (side : Side) (ev : Event) (s : S) (w : World S) → IsIntact w → IsIntact (arrive side ev s w)
  arrives-IsIntact read_side ev s w h = record { stream = h.stream; fits = h.fits }
  arrives-IsIntact write_side ev s w h = record { stream = h.stream; fits = h.fits }

  abbrev Returns : Option (World S) → Type 0
  Returns o = (w' : World S) × (o ≡ some w') × IsServed w'

  module _ (limit fuel : ℕ) where
    reads :
        (w : World S)
        → (writer_rounds most (left w.outside) ≤ limit) × (2 * pending w.outside + 1 ≤ fuel)
        → IsReading e mine w
        → IsIntact w
        → Returns (reader_event e limit fuel connection w)
    reads w b h a =
        let (w', q) = returned _ (
          reader_event_returns e left pending most l f t d room limit fuel w a.fits
            (text_has_none w.writer_buffer h.echoing.text) b.0 b.1) in
        (
          w',
          q,
          record {
            works = reader_event-Works e mine k limit fuel w w' h q;
            alive = reader_event-IsIntact e l i limit fuel w w' a q;
          },
        )

    writes :
        (w : World S)
        → writer_rounds most (left w.outside) ≤ fuel
        → IsWriting e mine w
        → IsIntact w
        → Returns (writer_event e fuel connection w)
    writes w b h a =
        let (w', q) = returned _ (
          writer_event_returns e left most f t fuel connection w
            (b, text_has_none w.writer_buffer h.echoing.text)) in
        (
          w',
          q,
          record {
            works = writer_event-Works e mine k fuel w h w' q;
            alive = writer_event_frame e Alive (Alive-frame e l i) fuel connection w (inr a) w' q;
          },
        )

    -- A deliver to the handler that is set.
    abbrev Delivers : Side → Handler → World S → Type 0
    Delivers side h w = Returns (deliver e limit fuel side h w)

    -- The handler that does nothing.
    rests : (side : Side) (w : World S) → IsServed w → Delivers side dummy_handler w
    unfolding deliver
    rests side w p = (w, refl, p)

    module _ (ev : Event) (s : S)
        (b : (writer_rounds most (left s) ≤ limit)
          × (writer_rounds most (left s) ≤ fuel)
          × (2 * pending s + 1 ≤ fuel)) where
      served :
          (side : Side) (w : World S)
          → IsReading e mine w ⊎ IsWriting e mine w
          → IsIntact w
          → Delivers side (handler_of side w) (arrive side ev s w)
      unfolding deliver
      served read_side w (inl h) a =
          subst (λ hd. Delivers read_side hd (arrive read_side ev s w)) (sym h.reads)
            (reads _ (b.0, b.2) (arrives-IsReading read_side ev s w h)
              (arrives-IsIntact read_side ev s w a))
      served read_side w (inr h) a =
          subst (λ hd. Delivers read_side hd (arrive read_side ev s w)) (sym h.rests)
            (rests read_side _ (record {
              works = inr (inr (arrives-IsWriting read_side ev s w h));
              alive = inr (arrives-IsIntact read_side ev s w a);
            }))
      served write_side w (inl h) a =
          subst (λ hd. Delivers write_side hd (arrive write_side ev s w)) (sym h.rests)
            (rests write_side _ (record {
              works = inr (inl (arrives-IsReading write_side ev s w h));
              alive = inr (arrives-IsIntact write_side ev s w a);
            }))
      served write_side w (inr h) a =
          subst (λ hd. Delivers write_side hd (arrive write_side ev s w)) (sym h.writes)
            (writes _ b.1 (arrives-IsWriting write_side ev s w h)
              (arrives-IsIntact write_side ev s w a))

    -- A connection whose Perl subs send back what they read, as those of eg/echo-server.pl do (`KeepEcho`),
    -- and which begins with its reader at work and nothing to write, or with its writer at work, serves
    -- any sequence of events, each of which leaves fuel enough: all its handlers return, and at the
    -- end the connection is destroyed, or it is again like that, with the bytes sent, those in
    -- the write buffer and those in the read buffer, in this order, exactly those received.
    pub serve_echoes :
        (arrivals : List (Arrival S)) (w : World S)
        → IsFuelled left pending most limit fuel arrivals
        → Works e mine w
        → Alive w
        → (w' : World S) × (serve e limit fuel arrivals w ≡ some w') × Works e mine w' × Alive w'
    unfolding serve
    serve_echoes [] w b p a = (w, refl, p, a)
    serve_echoes (x ∷ arrivals) w b p a =
        if_cases Serves w.destroyed (λ gone. (w, refl, p, a))
          (λ lives.
            let (v, q, r) =
              served x.event x.outside b.0 x.side w (standing lives p) (standing lives a) in
            subst Serves (sym (ap (λ o. and_then o (serve e limit fuel arrivals)) q))
              (serve_echoes arrivals v b.1 r.works r.alive))
      where
        Serves : Option (World S) → Type 0
        Serves o = (w' : World S) × (o ≡ some w') × Works e mine w' × Alive w'

        standing : {P : Type 0} → w.destroyed ≡ false → (w.destroyed ≡ true) ⊎ P → P
        standing lives (inl gone) = absurd cc
        standing lives (inr h) = h
