-- ===== src/Life/Settled/Events.antt =====
-- What the handlers of a connection leave of the references that its end gives back.
use nginx_engine.Base.{ℕ, Option, none, some, List, [], ◌∷◌, ◌≡◌, refl, if_rule, inl, inr}
use nginx_engine.State.{
  Event, World, Env, Handler, connection, dummy_handler, reader_handler, writer_handler,
  client_init_handler, interval_handler, timeout_handler,
}
use mathlib.Core.Path.{subst}
use mathlib.Core.Option.{some-injective}
use nginx_engine.Connection.{start_error, reader_start, log}
use nginx_engine.Reader.{reader_event}
use nginx_engine.Reader.Frame.{IsReaderFrame, reader_event_frame, callback_block_frame}
use nginx_engine.Writer.Frame.Rules.{IsFrame}
use nginx_engine.Writer.Frame.{writer_event_frame, writer_start_frame}
use nginx_engine.Client.{
  Side, read_side, write_side, client_init_event, client_ready, connected, event_of,
}
use nginx_engine.Api.Debts.{Owes}
use nginx_engine.Api.Debts.Kept.{KeepDebts, callback-Owes, final-Owes, fail-Owes}
use nginx_engine.Life.{deliver, arrive, handler_of}
use nginx_engine.Life.Echo.Events.{serve, Arrival, and_then}

module _ {S : Type 0} (e : Env S) (k : KeepDebts e) (r0 : ℕ → ℕ) where
  abbrev pub P : World S → Type 0
  P w = Owes r0 w

  started : (c : Option ℕ) (w : World S) → P w → P (start_error e c w)
  unfolding start_error
  started none w p = p
  started (some cb) w p = fail-Owes e k r0 cb _ w p

  Owes-frame : IsFrame e P
  Owes-frame = record {
    steps = λ w r v t b o i x s p. p;
    lines = λ w line p. p;
    calls = callback-Owes e k r0;
    fails = fail-Owes e k r0;
    starts = started;
    reads = λ w p.
        unfold reader_start in
        if_rule P (e.handle_read_event w.outside).0 p (started w.reader_callback _ p);
  }

  Owes-reader_frame : IsReaderFrame e P
  Owes-reader_frame = record {
    steps = λ w r t s h p. p;
    lines = λ w line p. p;
    fails = fail-Owes e k r0;
    grows = λ w p. p;
    stores = λ w s xs q p. p;
  }

  reader_event-Owes :
      (limit fuel : ℕ) (w w' : World S)
      → P w
      → reader_event e limit fuel connection w ≡ some w'
      → P w'
  reader_event-Owes limit fuel w w' p h =
      elim (reader_event_frame e P P Owes-reader_frame limit fuel w w'
        (λ cb own.
          callback_block_frame e P Owes-reader_frame (λ w r p. p) cb (callback-Owes e k r0 cb))
        p h) [
          | inl q ↦ q
          | inr (v, q, s) ↦ writer_start_frame e P Owes-frame limit connection v q w' s
        ]

  connected-Owes : (side : Side) (cb : ℕ) (w : World S) → P w → P (connected e side cb w)
  unfolding connected
  connected-Owes side cb w p =
      if_rule P (event_of side w).error (fail-Owes e k r0 cb _ _ p) (
        if_rule P (event_of side w).timedout (fail-Owes e k r0 cb _ _ p) (final-Owes e k r0 cb _ p))

  client_init_event-Owes :
      (side : Side) (w : World S) → P w → P (client_init_event e side connection w)
  unfolding client_init_event client_ready
  client_init_event-Owes side w p = if_rule P w.has_session (with_callback w.writer_callback) p
    where
      ready : World S
      ready = record w {
        read = record w.read { handler = dummy_handler };
        write = record w.write { handler = dummy_handler };
      }

      with_callback :
          (c : Option ℕ)
          → P (elim c [
            | none ↦ log "ngxe_client_init_handler(): cb == NULL" ready
            | some cb ↦ connected e side cb ready
          ])
      with_callback none = p
      with_callback (some cb) = connected-Owes side cb ready p

  abbrev pub Holds : Option (World S) → Type 0
  Holds o = (w' : World S) → o ≡ some w' → P w'

  same-Holds : (w : World S) → P w → Holds (some w)
  same-Holds w p w' h = subst P (some-injective w w' h) p

  deliver-Owes :
      (limit fuel : ℕ) (side : Side) (h : Handler) (w : World S)
      → P w
      → Holds (deliver e limit fuel side h w)
  unfolding deliver
  deliver-Owes limit fuel side dummy_handler w p = same-Holds w p
  deliver-Owes limit fuel side reader_handler w p = λ w'. reader_event-Owes limit fuel w w' p
  deliver-Owes limit fuel side writer_handler w p =
      writer_event_frame e P Owes-frame fuel connection w p
  deliver-Owes limit fuel side client_init_handler w p =
      same-Holds _ (client_init_event-Owes side w p)
  deliver-Owes limit fuel side interval_handler w p = λ w' h. absurd cc
  deliver-Owes limit fuel side timeout_handler w p = λ w' h. absurd cc

  arrive-Owes : (side : Side) (ev : Event) (s : S) (w : World S) → P w → P (arrive side ev s w)
  arrive-Owes read_side ev s w p = p
  arrive-Owes write_side ev s w p = p

  and_then-Holds :
      (o : Option (World S)) (next : World S → Option (World S))
      → Holds o
      → ((v : World S) → P v → Holds (next v))
      → Holds (and_then o next)
  and_then-Holds none next h n = λ w' q. absurd cc
  and_then-Holds (some v) next h n = n v (h v refl)

  pub serve-Owes :
      (limit fuel : ℕ) (arrivals : List (Arrival S)) (w : World S)
      → P w
      → Holds (serve e limit fuel arrivals w)
  unfolding serve
  serve-Owes limit fuel [] w p = same-Holds w p
  serve-Owes limit fuel (a ∷ l) w p = if_rule Holds w.destroyed (same-Holds w p) (
      and_then-Holds
        (deliver e limit fuel a.side (handler_of a.side w) (arrive a.side a.event a.outside w))
        (serve e limit fuel l)
        (deliver-Owes limit fuel a.side (handler_of a.side w) _
          (arrive-Owes a.side a.event a.outside w p))
        (λ v. serve-Owes limit fuel l v))
