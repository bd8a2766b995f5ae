-- ===== src/Life.antt =====
-- The life of a connection with a session: its events, for which nginx calls the handlers that are set,
-- and the calls that Perl code makes, in any order.
pub mod Reading
pub mod Dialling
pub mod Echo
pub mod Settled
use nginx_engine.Base.{ℕ, ◌≤◌, not, true, Option, none, some, ◌≡◌, arith}
use mathlib.Core.Path.{subst}
use nginx_engine.State.{
  World, Env, Event, Handler, Pointer, connection, dummy_handler, reader_handler, writer_handler,
  client_init_handler, interval_handler, timeout_handler,
}
use nginx_engine.Connection.Close.{IsCoherent, releases}
use nginx_engine.Connection.Coherence.{KeepCoherent}
use nginx_engine.Reader.{reader_event}
use nginx_engine.Reader.Coherence.{reader_event-IsCoherent}
use nginx_engine.Writer.{writer_event}
use nginx_engine.Writer.Coherence.{writer_event-IsCoherent}
use nginx_engine.Client.{Side, read_side, write_side, client_init_event}
use nginx_engine.Client.Laws.{client_init_event-IsCoherent}
use nginx_engine.Api.{Globals, Reply, state_of, free_temps}
use nginx_engine.Api.Calls.{Call, perform}
use nginx_engine.Api.Coherence.{perform-IsCoherent}

-- What nginx has done to an event before it calls the handler: only the handler is as it was.
abbrev pub arrive : {S : Type 0} → Side → Event → S → World S → World S
arrive read_side ev s w = record w { read = record ev { handler = w.read.handler }; outside = s }
arrive write_side ev s w = record w { write = record ev { handler = w.write.handler }; outside = s }

abbrev pub handler_of : {S : Type 0} → Side → World S → Handler
handler_of read_side w = w.read.handler
handler_of write_side w = w.write.handler

module _ {S : Type 0} (e : Env S) where
  -- `ev->handler(ev)`. `limit` and `fuel` bound the rounds of the handlers. The handlers of timers are set
  -- on the connections of timers only.
  unfoldable pub deliver : ℕ → ℕ → Side → Handler → World S → Option (World S)
  unfolding reader_event writer_event client_init_event
  deliver limit fuel side dummy_handler w = some w
  deliver limit fuel side reader_handler w = reader_event e limit fuel connection w
  deliver limit fuel side writer_handler w = writer_event e fuel connection w
  deliver limit fuel side client_init_handler w = some (client_init_event e side connection w)
  deliver limit fuel side interval_handler w = none
  deliver limit fuel side timeout_handler w = none

  module _ (g : Globals) where
    -- One step of the life: an event whose handler returns, a call of Engine.xs that returns, or the end
    -- of a statement of the Perl program.
    pub data Step : World S → World S → Type 0 where
      event :
          (limit fuel : ℕ) (side : Side) (ev : Event) (s : S) (w w' : World S)
          → deliver limit fuel side (handler_of side w) (arrive side ev s w) ≡ some w'
          → Step w w'
      call :
          (fuel : ℕ) (c : Call) (p : Pointer) (w : World S) (r : Reply S)
          → perform e g fuel c p w ≡ some r
          → Step w (state_of r)
      statement : (w : World S) → Step w (free_temps w)

    pub data Life (w0 : World S) : World S → Type 0 where
      born : Life w0 w0
      lives : (w w' : World S) → Life w0 w → Step w w' → Life w0 w'

  abbrev IsCoherentIfAny : Option (World S) → Type 0
  IsCoherentIfAny none = Unit {0}
  IsCoherentIfAny (some w) = IsCoherent w

  module _ (k : KeepCoherent e) where
    deliver-IsCoherent :
        (limit fuel : ℕ) (side : Side) (h : Handler) (w w' : World S)
        → IsCoherent w
        → deliver limit fuel side h w ≡ some w'
        → IsCoherent w'
    unfolding deliver
    deliver-IsCoherent limit fuel side dummy_handler w w' p same = subst IsCoherentIfAny same p
    deliver-IsCoherent limit fuel side reader_handler w w' p same =
        reader_event-IsCoherent e k limit fuel w w' p same
    deliver-IsCoherent limit fuel side writer_handler w w' p same =
        writer_event-IsCoherent e k fuel connection w w' p same
    deliver-IsCoherent limit fuel side client_init_handler w w' p same =
        subst IsCoherentIfAny same (client_init_event-IsCoherent e k side connection w p)
    deliver-IsCoherent limit fuel side interval_handler w w' p same = absurd cc
    deliver-IsCoherent limit fuel side timeout_handler w w' p same = absurd cc

    arrive-IsCoherent :
        (side : Side) (ev : Event) (s : S) (w : World S)
        → IsCoherent w
        → IsCoherent (arrive side ev s w)
    arrive-IsCoherent read_side ev s w p = record { pool = p.pool; once = p.once }
    arrive-IsCoherent write_side ev s w p = record { pool = p.pool; once = p.once }

    Step-IsCoherent : (g : Globals) {w w' : World S} → Step g w w' → IsCoherent w → IsCoherent w'
    unfolding free_temps
    Step-IsCoherent g (event limit fuel side ev s w w' same) p =
        deliver-IsCoherent limit fuel side (handler_of side w) (arrive side ev s w) w'
          (arrive-IsCoherent side ev s w p) same
    Step-IsCoherent g (call fuel c q w r same) p = perform-IsCoherent e k g fuel c q w r p same
    Step-IsCoherent g (statement w) p = record { pool = p.pool; once = p.once }

    Life-IsCoherent : (g : Globals) {w0 w : World S} → Life g w0 w → IsCoherent w0 → IsCoherent w
    Life-IsCoherent g born p = p
    Life-IsCoherent g (lives w w' l s) p = Step-IsCoherent g s (Life-IsCoherent g l p)

    -- Over any sequence of events, of calls of Engine.xs and of ends of statements that begins with a
    -- coherent connection, if the Perl subs and native handlers keep it coherent: it has been
    -- released at most once, and not at all as long as its pool is alive; and its pool is alive
    -- exactly as long as it is not destroyed.
    pub released_once :
        (g : Globals) (w0 w : World S)
        → Life g w0 w
        → IsCoherent w0
        → (releases w.trace ≤ 1)
          × ((w.pool_alive ≡ true) → releases w.trace ≡ 0)
          × (w.pool_alive ≡ not w.destroyed)
    released_once g w0 w l p = let c = Life-IsCoherent g l p in ground (arith, c.once, c.pool)
