-- ===== src/Life/Echo/Accepted.antt =====
-- eg/echo-server.pl from the accepted connection on.
use nginx_engine.Base.{
  ℕ, ℤ, pos, Bool, true, false, Option, none, some, List, [], String, ◌≤◌, ◌≡◌, refl, sym, ap, ◌∙◌,
  arith, inr, inl,
}
use mathlib.Core.Path.{subst}
use nginx_engine.State.{World, Env, string, connection, dummy_handler}
use nginx_engine.Callback.{call_perl, push_args, pop_args, update}
use nginx_engine.Callback.Balance.{callback-call_perl}
use nginx_engine.Server.{server_init_connection, empty_session}
use nginx_engine.Reader.Room.{ReadLaws}
use nginx_engine.Reader.Rounds.{Drains}
use nginx_engine.Reader.Intact.{IsIntact, Alive, KeepIntact}
use nginx_engine.Writer.Returns.Rules.{Fills}
use nginx_engine.Writer.Returns.Array.{Ends}
use nginx_engine.Api.{Globals, Reply, Supply, state_of}
use nginx_engine.Api.Reader
use nginx_engine.Api.Writer
use nginx_engine.Api.Balance.{IsServed}
use nginx_engine.Life.Echo.{IsReading, Works, KeepEcho}
use nginx_engine.Life.Echo.Events.{Arrival, serve, IsFuelled}
use nginx_engine.Life.Echo.Opening.{IsNew, opened_writer, opened_reader}
use nginx_engine.Life.Echo.Served.{serve_echoes}

-- What Perl code gives to the two calls: the callbacks, the allocations, the timeouts.
pub record Opening : Type 0 where
  pub writer_callback : ℕ
  pub writer_supply : Supply
  pub writer_timeout : ℤ
  pub reader_callback : ℕ
  pub reader_supply : Supply
  pub reader_timeout : ℤ

-- The second call follows the first one where that has returned.
abbrev and_then : {S : Type 0} → Option (Reply S) → (World S → Option (Reply S)) → Option (Reply S)
and_then none next = none
and_then (some r) next = next (state_of r)

module _ {S : Type 0} (e : Env S) (g : Globals) (o : Opening) where
  -- `ngxe_writer $_[0], 0, …, '', sub { … }; ngxe_reader $_[0], 1, …, sub { … };`. A writer that is not
  -- started needs no fuel.
  unfoldable pub open_connection : World S → Option (Reply S)
  unfolding Writer.writer Reader.reader
  open_connection w =
      and_then
        (Writer.writer e g 0 connection (pos 0) o.writer_timeout true (string []) 0
          o.writer_callback o.writer_supply w)
        (Reader.reader e g connection (pos 1) o.reader_timeout 0 o.reader_callback o.reader_supply)

  module _ (l : ReadLaws e) (mine : ℕ → Bool) (writer_mine : mine o.writer_callback ≡ true)
      (reader_mine : mine o.reader_callback ≡ true)
      (ok : (x : S) → (e.handle_read_event x).0 ≡ true) where
    -- The pointers and the memory that the two calls ask for.
    pub record IsOffered (w : World S) : Type 0 where
      pub writer : IsServed g o.writer_supply w
      pub reader : (i : ℕ) → o.reader_supply.memory i ≡ true

    pub opened :
        (w : World S)
        → IsOffered w
        → IsNew w
        → (r : Reply S) × (open_connection w ≡ some r)
          × IsReading e mine (state_of r)
          × IsIntact (state_of r)
    unfolding open_connection
    opened w v h =
        let (r, same, empty, answer) =
          opened_writer e l g o.writer_callback o.writer_supply mine writer_mine 0 0 (pos 0)
            o.writer_timeout w v.writer refl h in
        let (r', same', reading, intact) =
          opened_reader e l g o.reader_callback o.reader_supply mine reader_mine 0 (pos 1)
            o.reader_timeout (state_of r)
            (record {
              initialized = v.writer.initialized;
              pool = answer.pool;
              session = answer.session;
              memory = v.reader;
            })
            ok refl empty answer in
        (
          r',
          ap
                (λ x. and_then x (
                  Reader.reader e g connection (pos 1) o.reader_timeout 0 o.reader_callback
                    o.reader_supply))
                same
              ∙ same',
          reading,
          intact,
        )

    after_pop :
        (cb n : ℕ) (u : World S)
        → IsReading e mine u × IsIntact u
        → IsReading e mine (pop_args cb n u) × IsIntact (pop_args cb n u)
    unfolding pop_args
    after_pop cb n u (h, i) = (
      record { echoing = h.echoing; reads = h.reads; rests = h.rests; empty = h.empty },
      record { stream = i.stream; fits = i.fits },
    )

    -- The sub of the server makes the two calls, on a new session.
    abbrev pub Opens : ℕ → Type 0
    Opens cb =
        (v : World S) (r : Reply S)
        → IsOffered v
        → IsNew v
        → open_connection v ≡ some r
        → e.call_sv cb v ≡ state_of r

    -- The handler of the accepted connection.
    accepted :
        (cb sub : ℕ) (address : String) (w : World S)
        → Opens cb
        → (w.callbacks cb).handler ≡ some sub
        → IsOffered (empty_session w)
        → IsNew (empty_session w)
        → IsReading e mine (server_init_connection e true cb address w)
          × IsIntact (server_init_connection e true cb address w)
    unfolding server_init_connection
    accepted cb sub address w opens has v h =
        subst (λ u. IsReading e mine u × IsIntact u)
          (sym (callback-call_perl e cb false ready sub (ground (arith, has)))) popped
      where
        ready : World S
        ready =
            let s : World S = empty_session w in
            record s {
              read = record w.read { handler = dummy_handler };
              write = record w.write { handler = dummy_handler };
              callbacks = update w.callbacks cb (record (w.callbacks cb) {
                error = record (w.callbacks cb).error { pv = address };
              });
            }

        given : World S
        given = push_args cb sub ready

        offered : IsOffered given
        offered =
            unfold push_args in
            record {
              writer = record {
                initialized = v.writer.initialized;
                pool = v.writer.pool;
                session = v.writer.session;
                memory = v.writer.memory;
              };
              reader = v.reader;
            }

        new : IsNew given
        new =
            unfold push_args in
            record {
              no_input = h.no_input;
              no_output = h.no_output;
              sent = h.sent;
              received = h.received;
              consumed = h.consumed;
            }

        popped :
            IsReading e mine (call_perl e cb sub false ready)
            × IsIntact (call_perl e cb sub false ready)
        popped =
            let (r, same, reading, intact) = opened given offered new in
            unfold call_perl in
            after_pop cb (ready.callbacks cb).args_n (e.call_sv cb given) (
              subst (λ u. IsReading e mine u × IsIntact u) (sym (opens given r offered new same))
                (reading, intact))

module _ {S : Type 0} (e : Env S) (left pending : S → ℕ) (most : ℕ) (l : ReadLaws e)
    (f : Fills e left) (t : Ends e left most) (d : Drains e left pending most)
    (room : (s : S) → left (e.handle_write_event s).1 ≤ left s)
    (ok : (x : S) → (e.handle_read_event x).0 ≡ true) (mine : ℕ → Bool) (k : KeepEcho e mine)
    (i : KeepIntact e) (g : Globals) (o : Opening) (writer_mine : mine o.writer_callback ≡ true)
    (reader_mine : mine o.reader_callback ≡ true) where
  -- eg/echo-server.pl, from a connection that nginx has accepted, with a pool and a session for it,
  -- on which nothing was sent or received. The sub of the server calls ngxe_writer with an empty
  -- string and ngxe_reader, which get the memory that they ask for, and the event system accepts
  -- the read event; the subs of these two send back what was read (`KeepEcho`). Then all handlers
  -- return over any sequence of events, each of which leaves fuel enough, and at the end the
  -- connection is destroyed, or the reader or the writer is at work, and the bytes sent, those in
  -- the write buffer and those in the read buffer are, in this order, exactly those received.
  pub accepted_echoes :
      (limit fuel cb sub : ℕ) (address : String) (arrivals : List (Arrival S)) (w : World S)
      → Opens e g o l mine writer_mine reader_mine ok cb
      → (w.callbacks cb).handler ≡ some sub
      → g.initialized ≡ true
      → ((n : ℕ) → o.writer_supply.memory n ≡ true)
      → ((n : ℕ) → o.reader_supply.memory n ≡ true)
      → w.has_pool ≡ true
      → w.sent ≡ []
      → w.received ≡ []
      → w.consumed ≡ []
      → IsFuelled left pending most limit fuel arrivals
      → (w' : World S) × (serve e limit fuel arrivals (server_init_connection e true cb address w)
          ≡ some w')
        × Works e mine w'
        × Alive w'
  accepted_echoes limit fuel cb sub address arrivals w opens has init writes reads pool s r c b =
      let (reading, intact) =
        accepted e g o l mine writer_mine reader_mine ok cb sub address w opens has
          (record {
            writer = record { initialized = init; pool = pool; session = refl; memory = writes };
            reader = reads;
          })
          (record { no_input = refl; no_output = refl; sent = s; received = r; consumed = c }) in
      serve_echoes e left pending most l f t d room mine k i limit fuel arrivals
        (server_init_connection e true cb address w) b (inr (inl reading)) (inr intact)
