-- ===== src/Tests/Calls.antt =====
-- The functions of Engine.xs, and the life of a connection.
use nginx_engine.Base.{
  ℕ, zero, suc, ◌+◌, ◌≤◌, ◌<◌, pos, true, false, not, Option, some, none, List, [], ◌∷◌, ◌≡◌, refl,
  arith,
}
use nginx_engine.State.{World, connection, string, interval_handler, reader_handler}
use nginx_engine.Connection.{close}
use nginx_engine.Connection.Close.{IsCoherent, releases}
use nginx_engine.Callback.{callback}
use nginx_engine.Reader.{recv_block, callback_block}
use nginx_engine.Client.{read_side}
use nginx_engine.Api.{Globals, Supply, Reply, returned, state_of, free_temps}
use nginx_engine.Api.Reader
use nginx_engine.Api.Writer
use nginx_engine.Api.Calls.{
  perform, closes, stops_reader, starts_writer, stops_reader_starts_writer, stops_writer,
  starts_reader, stops_writer_starts_reader,
}
use nginx_engine.Api.Timers.{timer_set, timer_clear}
use nginx_engine.Api.Clients.{Dial, rc_busy, client}
use nginx_engine.Api.Coherence.{perform-IsCoherent}
use nginx_engine.Api.Balance.{IsServed, refs-close-reader, refs-close-writer}
use nginx_engine.Api.Ready.{IsReady, reader-IsReady}
use nginx_engine.Api.Armed.{timer_clear-timer_set}
use nginx_engine.Api.Told.{IsQuiet}
use nginx_engine.Api.Failing.{IsLeft, client_fails}
use nginx_engine.Api.Pairs.{perform_pairs}
use nginx_engine.Api.Process.{Process, go_on, rounds}
use nginx_engine.Api.Loop.{begins_at, is_last, rounds_end}
use nginx_engine.Life.{Life, deliver, born, lives, call, event, statement, released_once}
use nginx_engine.Tests.{reading, end_of, some-end_of}
use nginx_engine.Tests.Readers.{system, system-ReadLaws, system-KeepCoherent}

-- After ngxe_init.
abbrev pub globals : Globals
globals = record {
  initialized = true;
  initialized_signals = false;
  reader_buffer_size = pos 4080;
  connection_bufsize = pos 4080;
  svlen = pos 4080;
}

abbrev pub supply : Supply
supply = record { memory = λ i. true; fresh = λ i. 100 + i }

-- A connection that was accepted: a session with nothing in it.
abbrev pub accepted_one : World ℕ
accepted_one =
    let w = reading 2 in
    record w { has_reader_buffer = false; has_writer_buffer = false; cleanups = [] }

pub served : IsServed globals supply accepted_one
served = record { initialized = refl; pool = refl; session = refl; memory = λ i. refl }

abbrev args_of : Option (Reply ℕ) → List ℕ
args_of none = []
args_of (some r) = ((state_of r).callbacks 7).args

-- Seven arguments, of which the two last ones are those of the Perl program.
args_test :
    args_of (Reader.reader system globals connection (pos 1) (pos 15) 2 7 supply accepted_one)
    ≡ 101 ∷ 102 ∷ 103 ∷ 104 ∷ 105 ∷ 106 ∷ 107 ∷ []
unfolding Reader.reader
args_test = refl

refs-close-reader_example :
    (r : Reply ℕ) × (Reader.reader system globals connection
        (pos 1)
        (pos 15)
        2
        7
        supply
        accepted_one
      ≡ some r)
    × ((close system connection (free_temps (state_of r))).refs
        ≡ (close system connection accepted_one).refs)
refs-close-reader_example =
    refs-close-reader system globals 7 supply (pos 1) (pos 15) 2 accepted_one served (λ x. refl)
      refl refl refl

refs-close-writer_example :
    (r : Reply ℕ) × (Writer.writer system globals 9 connection
        (pos 0)
        (pos 15)
        true
        (string (65 ∷ []))
        1
        7
        supply
        accepted_one
      ≡ some r)
    × ((close system connection (free_temps (state_of r))).refs
        ≡ (close system connection accepted_one).refs)
refs-close-writer_example =
    refs-close-writer system globals 7 supply 9 (pos 0) (pos 15) true (65 ∷ []) 1 accepted_one
      served refl refl refl refl refl

reader-IsReady_example :
    (r : Reply ℕ) × (Reader.reader system globals connection
        (pos 1)
        (pos 15)
        2
        7
        supply
        accepted_one
      ≡ some r)
    × IsReady (state_of r)
    × ((state_of r).reader_callback ≡ some 7)
    × ((state_of r).reader_timeout ≡ pos 15)
    × ((state_of r).writer_buffer ≡ string [])
    × ((state_of r).read.handler ≡ reader_handler)
reader-IsReady_example =
    reader-IsReady system system-ReadLaws globals 7 supply (pos 1) (pos 15) 2 accepted_one served
      (λ x. refl) (record { buffer = λ h. absurd cc; no_buffer = λ h. refl })

timer_clear-timer_set_example :
    (r t : Reply ℕ) × (timer_set globals interval_handler true (pos 500) 1 7 supply accepted_one
      ≡ some r)
    × ((state_of r).read.timer ≡ some (pos 500))
    × (timer_clear globals system (free_temps (state_of r)) ≡ some t)
    × ((state_of t).refs ≡ accepted_one.refs)
    × ((state_of t).read.timer ≡ none)
    × ((state_of t).pool_alive ≡ false)
timer_clear-timer_set_example =
    timer_clear-timer_set system globals 7 1 supply interval_handler (pos 500) accepted_one refl
      (λ i. refl) refl

perform-IsCoherent_example : IsCoherent (close system connection (reading 2))
perform-IsCoherent_example =
    perform-IsCoherent system system-KeepCoherent globals 9 closes connection (reading 2)
      (returned (close system connection (reading 2))) (record { pool = refl; once = refl })
      (unfold perform in refl)

-- Every address can be parsed, and no connection is made.
abbrev dial : Dial ℕ
dial = record { inet_addr = λ a. some 7; connect_peer = λ p s. (rc_busy, false, s) }

system-IsQuiet : IsQuiet system 7
system-IsQuiet = record {
  neutral = record { counts = λ w. refl; itself = λ w. refl };
  temps = λ w. refl;
  pool = λ w. refl;
  unclosed = λ w. refl;
}

abbrev unconnected : World ℕ
unconnected = record accepted_one { pool_alive = false; has_pool = false }

abbrev dialled : Option (Reply ℕ)
dialled = client system 7 (pos 30) dial supply globals [] (49 ∷ []) 80 1 unconnected

abbrev state_after : Option (Reply ℕ) → World ℕ
state_after none = unconnected
state_after (some r) = state_of r

client_fails_example :
    IsLeft true (supply.fresh 4) unconnected.refs (free_temps (state_after dialled)).refs
    × ((state_after dialled).pool_alive ≡ false)
client_fails_example =
    client_fails system 7 (pos 30) dial supply system-IsQuiet unconnected refl refl refl globals []
      (49 ∷ []) 80 1 (state_after dialled) (unfold client in refl)

perform_pairs_example :
    (v u : World ℕ) × (perform system globals 9 stops_reader connection (reading 2)
      ≡ some (returned v))
    × (perform system globals 9 stops_reader_starts_writer connection (reading 2)
        ≡ perform system globals 9 (starts_writer []) connection v)
    × (perform system globals 9 stops_writer connection (reading 2) ≡ some (returned u))
    × (perform system globals 9 stops_writer_starts_reader connection (reading 2)
        ≡ perform system globals 9 (starts_reader []) connection u)
perform_pairs_example = perform_pairs system globals 9 (reading 2) refl refl refl refl

-- The number of rounds before a signal.
abbrev process : ℕ → Process ℕ
process n = record {
  terminate = false;
  quit = false;
  reconfigure = true;
  reopen = true;
  outside = n;
}

abbrev count_down : Process ℕ → Process ℕ
count_down p = elim p.outside [ zero ↦ record p { quit = true } | suc n ↦ record p { outside = n } ]

going_on : (i : ℕ) → i < 2 → is_last count_down (λ s. s) i (process 2) ≡ false
unfolding go_on
going_on zero h = refl
going_on (suc zero) h = refl
going_on (suc (suc i)) h = absurd (omega (arith, h))

rounds_end_example :
    rounds count_down (λ s. s) 9 (process 2)
    ≡ some (count_down (begins_at count_down (λ s. s) 2 (process 2)))
rounds_end_example = rounds_end count_down (λ s. s) 2 6 (process 2) going_on (unfold rounds in refl)

-- The reader's event, ngxe_close by the Perl program, and ngxe_close once more.
abbrev read_once : World ℕ
read_once = end_of (deliver system 9 9 read_side reader_handler (reading 2))

abbrev closed_once : World ℕ
closed_once = close system connection read_once

lived : Life system globals (reading 2) (free_temps (close system connection closed_once))
unfolding deliver recv_block callback_block callback
lived =
    lives _ _
      (lives _ _
        (lives _ _
          (lives _ _ born (
            event 9 9 read_side (reading 2).read 2 (reading 2) read_once
              (some-end_of (deliver system 9 9 read_side reader_handler (reading 2)) refl)))
          (call 9 closes connection read_once (returned closed_once) (unfold perform in refl)))
        (call 9 closes connection closed_once (returned (close system connection closed_once))
          (unfold perform in refl)))
      (statement (close system connection closed_once))

released_once_example :
    let w = free_temps (close system connection closed_once) in
    (releases w.trace ≤ 1)
    × ((w.pool_alive ≡ true) → releases w.trace ≡ 0)
    × (w.pool_alive ≡ not w.destroyed)
released_once_example =
    released_once system system-KeepCoherent globals (reading 2)
      (free_temps (close system connection closed_once)) lived (record { pool = refl; once = refl })
