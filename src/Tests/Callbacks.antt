-- ===== src/Tests/Callbacks.antt =====
-- Callbacks, timers, the release of a connection and its two init handlers.
use nginx_engine.Base.{ℕ, ◌≡◌, refl, true, false, [], ◌∷◌, some, inl, pos}
use nginx_engine.State.{World, Env, connection}
use nginx_engine.Callback.{callback, callback_dec, callback_cleanup, push_args, dec, dec_all}
use nginx_engine.Callback.Balance.{
  IsNeutral, callback_balanced, callback_final, callback_once, callback_stale,
}
use nginx_engine.Connection.{close, log}
use nginx_engine.Connection.Close.{
  IsCoherent, IsReleased, close-IsReleased, close-decremented, close-close,
}
use nginx_engine.Connection.Coherence.{KeepCoherent}
use nginx_engine.Timer.{ring_interval, ring_timeout}
use nginx_engine.Timer.Laws.{interval_callback_timer, timeout_callback_final}
use nginx_engine.Client.{read_side, client_init_event}
use nginx_engine.Client.Laws.{client_init_event_fails, client_init_event-IsCoherent}
use nginx_engine.Server.{server_init_connection}
use nginx_engine.Server.Laws.{server_init_connection-IsCoherent}
use nginx_engine.Tests.{env, take_all, reading}

abbrev system : Env ℕ
system = env take_all

-- A sub that closes its own connection: the pool is gone when it returns.
abbrev freeing : Env ℕ
freeing = env (λ w. record w { destroyed = true; pool_alive = false })

abbrev world : World ℕ
world = reading 2

system-IsNeutral : IsNeutral system 1
system-IsNeutral = record { counts = λ w. refl; itself = λ w. refl }

callback_balanced_example : (callback system 1 false world).refs ≡ world.refs
callback_balanced_example = callback_balanced system 1 world 5 refl system-IsNeutral

callback_final_example :
    (callback system 1 true world).refs ≡ dec_all (1 ∷ 2 ∷ 3 ∷ 4 ∷ 6 ∷ []) (dec 5 world.refs)
callback_final_example = callback_final system 1 world 5 refl refl system-IsNeutral

callback_once_example :
    let w = callback system 1 true world in (callback_dec 1 w ≡ w) × (callback_cleanup 1 w ≡ w)
callback_once_example = callback_once system 1 world 5 refl

callback_stale_example : (callback freeing 1 false world).stale_reads ≡ 1
callback_stale_example = callback_stale freeing 1 world 5 refl (λ w. refl)

close-IsReleased_example : IsReleased world (close system connection world)
close-IsReleased_example = close-IsReleased system world refl

close-decremented_example : ((close system connection world).callbacks 1).decremented ≡ true
close-decremented_example = close-decremented system world 1 refl refl

close-close_example :
    close system connection (close system connection world)
    ≡ log "ngxe_close() called on destroyed connection" (close system connection world)
close-close_example = close-close system world

abbrev armed : World ℕ
armed = record world { read = record world.read { timer = some (pos 100) } }

interval_timer_test :
    (armed.read.timer ≡ some (pos 100))
    × ((ring_interval system (pos 100) 1 world).read ≡ (take_all (push_args 1 5 armed)).read)
interval_timer_test = interval_callback_timer system 1 (pos 100) world 5 refl

abbrev timer : World ℕ
timer = record world { cleanups = [] }

timeout_callback_final_example :
    ((ring_timeout system 1 timer).refs ≡ dec_all (1 ∷ 2 ∷ 3 ∷ 4 ∷ 6 ∷ []) (dec 5 timer.refs))
    × ((ring_timeout system 1 timer).pool_alive ≡ false)
timeout_callback_final_example =
    timeout_callback_final system 1 timer 5 refl refl system-IsNeutral (λ w. refl) refl

system-KeepCoherent : KeepCoherent system
system-KeepCoherent = record {
  sub = λ k w h. record { pool = h.pool; once = h.once };
  native = λ f w h. h;
}

abbrev refused : World ℕ
refused = record world { read = record world.read { error = true } }

refused_test : (client_init_event system read_side connection refused).destroyed ≡ true
refused_test = client_init_event_fails system read_side refused 1 refl refl (inl refl)

connected_world-IsCoherent : IsCoherent (client_init_event system read_side connection refused)
connected_world-IsCoherent =
    client_init_event-IsCoherent system system-KeepCoherent read_side connection refused
      (record { pool = refl; once = refl })

server_init_connection-IsCoherent_example :
    IsCoherent (server_init_connection system true 1 "127.0.0.1" world)
server_init_connection-IsCoherent_example =
    server_init_connection-IsCoherent system system-KeepCoherent true 1 "127.0.0.1" world
      (record { pool = refl; once = refl })
