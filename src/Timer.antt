-- ===== src/Timer.antt =====
-- ngxe_timer.c, and the clearing of timers of Engine.xs. A timer is a connection of its own, whose
-- read event carries the timer and whose pool holds one callback; its callback is not registered
-- with the pool's cleanups.
pub mod Laws
use nginx_engine.Base.{ℕ, ℤ, true, false, some}
use nginx_engine.State.{World, Env}
use nginx_engine.Callback.{callback, callback_dec}
use nginx_engine.Connection.{del_timer, destroy_pool}

module _ {S : Type 0} (e : Env S) where
  -- ngx_destroy_pool(c->pool); ngx_free_connection(c);
  unfoldable pub free_timer : World S → World S
  free_timer w = let w' = destroy_pool w in record w' { outside = e.free_connection w'.outside }

  -- ngxe_interval_callback, with the fields that it reads of its ngxe_interval_t
  unfoldable pub ring_interval : ℤ → ℕ → World S → World S
  ring_interval msec cb w =
      callback e cb false (record w { read = record w.read { timer = some msec } })

  -- ngxe_interval_callback, the handler
  unfoldable pub interval_callback : World S → World S
  unfolding ring_interval
  interval_callback w = ring_interval w.timer_msec w.timer_callback w

  -- ngxe_timeout_callback, with the callback of its ngxe_interval_t
  unfoldable pub ring_timeout : ℕ → World S → World S
  unfolding free_timer
  ring_timeout cb w = free_timer (callback e cb true w)

  -- ngxe_timeout_callback, the handler
  unfoldable pub timeout_callback : World S → World S
  unfolding ring_timeout
  timeout_callback w = ring_timeout w.timer_callback w

  -- ngxe_interval_clear and ngxe_timeout_clear, after the check that the library is initialised
  unfoldable pub clear_timer : ℕ → World S → World S
  unfolding free_timer
  clear_timer cb w =
      let w' = callback_dec cb w in free_timer (record w' { read = del_timer w'.read })
