-- ===== src/Api/Timers.antt =====
-- ngxe_interval_set, ngxe_timeout_set and the clearing functions of Engine.xs. The state is that of the
-- connection which ngx_get_connection gives to the timer.
-- The fields that only nginx reads (`active`, `log`) and the values of the arguments are left out.
use nginx_engine.Base.{ℕ, ℤ, ◌+◌, Bool, true, false, Option, some, [], if◌then◌else◌}
use nginx_engine.State.{World, Env, Handler, interval_handler, timeout_handler}
use nginx_engine.Callback.{update}
use nginx_engine.Timer.{clear_timer}
use nginx_engine.Api.{
  Globals, Reply, undefined, returned, handed, Supply, abort, mint, if_initialized,
}
use nginx_engine.Api.Creation.{blank, change, new_arg, extra_args}

module _ {S : Type 0} (g : Globals) where
  -- The callback, its arguments and the timer. The first argument is the pointer to the timer.
  unfoldable pub arm : ℤ → ℕ → ℕ → Supply → World S → Reply S
  unfolding mint new_arg extra_args
  arm msec extra cb s w0 =
      let w = record w0 { timer_msec = msec; timer_callback = cb } in
      let w' =
        change cb (λ c. record c { handler = some (s.fresh 0); args_n = extra + 1 })
          (mint (s.fresh 0) (record w { callbacks = update w.callbacks cb blank })) in
      if s.memory 3
      then (let v = extra_args cb (λ i. s.fresh (i + 2)) extra (new_arg cb (s.fresh 1) w') in
          handed (record v { read = record v.read { timer = some msec } }))
      else abort w'

  -- The memory: a pool, which is used without a test for NULL, the timer and the callback.
  unfoldable pub with_pool : (World S → Reply S) → Supply → World S → Reply S
  with_pool next s w =
      if s.memory 0
      then (let w' = record w { has_pool = true; pool_alive = true; cleanups = [] } in
          if s.memory 1
          then (let v = record w' { has_session = true } in
              if s.memory 2 then next v else undefined v)
          else undefined w')
      else abort (record w { has_pool = false })

  -- `handler` is what the two functions differ in; `got` says whether there was a free connection.
  unfoldable pub timer_set : Handler → Bool → ℤ → ℕ → ℕ → Supply → World S → Option (Reply S)
  unfolding if_initialized with_pool arm
  timer_set handler got msec extra cb s = if_initialized g (λ w. some (
      if got
      then with_pool (arm msec extra cb s) s
          (record w { read = record w.read { handler = handler } })
      else undefined w))

  -- ngxe_interval_set. `extra` is the number of arguments that Perl code has passed behind the sub.
  unfoldable pub interval_set : Bool → ℤ → ℕ → ℕ → Supply → World S → Option (Reply S)
  unfolding timer_set
  interval_set = timer_set interval_handler

  -- ngxe_timeout_set
  unfoldable pub timeout_set : Bool → ℤ → ℕ → ℕ → Supply → World S → Option (Reply S)
  unfolding timer_set
  timeout_set = timer_set timeout_handler

  -- ngxe_interval_clear and ngxe_timeout_clear, of the timer that the pointer leads to.
  unfoldable pub timer_clear : Env S → World S → Option (Reply S)
  unfolding if_initialized clear_timer
  timer_clear e = if_initialized g (λ w. some (returned (clear_timer e w.timer_callback w)))
