-- ===== src/Tests/Ticks.antt =====
-- Timers over their expirations.
use nginx_engine.Base.{ℕ, ◌+◌, pos, true, false, none, some, ◌≡◌, refl}
use nginx_engine.Api.{Reply, state_of, free_temps}
use nginx_engine.Api.Timers.{interval_set, timeout_set, timer_clear}
use nginx_engine.Api.Ticking.{
  IsQuiet, calls, Ended, expiration, ticks, interval_goes_on, timeout_ends,
}
use nginx_engine.Tests.Readers.{system}
use nginx_engine.Tests.Calls.{globals, supply, accepted_one}

system-IsQuiet : IsQuiet system 7
system-IsQuiet = record {
  neutral = record { counts = λ w. refl; itself = λ w. refl };
  cleanups = λ w. refl;
  event = λ w. refl;
  msec = λ w. refl;
  callback_kept = λ w. refl;
  calls_none = λ w. refl;
}

interval_goes_on_example :
    (r t : Reply ℕ) × (interval_set globals true (pos 500) 1 7 supply accepted_one ≡ some r)
    × ((ticks system 3 (free_temps (state_of r))).read.timer ≡ some (pos 500))
    × (calls (ticks system 3 (free_temps (state_of r))).trace
        ≡ calls (free_temps (state_of r)).trace + 3)
    × (timer_clear globals system (ticks system 3 (free_temps (state_of r))) ≡ some t)
    × ((state_of t).refs ≡ accepted_one.refs)
    × ((state_of t).read.timer ≡ none)
    × ((state_of t).pool_alive ≡ false)
interval_goes_on_example =
    interval_goes_on system 7 globals 1 supply system-IsQuiet (pos 500) accepted_one 3 refl
      (λ i. refl) refl

timeout_ends_example :
    (r : Reply ℕ) × (timeout_set globals true (pos 500) 1 7 supply accepted_one ≡ some r)
    × ((state_of r).read.timer ≡ some (pos 500))
    × Ended accepted_one (free_temps (state_of r)) (expiration system (free_temps (state_of r)))
timeout_ends_example =
    timeout_ends system 7 globals 1 supply system-IsQuiet (pos 500) accepted_one refl (λ i. refl)
      refl
