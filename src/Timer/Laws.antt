-- ===== src/Timer/Laws.antt =====
-- ngxe_timer.c: an interval goes on until it is cleared, also by its own sub; a timeout ends with its
-- one call.
use nginx_engine.Base.{ℕ, ℤ, true, false, some, [], ◌≡◌, refl, arith, take, ◌∙◌}
use nginx_engine.State.{World, Env}
use nginx_engine.Callback.{callback, call_perl, push_args, dec, dec_all}
use nginx_engine.Callback.Balance.{callback-call_perl, IsNeutral, callback_final}
use nginx_engine.Connection.{destroy_pool, run_cleanups}
use nginx_engine.Timer.{ring_interval, ring_timeout}

module _ {S : Type 0} (e : Env S) (cb : ℕ) where
  -- An interval that has a Perl sub sets its timer again before the sub is called: at the end the
  -- read event is what the sub, given the event with the new timer, has made of it. So a sub that
  -- leaves its timer alone is called again, and one that deletes it is not.
  pub interval_callback_timer :
      (msec : ℤ) (w : World S) (sub : ℕ)
      → (w.callbacks cb).handler ≡ some sub
      → let armed = record w { read = record w.read { timer = some msec } } in
        (armed.read.timer ≡ some msec)
        × ((ring_interval e msec cb w).read ≡ (e.call_sv cb (push_args cb sub armed)).read)
  unfolding ring_interval call_perl
  interval_callback_timer msec w sub h = (
    refl,
    rw
        (callback-call_perl e cb false (record w { read = record w.read { timer = some msec } }) sub
          h)
        refl,
  )

  pub cleanups-callback :
      (w : World S) (sub : ℕ)
      → (w.callbacks cb).handler ≡ some sub
      → ((v : World S) → (e.call_sv cb v).cleanups ≡ v.cleanups)
      → (callback e cb true w).cleanups ≡ w.cleanups
  unfolding call_perl
  cleanups-callback w sub h k =
      rw (callback-call_perl e cb true w sub h) (ground (arith, k (push_args cb sub w)))

  -- A timeout whose pool has no cleanup handlers, as `ngxe_timeout_set` makes it, whose
  -- references were not given back before, and whose Perl sub leaves the reference counts, its
  -- callback and the cleanups of the pool alone: at the end the references to the sub and to each
  -- argument were given back once, and the pool is freed.
  pub timeout_callback_final :
      (w : World S) (sub : ℕ)
      → (w.callbacks cb).handler ≡ some sub
      → (w.callbacks cb).decremented ≡ false
      → IsNeutral e cb
      → ((v : World S) → (e.call_sv cb v).cleanups ≡ v.cleanups)
      → w.cleanups ≡ []
      → let w' = ring_timeout e cb w in
        (w'.refs ≡ dec_all (take (w.callbacks cb).args_n (w.callbacks cb).args) (dec sub w.refs))
        × (w'.pool_alive ≡ false)
  unfolding ring_timeout destroy_pool run_cleanups
  timeout_callback_final w sub h d n k c =
      (rw (cleanups-callback w sub h k ∙ c) (callback_final e cb w sub h d n), refl)
