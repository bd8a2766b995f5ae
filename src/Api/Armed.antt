-- ===== src/Api/Armed.antt =====
-- A timer that is set and cleared again leaves nothing behind.
use nginx_engine.Base.{
  ℕ, ℤ, zero, suc, ◌+◌, true, false, none, some, [], ◌≡◌, refl, arith, Bool-cases, if_true, inl,
  inr, ◌∙◌, sym,
}
use mathlib.Core.Path.{subst}
use nginx_engine.State.{World, Env, Handler}
use nginx_engine.Callback.{callback_dec, update}
use nginx_engine.Connection.{destroy_pool, run_cleanups}
use nginx_engine.Timer.{clear_timer}
use nginx_engine.Api.{
  Globals, Supply, Reply, handed, returned, state_of, free_temps, if_initialized, mint,
}
use nginx_engine.Api.Creation.{blank, change, new_arg, extra_args}
use nginx_engine.Api.Books.{IsBooked, new_arg-IsBooked, extra_args-IsBooked}
use nginx_engine.Api.Refs.{refs-callback_dec}
use nginx_engine.Api.Timers.{timer_set, with_pool, arm, timer_clear}

-- The state of the connection that the timer gets.
abbrev obtained : {S : Type 0} → Handler → ℤ → ℕ → World S → World S
obtained handler msec cb w = record w {
  timer_msec = msec;
  timer_callback = cb;
  read = record w.read { handler = handler };
  has_pool = true;
  pool_alive = true;
  cleanups = [];
  has_session = true;
}

-- The empty callback, with a copy of the sub.
abbrev sub_callback : {S : Type 0} → ℕ → ℕ → Supply → World S → World S
sub_callback cb extra s w =
    change cb (λ c. record c { handler = some (s.fresh 0); args_n = extra + 1 })
      (mint (s.fresh 0) (record w { callbacks = update w.callbacks cb blank }))

module _ {S : Type 0} (e : Env S) (g : Globals) (cb extra : ℕ) (s : Supply) where
  abbrev with_arguments : World S → World S
  with_arguments w =
      extra_args cb (λ i. s.fresh (i + 2)) extra
        (new_arg cb (s.fresh 1) (sub_callback cb extra s w))

  sub_callback-IsBooked :
      (w : World S)
      → w.mortals ≡ []
      → IsBooked cb (extra + 1) w.cleanups w 0 (sub_callback cb extra s w)
  unfolding mint
  sub_callback-IsBooked w none_mortal = record {
    counts = λ b. rw none_mortal (ground arith);
    has_sub = (s.fresh 0, ground arith);
    filled = ground arith;
    number = ground arith;
    kept = ground arith;
    others = λ q d. ground arith;
    registered = refl;
    alive = refl;
  }

  with_arguments-IsBooked :
      (w : World S)
      → w.mortals ≡ []
      → IsBooked cb (extra + 1) w.cleanups w (extra + 1) (with_arguments w)
  with_arguments-IsBooked w m =
      subst (λ k. IsBooked cb (extra + 1) w.cleanups w k (with_arguments w)) (omega arith)
        (extra_args-IsBooked cb (extra + 1) w.cleanups w extra (λ i. s.fresh (i + 2)) 1 _
          (new_arg-IsBooked cb (extra + 1) w.cleanups w (s.fresh 1) 0 _
            (sub_callback-IsBooked w m)))

  -- What making the arguments leaves of the timer.
  record IsSameTimer (v w : World S) : Type 0 where
    handler_same : w.read.handler ≡ v.read.handler
    msec_same : w.timer_msec ≡ v.timer_msec
    callback_same : w.timer_callback ≡ v.timer_callback

  extra_args-IsSameTimer :
      (n : ℕ) (fresh : ℕ → ℕ) (w : World S) → IsSameTimer w (extra_args cb fresh n w)
  unfolding extra_args new_arg mint
  extra_args-IsSameTimer zero fresh w = record {
    handler_same = refl;
    msec_same = refl;
    callback_same = refl;
  }
  extra_args-IsSameTimer (suc n) fresh w =
      let h = extra_args-IsSameTimer n (λ i. fresh (i + 1)) (new_arg cb (fresh 0) w) in
      record {
        handler_same = h.handler_same;
        msec_same = h.msec_same;
        callback_same = h.callback_same;
      }

  -- Clearing a timer: its pool has no cleanup handlers.
  pub record IsCleared (v w : World S) : Type 0 where
    pub refs : w.refs ≡ (callback_dec cb v).refs
    pub timer : w.read.timer ≡ none
    pub pool : w.pool_alive ≡ false

  pub clear_timer-IsCleared : (v : World S) → v.cleanups ≡ [] → IsCleared v (clear_timer e cb v)
  unfolding clear_timer callback_dec destroy_pool run_cleanups
  clear_timer-IsCleared v c = elim (Bool-cases (v.callbacks cb).decremented) [
    | inl t ↦ rw (t, c) (record { refs = ground (arith, t); timer = refl; pool = refl })
    | inr f ↦ rw (f, c) (record { refs = ground (arith, f); timer = refl; pool = refl })
  ]

  pub timer_clear_lem :
      (v : World S)
      → g.initialized ≡ true
      → v.timer_callback ≡ cb
      → timer_clear g e v ≡ some (returned (clear_timer e cb v))
  unfolding timer_clear if_initialized
  timer_clear_lem v i c = rw (sym c) (if_true g.initialized _ _ i)

  -- What setting a timer leaves when the statement has ended: the timer, and a callback whose references
  -- are those that the counts have more than before.
  pub record IsTimed (handler : Handler) (msec : ℤ) (w v : World S) : Type 0 where
    pub handler_set : v.read.handler ≡ handler
    pub msec_set : v.timer_msec ≡ msec
    pub callback_set : v.timer_callback ≡ cb
    pub timer : v.read.timer ≡ some msec
    pub has_sub : (sub : ℕ) × ((v.callbacks cb).handler ≡ some sub)
    pub kept : (v.callbacks cb).decremented ≡ false
    pub registered : v.cleanups ≡ []
    pub given_back : (callback_dec cb v).refs ≡ w.refs

  pub timer_set-IsTimed :
      (handler : Handler) (msec : ℤ) (w : World S)
      → g.initialized ≡ true
      → ((i : ℕ) → s.memory i ≡ true)
      → w.mortals ≡ []
      → (v : World S) × (timer_set g handler true msec extra cb s w ≡ some (handed v))
        × (v.read.timer ≡ some msec)
        × IsTimed handler msec w (free_temps v)
  unfolding timer_set with_pool arm if_initialized free_temps new_arg mint
  timer_set-IsTimed handler msec w i memory m = (
    armed,
    rw (i, memory 0, memory 1, memory 2, memory 3) refl,
    refl,
    record {
      handler_set = extra_read.handler_same;
      msec_set = extra_read.msec_same;
      callback_set = extra_read.callback_same;
      timer = refl;
      has_sub = booked.has_sub;
      kept = booked.kept;
      registered = booked.registered;
      given_back =
          refs-callback_dec cb (extra + 1) [] (obtained handler msec cb w) filled (free_temps armed)
            booked refl refl;
    },
  )
    where
      filled : World S
      filled = with_arguments (obtained handler msec cb w)

      armed : World S
      armed = record filled { read = record filled.read { timer = some msec } }

      extra_read :
          IsSameTimer
            (new_arg cb (s.fresh 1) (sub_callback cb extra s (obtained handler msec cb w)))
            filled
      extra_read =
          extra_args-IsSameTimer extra (λ i. s.fresh (i + 2))
            (new_arg cb (s.fresh 1) (sub_callback cb extra s (obtained handler msec cb w)))

      booked : IsBooked cb (extra + 1) [] (obtained handler msec cb w) (extra + 1) filled
      booked = with_arguments-IsBooked (obtained handler msec cb w) m

  -- When ngxe_interval_set or ngxe_timeout_set (they differ in the handler) gets a connection and
  -- the memory that it asks for, and there are no temporary scalars before it: the timer is set,
  -- and when the statement has ended and the timer is cleared, all reference counts are those from
  -- before, no timer is left and the pool is freed.
  pub timer_clear-timer_set :
      (handler : Handler) (msec : ℤ) (w : World S)
      → g.initialized ≡ true
      → ((i : ℕ) → s.memory i ≡ true)
      → w.mortals ≡ []
      → (r t : Reply S) × (timer_set g handler true msec extra cb s w ≡ some r)
        × ((state_of r).read.timer ≡ some msec)
        × (timer_clear g e (free_temps (state_of r)) ≡ some t)
        × ((state_of t).refs ≡ w.refs)
        × ((state_of t).read.timer ≡ none)
        × ((state_of t).pool_alive ≡ false)
  timer_clear-timer_set handler msec w i memory m =
      let (v, same, timer, set) = timer_set-IsTimed handler msec w i memory m in
      let cleared = clear_timer-IsCleared (free_temps v) set.registered in
      (
        handed v,
        returned (clear_timer e cb (free_temps v)),
        same,
        timer,
        timer_clear_lem (free_temps v) i set.callback_set,
        cleared.refs ∙ set.given_back,
        cleared.timer,
        cleared.pool,
      )
