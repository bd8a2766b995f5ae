-- ===== src/Api/Ticking.antt =====
-- A timer from ngxe_interval_set or ngxe_timeout_set over its expirations.
mod Expiry
use nginx_engine.Base.{
  ℕ, zero, suc, ◌+◌, ℤ, true, false, none, some, [], ◌≡◌, arith, ◌∙◌, ap, sym, take,
}
use mathlib.Core.Path.{subst}
use nginx_engine.State.{World, Env, Callback, interval_handler, timeout_handler}
use nginx_engine.Callback.{dec_all, dec_handler}
use nginx_engine.Timer.{ring_interval, clear_timer}
use nginx_engine.Timer.Laws.{timeout_callback_final}
use nginx_engine.Api.{Globals, Supply, Reply, handed, returned, state_of, free_temps}
use nginx_engine.Api.Timers.{interval_set, timeout_set, timer_clear}
use nginx_engine.Api.Armed.{IsTimed, timer_set-IsTimed, clear_timer-IsCleared, timer_clear_lem}
use nginx_engine.Api.Ticking.Expiry.{
  IsQuiet, expire, calls, ring_interval-IsTick, expiration, expiration-interval, expiration-timeout,
  expired-IsOver, refs-callback_dec_kept,
}
pub use nginx_engine.Api.Ticking.Expiry.{calls, IsQuiet, expiration}

-- What the expiration of a timeout leaves of `v`: the counts that were there before it was set, no
-- timer and no pool, and one call of a sub.
abbrev pub Ended : {S : Type 0} → World S → World S → World S → Type 0
Ended before v w =
    (w.refs ≡ before.refs)
    × (w.read.timer ≡ none)
    × (w.pool_alive ≡ false)
    × (calls w.trace ≡ calls v.trace + 1)

module _ {S : Type 0} (e : Env S) where
  -- So many expirations of the timer of a connection, each with the handler that is set then.
  pub ticks : ℕ → World S → World S
  unfolding expiration
  ticks zero w = w
  ticks (suc n) w = ticks n (expiration e w)

module _ {S : Type 0} (e : Env S) (cb : ℕ) where
  abbrev given_back_by : Callback → (ℕ → ℕ) → ℕ → ℕ
  given_back_by c refs = dec_all (take c.args_n c.args) (dec_handler c.handler refs)

  module _ (g : Globals) (extra : ℕ) (s : Supply) (q : IsQuiet e cb) (msec : ℤ) (w : World S) where
    abbrev Set : World S → Type 0
    Set v = IsTimed e g cb extra s interval_handler msec w v

    rings : (v : World S) → Set v → Set (ring_interval e msec cb (expire v))
    rings v h =
        let t = ring_interval-IsTick e cb q h.has_sub.0 msec v h.has_sub.1 in
        let kept : ((ring_interval e msec cb (expire v)).callbacks cb).decremented ≡ false =
          ap (λ c. c.decremented) t.itself ∙ h.kept in
        record {
          handler_set = t.handler_kept ∙ h.handler_set;
          msec_set = t.msec_kept ∙ h.msec_set;
          callback_set = t.callback_kept ∙ h.callback_set;
          timer = t.timer;
          has_sub = (h.has_sub.0, ap (λ c. c.handler) t.itself ∙ h.has_sub.1);
          kept = kept;
          registered = t.cleanups ∙ h.registered;
          given_back =
              refs-callback_dec_kept e cb (ring_interval e msec cb (expire v)) kept
              ∙ ap (λ c. given_back_by c (ring_interval e msec cb (expire v)).refs) t.itself
              ∙ ap (given_back_by (v.callbacks cb)) t.refs
              ∙ sym (refs-callback_dec_kept e cb v h.kept)
              ∙ h.given_back;
        }

    tick-IsTimed :
        (v : World S)
        → Set v
        → Set (expiration e v) × (calls (expiration e v).trace ≡ calls v.trace + 1)
    tick-IsTimed v h =
        subst (λ u. Set u × (calls u.trace ≡ calls v.trace + 1))
          (sym (expiration-interval e cb msec v h.handler_set h.msec_set h.callback_set))
          (rings v h, (ring_interval-IsTick e cb q h.has_sub.0 msec v h.has_sub.1).called_once)

    ticks-IsTimed :
        (n : ℕ) (v : World S)
        → Set v
        → Set (ticks e n v) × (calls (ticks e n v).trace ≡ calls v.trace + n)
    unfolding ticks
    ticks-IsTimed zero v h = (h, omega arith)
    ticks-IsTimed (suc n) v h =
        let t = tick-IsTimed v h in
        let r = ticks-IsTimed n (expiration e v) t.0 in (r.0, omega (arith, r.1, t.1))

    -- An interval that ngxe_interval_set sets, with a connection and the memory that it asks for and no
    -- temporary scalars before it, and whose Perl sub leaves counts, its callback, its timer
    -- and the cleanups alone and calls no other: after its statement and any number of expirations, each
    -- with the handler that is set then, its sub was called so often, and its timer is set
    -- again, to the same time; when it is cleared then, all reference counts are those
    -- from before ngxe_interval_set, no timer is left and the pool is freed.
    pub interval_goes_on :
        (n : ℕ)
        → g.initialized ≡ true
        → ((i : ℕ) → s.memory i ≡ true)
        → w.mortals ≡ []
        → (r t : Reply S) × (interval_set g true msec extra cb s w ≡ some r)
          × ((ticks e n (free_temps (state_of r))).read.timer ≡ some msec)
          × (calls (ticks e n (free_temps (state_of r))).trace
              ≡ calls (free_temps (state_of r)).trace + n)
          × (timer_clear g e (ticks e n (free_temps (state_of r))) ≡ some t)
          × ((state_of t).refs ≡ w.refs)
          × ((state_of t).read.timer ≡ none)
          × ((state_of t).pool_alive ≡ false)
    unfolding interval_set
    interval_goes_on n i memory m =
        let (v, same, timer, set) =
          timer_set-IsTimed e g cb extra s interval_handler msec w i memory m in
        let (ticked, counted) = ticks-IsTimed n (free_temps v) set in
        let u : World S = ticks e n (free_temps v) in
        let cleared = clear_timer-IsCleared e g cb extra s u ticked.registered in
        (
          handed v,
          returned (clear_timer e cb u),
          same,
          ticked.timer,
          counted,
          timer_clear_lem e g cb extra s u i ticked.callback_set,
          cleared.refs ∙ ticked.given_back,
          cleared.timer,
          cleared.pool,
        )

    -- A timeout that ngxe_timeout_set sets under the same conditions: after its statement and its
    -- expiration, with the handler that is set then, its sub was called once, all reference counts are those from before, no timer is left
    -- and the pool is freed.
    pub timeout_ends :
        g.initialized ≡ true
        → ((i : ℕ) → s.memory i ≡ true)
        → w.mortals ≡ []
        → (r : Reply S) × (timeout_set g true msec extra cb s w ≡ some r)
          × ((state_of r).read.timer ≡ some msec)
          × Ended w (free_temps (state_of r)) (expiration e (free_temps (state_of r)))
    unfolding timeout_set
    timeout_ends i memory m =
        let (v, same, timer, set) =
          timer_set-IsTimed e g cb extra s timeout_handler msec w i memory m in
        let (sub, h) = set.has_sub in
        let f =
          timeout_callback_final e cb (expire (free_temps v)) sub h set.kept q.neutral q.cleanups
            set.registered in
        let ended = expired-IsOver e cb q sub (free_temps v) h set.registered in
        (
          handed v,
          same,
          timer,
          subst (λ u. Ended w (free_temps v) u)
              (sym (expiration-timeout e cb msec (free_temps v) set.handler_set set.callback_set))
              (
                f.0
                    ∙ ap
                        (λ x.
                          dec_all
                            (take ((free_temps v).callbacks cb).args_n
                              ((free_temps v).callbacks cb).args)
                            (dec_handler x (free_temps v).refs))
                        (sym h)
                    ∙ sym (refs-callback_dec_kept e cb (free_temps v) set.kept)
                    ∙ set.given_back,
                ended.0,
                f.1,
                ended.1,
              ),
        )
