-- ===== src/Api/Ticking/Expiry.antt =====
-- One expiration of a timer: what it leaves as it was, and what it does.
use nginx_engine.Base.{
  ℕ, ◌+◌, ℤ, true, false, none, some, [], List, ◌∷◌, ◌≡◌, refl, ◌∙◌, ap, if_false, if_rule, take,
}
use nginx_engine.State.{
  World, Env, Action, called, closed, logged, crashed, warned, interval_handler, timeout_handler,
}
use nginx_engine.Callback.{
  callback, call_perl, callback_dec, dec_all, dec_handler, push_args, pop_args,
}
use nginx_engine.Callback.Balance.{IsNeutral, callback-call_perl, callback_balanced}
use nginx_engine.Connection.{destroy_pool, run_cleanups}
use nginx_engine.Timer.{interval_callback, timeout_callback, ring_interval, ring_timeout}
use nginx_engine.Timer.Laws.{cleanups-callback}

-- how often a Perl sub was called
abbrev pub calls : List Action → ℕ
calls [] = 0
calls (called cb err ∷ l) = calls l + 1
calls (closed ∷ l) = calls l
calls (logged line ∷ l) = calls l
calls (crashed ∷ l) = calls l
calls (warned line ∷ l) = calls l

-- A Perl sub that leaves the counts, its own callback, the cleanups of the pool and the event of
-- its timer as they are, and calls no other.
pub record IsQuiet {S : Type 0} (e : Env S) (cb : ℕ) : Type 0 where
  pub neutral : IsNeutral e cb
  pub cleanups : (w : World S) → (e.call_sv cb w).cleanups ≡ w.cleanups
  pub event : (w : World S) → (e.call_sv cb w).read ≡ w.read
  pub msec : (w : World S) → (e.call_sv cb w).timer_msec ≡ w.timer_msec
  pub callback_kept : (w : World S) → (e.call_sv cb w).timer_callback ≡ w.timer_callback
  pub calls_none : (w : World S) → calls (e.call_sv cb w).trace ≡ calls w.trace

-- ngx_event_expire_timers, without threads: the timer is taken out.
abbrev pub expire : {S : Type 0} → World S → World S
expire w = record w { read = record w.read { timer = none; timedout = true } }

-- ngx_event_expire_timers: then it calls `ev->handler(ev)`. A handler that is not that of a timer is
-- not set on the connection of one.
unfoldable pub expiration : {S : Type 0} → Env S → World S → World S
unfolding interval_callback timeout_callback
expiration e w = elim w.read.handler [
  | interval_handler ↦ interval_callback e (expire w)
  | timeout_handler ↦ timeout_callback e (expire w)
  | _ ↦ expire w
]

module _ {S : Type 0} (e : Env S) (cb : ℕ) where
  module _ (q : IsQuiet e cb) (sub : ℕ) (msec : ℤ) where
    abbrev armed : World S → World S
    armed w = record (expire w) { read = record (expire w).read { timer = some msec } }

    -- What an expiration leaves as it was, and what it does.
    pub record IsTick (v w : World S) : Type 0 where
      pub itself : w.callbacks cb ≡ v.callbacks cb
      pub refs : w.refs ≡ v.refs
      pub cleanups : w.cleanups ≡ v.cleanups
      pub timer : w.read.timer ≡ some msec
      pub handler_kept : w.read.handler ≡ v.read.handler
      pub msec_kept : w.timer_msec ≡ v.timer_msec
      pub callback_kept : w.timer_callback ≡ v.timer_callback
      pub called_once : calls w.trace ≡ calls v.trace + 1

    pub ring_interval-IsTick :
        (w : World S)
        → (w.callbacks cb).handler ≡ some sub
        → IsTick w (ring_interval e msec cb (expire w))
    unfolding ring_interval call_perl push_args pop_args
    ring_interval-IsTick w h =
        let p : World S = push_args cb sub (armed w) in
        let c : callback e cb false (armed w) ≡ call_perl e cb sub false (armed w) =
          callback-call_perl e cb false (armed w) sub h in
        record {
          itself = ap (λ v. v.callbacks cb) c ∙ q.neutral.itself p;
          refs = callback_balanced e cb (armed w) sub h q.neutral;
          cleanups = ap (λ v. v.cleanups) c ∙ q.cleanups p;
          timer = ap (λ v. v.read.timer) c ∙ ap (λ r. r.timer) (q.event p);
          handler_kept = ap (λ v. v.read.handler) c ∙ ap (λ r. r.handler) (q.event p);
          msec_kept = ap (λ v. v.timer_msec) c ∙ q.msec p;
          callback_kept = ap (λ v. v.timer_callback) c ∙ q.callback_kept p;
          called_once = ap (λ v. calls v.trace) c ∙ q.calls_none p;
        }

  read-callback_dec :
      (w : World S)
      → ((callback_dec cb w).read.timer ≡ w.read.timer)
        × (calls (callback_dec cb w).trace ≡ calls w.trace)
  unfolding callback_dec
  read-callback_dec w =
      if_rule (λ (v : World S). (v.read.timer ≡ w.read.timer) × (calls v.trace ≡ calls w.trace))
        (w.callbacks cb).decremented (refl, refl) (refl, refl)

  -- The only expiration of a timeout.
  pub expired-IsOver :
      (q : IsQuiet e cb) (sub : ℕ) (w : World S)
      → (w.callbacks cb).handler ≡ some sub
      → w.cleanups ≡ []
      → ((ring_timeout e cb (expire w)).read.timer ≡ none)
        × (calls (ring_timeout e cb (expire w)).trace ≡ calls w.trace + 1)
  unfolding ring_timeout destroy_pool run_cleanups call_perl push_args pop_args
  expired-IsOver q sub w h n =
      let p : World S = push_args cb sub (expire w) in
      let c : callback e cb true (expire w) ≡ call_perl e cb sub true (expire w) =
        callback-call_perl e cb true (expire w) sub h in
      rw (cleanups-callback e cb (expire w) sub h q.cleanups ∙ n) (
        ap (λ v. v.read.timer) c
            ∙ (read-callback_dec (call_perl e cb sub false (expire w))).0
            ∙ ap (λ r. r.timer) (q.event p),
        ap (λ v. calls v.trace) c
            ∙ (read-callback_dec (call_perl e cb sub false (expire w))).1
            ∙ q.calls_none p,
      )

  -- What a callback that is kept gives back.
  pub refs-callback_dec_kept :
      (w : World S)
      → (w.callbacks cb).decremented ≡ false
      → (callback_dec cb w).refs
        ≡ dec_all
            (take (w.callbacks cb).args_n (w.callbacks cb).args)
            (dec_handler (w.callbacks cb).handler w.refs)
  unfolding callback_dec
  refs-callback_dec_kept w h =
      ap (λ (v : World S). v.refs) (if_false (w.callbacks cb).decremented _ _ h)

-- What the handlers read of a timer that is set.
module _ {S : Type 0} (e : Env S) (cb : ℕ) (msec : ℤ) (w : World S) where
  pub expiration-interval :
      w.read.handler ≡ interval_handler
      → w.timer_msec ≡ msec
      → w.timer_callback ≡ cb
      → expiration e w ≡ ring_interval e msec cb (expire w)
  unfolding expiration interval_callback
  expiration-interval h m c = rw (h, m, c) refl

  pub expiration-timeout :
      w.read.handler ≡ timeout_handler
      → w.timer_callback ≡ cb
      → expiration e w ≡ ring_timeout e cb (expire w)
  unfolding expiration timeout_callback
  expiration-timeout h c = rw (h, c) refl
