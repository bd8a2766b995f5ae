-- ===== src/Callback/Balance.antt =====
-- ngxe_xs.c: a callback gives back each reference that it holds, and each once.
use nginx_engine.Base.{ℕ, ◌+◌, Bool, true, false, some, if◌then◌else◌, take, arith, ◌≡◌, refl, ap}
use nginx_engine.State.{World, Env}
use nginx_engine.Callback.{
  dec, dec_all, callback_dec, callback_cleanup, push_args, callback, call_perl,
}
use nginx_engine.Callback.Counts.{dec-dec_all-inc_all}

module _ {S : Type 0} (e : Env S) (cb : ℕ) where
  -- With a Perl sub the native handler is not looked at.
  pub callback-call_perl :
      (d : Bool) (w : World S) (sub : ℕ)
      → (w.callbacks cb).handler ≡ some sub
      → callback e cb d w ≡ call_perl e cb sub d w
  unfolding callback
  callback-call_perl d w sub h = ground arith

  -- A Perl sub that leaves the reference counts and its own callback as it found them.
  pub record IsNeutral : Type 0 where
    pub counts : (w : World S) → (e.call_sv cb w).refs ≡ w.refs
    pub itself : (w : World S) → (e.call_sv cb w).callbacks cb ≡ w.callbacks cb

  -- A call that keeps the callback gives back all references that it took: every count is as
  -- before, if there is a Perl sub and it leaves the reference counts and its own callback as
  -- they are.
  pub callback_balanced :
      (w : World S) (sub : ℕ)
      → (w.callbacks cb).handler ≡ some sub
      → IsNeutral
      → (callback e cb false w).refs ≡ w.refs
  unfolding call_perl
  callback_balanced w sub h n =
      rw
        (
          callback-call_perl false w sub h,
          n.itself (push_args cb sub w),
          h,
          n.counts (push_args cb sub w),
        )
        (dec-dec_all-inc_all (take (w.callbacks cb).args_n (w.callbacks cb).args) sub w.refs)

  -- The last call, of a Perl sub that leaves the reference counts and its own callback as they
  -- are, and of a callback whose references were not given back before, gives back, besides what
  -- it took, the reference to the sub and one to each argument.
  pub callback_final :
      (w : World S) (sub : ℕ)
      → (w.callbacks cb).handler ≡ some sub
      → (w.callbacks cb).decremented ≡ false
      → IsNeutral
      → (callback e cb true w).refs
        ≡ dec_all (take (w.callbacks cb).args_n (w.callbacks cb).args) (dec sub w.refs)
  unfolding call_perl
  callback_final w sub h d n =
      rw
        (
          callback-call_perl true w sub h,
          n.itself (push_args cb sub w),
          h,
          d,
          n.counts (push_args cb sub w),
        )
        (ap (λ refs. dec_all (take (w.callbacks cb).args_n (w.callbacks cb).args) (dec sub refs))
          (dec-dec_all-inc_all (take (w.callbacks cb).args_n (w.callbacks cb).args) sub w.refs))

  -- Whatever the Perl sub does: after the last call nothing is given back once more, neither by
  -- another `ngxe_callback_dec` nor by the cleanup handler of the pool.
  pub callback_once :
      (w : World S) (sub : ℕ)
      → (w.callbacks cb).handler ≡ some sub
      → let w' = callback e cb true w in (callback_dec cb w' ≡ w') × (callback_cleanup cb w' ≡ w')
  unfolding call_perl callback_cleanup
  callback_once w sub h = rw (callback-call_perl true w sub h) (ground arith, ground arith)

  -- For Perl subs that do not themselves run into such a read: a callback is read after the pool
  -- that holds it was destroyed, exactly when the sub that was called has destroyed the pool, as
  -- a call of `ngxe_close` does.
  pub callback_stale :
      (w : World S) (sub : ℕ)
      → (w.callbacks cb).handler ≡ some sub
      → ((w : World S) → (e.call_sv cb w).stale_reads ≡ w.stale_reads)
      → (callback e cb false w).stale_reads ≡ (
          if (e.call_sv cb (push_args cb sub w)).pool_alive
          then w.stale_reads
          else w.stale_reads + 1)
  unfolding call_perl
  callback_stale w sub h k = rw (callback-call_perl false w sub h, k (push_args cb sub w)) refl
