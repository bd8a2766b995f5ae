-- ===== src/Api/Debts/Kept.antt =====
-- A callback gives back as much as it takes, and the end of a connection what is left.
use nginx_engine.Base.{
  ℕ, ◌+◌, ◌-◌, true, false, some, List, ◌∷◌, take, arith, ◌≡◌, refl, sym, ap, ◌∙◌,
}
use nginx_engine.State.{World, Env, ErrorValue, connection}
use nginx_engine.Callback.{dec, call_perl, callback, pop_args, push_args, inc, inc_all, dec_all}
use nginx_engine.Callback.Rule.{callback_cases}
use nginx_engine.Callback.Counts.{count, inc_all-count, dec_all-count}
use nginx_engine.Connection.{close, fail, set_error}
use nginx_engine.Api.Debts.Owed.{owed}
use nginx_engine.Api.Debts.{IsTidy, Owes, refs-close, close-Owes, callback_dec-Owes, told-Owes}

-- Perl subs and native handlers that keep a tidy connection tidy, and the counts that closing it would
-- leave; they may close it themselves. A sub leaves its handler and its arguments alone.
pub record KeepDebts {S : Type 0} (e : Env S) : Type 0 where
  pub sub : (cb : ℕ) (w : World S) → IsTidy w → IsTidy (e.call_sv cb w)
  pub sub_refs :
      (cb : ℕ) (w : World S)
      → IsTidy w
      → (close e connection (e.call_sv cb w)).refs ≡ (close e connection w).refs
  pub handler :
      (cb : ℕ) (w : World S) → ((e.call_sv cb w).callbacks cb).handler ≡ (w.callbacks cb).handler
  pub args : (cb : ℕ) (w : World S) → ((e.call_sv cb w).callbacks cb).args ≡ (w.callbacks cb).args
  pub native : (f : ℕ) (w : World S) → IsTidy w → IsTidy (e.call_native f w)
  pub native_refs :
      (f : ℕ) (w : World S)
      → IsTidy w
      → (close e connection (e.call_native f w)).refs ≡ (close e connection w).refs

taken_refs :
    (xs : List ℕ) (sub : ℕ) (refs : ℕ → ℕ) (a : ℕ)
    → inc_all xs (inc sub refs) a ≡ refs a + count a (sub ∷ xs)
taken_refs xs sub refs a = ground (arith, inc_all-count xs (inc sub refs) a)

given_refs :
    (xs : List ℕ) (sub : ℕ) (refs : ℕ → ℕ) (a : ℕ)
    → dec sub (dec_all xs refs) a ≡ refs a - count a (sub ∷ xs)
given_refs xs sub refs a = ground (arith, dec_all-count xs refs a)

module _ {S : Type 0} (e : Env S) (k : KeepDebts e) (r0 : ℕ → ℕ) where
  -- The other way round.
  owes :
      (r1 : ℕ → ℕ) (v w : World S)
      → IsTidy w
      → (close e connection w).refs ≡ (close e connection v).refs
      → Owes r1 v
      → Owes r1 w
  owes r1 v w t r h = record {
    tidy = t;
    balance =
        λ a. sym (refs-close e w a t) ∙ ap (λ f. f a) r ∙ refs-close e v a h.tidy ∙ h.balance a;
  }

  native-Owes : (w : World S) → Owes r0 w → (f : ℕ) → Owes r0 (e.call_native f w)
  native-Owes w o f =
      owes r0 w (e.call_native f w) (k.native f w o.tidy) (k.native_refs f w o.tidy) o

  popped :
      (cb sub : ℕ) (n : ℕ) (args : List ℕ) (u : World S)
      → (u.callbacks cb).handler ≡ some sub
      → (u.callbacks cb).args ≡ args
      → (pop_args cb n u).refs ≡ dec sub (dec_all (take n args) u.refs)
  unfolding pop_args
  popped cb sub n args u h g = rw (h, g) refl

  called-Owes :
      (cb sub : ℕ) (w : World S)
      → (w.callbacks cb).handler ≡ some sub
      → Owes r0 w
      → Owes r0 (call_perl e cb sub false w)
  unfolding call_perl
  called-Owes cb sub w h o = record {
    tidy = unfold pop_args in left.tidy;
    balance = λ a.
        unfold pop_args in
        omega (
          arith,
          ap (λ f. f a) (popped cb sub n args u (k.handler cb p ∙ same) (k.args cb p ∙ same_args)),
          given_refs (take n args) sub u.refs a,
          pushed a,
          left.balance a,
          owing a,
          o.balance a,
        );
  }
    where
      n : ℕ
      n = (w.callbacks cb).args_n

      args : List ℕ
      args = (w.callbacks cb).args

      p : World S
      p = push_args cb sub w

      u : World S
      u = e.call_sv cb p

      same : (p.callbacks cb).handler ≡ some sub
      same = unfold push_args in h

      same_args : (p.callbacks cb).args ≡ args
      same_args = unfold push_args in refl

      pushed : (a : ℕ) → p.refs a ≡ w.refs a + count a (sub ∷ take n args)
      pushed a = unfold push_args in taken_refs (take n args) sub w.refs a

      owing : (a : ℕ) → owed p.cleanups p.callbacks a ≡ owed w.cleanups w.callbacks a
      owing a = unfold push_args in refl

      tidy : IsTidy p
      tidy = unfold push_args in o.tidy

      left : Owes (λ a. p.refs a - owed p.cleanups p.callbacks a) u
      left =
          owes (λ a. p.refs a - owed p.cleanups p.callbacks a) p u (k.sub cb p tidy)
            (k.sub_refs cb p tidy) (record { tidy = tidy; balance = λ a. refl })

  pub callback-Owes : (cb : ℕ) (w : World S) → Owes r0 w → Owes r0 (callback e cb false w)
  callback-Owes cb w o =
      callback_cases e (λ v. Owes r0 v) cb false w (λ sub h. called-Owes cb sub w h o)
        (native-Owes w o) o

  -- The last call gives the callback's references back.
  pub final-Owes : (cb : ℕ) (w : World S) → Owes r0 w → Owes r0 (callback e cb true w)
  unfolding call_perl
  final-Owes cb w o =
      callback_cases e (λ v. Owes r0 v) cb true w
        (λ sub h. callback_dec-Owes r0 cb (call_perl e cb sub false w) (called-Owes cb sub w h o))
        (native-Owes w o) o

  pub fail-Owes : (cb : ℕ) (err : ErrorValue) (w : World S) → Owes r0 w → Owes r0 (fail e cb err w)
  unfolding fail
  fail-Owes cb err w o =
      close-Owes r0 e _
        (final-Owes cb (set_error cb err w) (unfold set_error in told-Owes cb err w o))
