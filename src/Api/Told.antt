-- ===== src/Api/Told.antt =====
-- ngxe_client: whenever it fails, each reference that it took is given back.
use nginx_engine.Base.{
  ℕ, ◌+◌, String, true, false, some, List, [], ◌∷◌, ◌≡◌, refl, sym, arith, fun_ext,
}
use mathlib.Core.Path.{subst}
use nginx_engine.State.{World, Env, ErrorValue, connection}
use nginx_engine.Callback.{
  callback, call_perl, push_args, pop_args, callback_dec, callback_cleanup, dec_all, dec,
}
use nginx_engine.Callback.Counts.{count, dec_all-count}
use nginx_engine.Callback.Balance.{callback-call_perl, IsNeutral, callback_final}
use nginx_engine.Connection.{set_error, destroy_pool, run_cleanups, close, close_connection}
use nginx_engine.Api.{free_temps}
use nginx_engine.Api.Books.{IsBooked, count_sub}
use nginx_engine.Api.Refs.{take_all, dec_handler-count}
use nginx_engine.Api.Clients.{tell, dial_error}

-- A Perl sub that leaves the reference counts, its own callback, the temporary scalars, the pool and
-- the connection alone.
pub record IsQuiet {S : Type 0} (e : Env S) (cb : ℕ) : Type 0 where
  pub neutral : IsNeutral e cb
  pub temps : (w : World S) → (e.call_sv cb w).mortals ≡ w.mortals
  pub pool : (w : World S) → (e.call_sv cb w).cleanups ≡ w.cleanups
  pub unclosed : (w : World S) → (e.call_sv cb w).destroyed ≡ w.destroyed

-- What the last call of the callback leaves: only the temporary scalars still have references.
pub record IsTold {S : Type 0} (cb : ℕ) (w0 v : World S) : Type 0 where
  pub spent : dec_all v.mortals v.refs ≡ w0.refs
  pub done : (v.callbacks cb).decremented ≡ true
  pub registered : v.cleanups ≡ cb ∷ []
  pub alive : v.destroyed ≡ w0.destroyed

told_spent :
    (args mortals : List ℕ) (sub : ℕ) (refs refs0 : ℕ → ℕ) (a : ℕ)
    → refs a ≡ refs0 a + count a mortals + count a args + count_sub a (some sub)
    → dec_all mortals (dec_all args (dec sub refs)) a ≡ refs0 a
told_spent args mortals sub refs refs0 a h = ground (
  arith,
  dec_all-count mortals (dec_all args (dec sub refs)) a,
  dec_all-count args (dec sub refs) a,
  dec_handler-count (some sub) refs a,
  h,
)

module _ {S : Type 0} (e : Env S) (cb n : ℕ) (q : IsQuiet e cb) (w0 : World S) where
  set_error-IsBooked :
      (err : ErrorValue) (w : World S)
      → IsBooked cb n (cb ∷ []) w0 n w
      → IsBooked cb n (cb ∷ []) w0 n (set_error cb err w)
  unfolding set_error
  set_error-IsBooked err w h = record {
    counts = λ b. ground (arith, h.counts b);
    has_sub = (h.has_sub.0, ground (arith, h.has_sub.1));
    filled = ground (arith, h.filled);
    number = ground (arith, h.number);
    kept = ground (arith, h.kept);
    others = λ q d. ground (arith, h.others q d);
    registered = h.registered;
    alive = h.alive;
  }

  module _ (w : World S) (h : IsBooked cb n (cb ∷ []) w0 n w) where
    by_perl : callback e cb true w ≡ call_perl e cb h.has_sub.0 true w
    by_perl = callback-call_perl e cb true w h.has_sub.0 h.has_sub.1

    mortals-called : (callback e cb true w).mortals ≡ w.mortals
    unfolding call_perl callback_dec push_args pop_args
    mortals-called = rw by_perl (ground (arith, q.temps (push_args cb h.has_sub.0 w)))

    refs-called : dec_all (callback e cb true w).mortals (callback e cb true w).refs ≡ w0.refs
    refs-called = fun_ext λ a.
        rw
          (
            mortals-called,
            callback_final e cb w h.has_sub.0 h.has_sub.1 h.kept q.neutral,
            h.number,
            sym h.filled,
            take_all (w.callbacks cb).args,
          )
          (told_spent (w.callbacks cb).args w.mortals h.has_sub.0 w.refs w0.refs a (
            subst
              (λ o.
                w.refs a
                ≡ w0.refs a + count a w.mortals + count a (w.callbacks cb).args + count_sub a o)
              h.has_sub.1 (h.counts a)))

    called : IsTold cb w0 (callback e cb true w)
    unfolding call_perl callback_dec push_args pop_args
    called = record {
      spent = refs-called;
      done = rw by_perl (ground arith);
      registered = rw by_perl (ground (arith, q.pool (push_args cb h.has_sub.0 w), h.registered));
      alive = rw by_perl (ground (arith, q.unclosed (push_args cb h.has_sub.0 w), h.alive));
    }

  pub tell-IsTold :
      (line : String) (w : World S)
      → IsBooked cb n (cb ∷ []) w0 n w
      → IsTold cb w0 (tell e cb line w)
  unfolding tell
  tell-IsTold line w h = called (set_error cb (dial_error line) w) (set_error-IsBooked _ w h)

  pub destroy_pool-told :
      (v : World S) → IsTold cb w0 v → (free_temps (destroy_pool v)).refs ≡ w0.refs
  unfolding free_temps destroy_pool run_cleanups callback_cleanup
  destroy_pool-told v t = rw (t.registered, t.done) t.spent

  pub close-told :
      (v : World S)
      → w0.destroyed ≡ false
      → IsTold cb w0 v
      → ((free_temps (close e connection v)).refs ≡ w0.refs)
        × ((close e connection v).pool_alive ≡ false)
  unfolding free_temps close close_connection destroy_pool run_cleanups callback_cleanup
  close-told v d t = rw (t.alive, d, t.registered, t.done) (t.spent, refl)
