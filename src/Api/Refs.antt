-- ===== src/Api/Refs.antt =====
-- ngxe_reader and ngxe_close: each reference taken is given back.
use nginx_engine.Base.{
  ℕ, ◌+◌, ◌-◌, ◌==◌, true, false, Option, none, some, List, [], ◌∷◌, length, take, arith, ◌≡◌, refl,
  fun_ext,
}
use nginx_engine.State.{World, Env, connection}
use nginx_engine.Callback.{callback_cleanup, callback_dec, dec_handler, dec_all}
use nginx_engine.Callback.Counts.{count, dec_all-count}
use nginx_engine.Base.{ap, sym, ◌∙◌}
use nginx_engine.Connection.{run_cleanups, close, close_connection, destroy_pool}
use nginx_engine.Connection.Close.{◌∈◌}
use nginx_engine.Api.{free_temps}
use nginx_engine.Api.Books.{IsBooked, count_sub}

-- The two differ in the callback `cb` at most, and not in the counts.
record IsAlike {S : Type 0} (cb : ℕ) (v w : World S) : Type 0 where
  refs : v.refs ≡ w.refs
  others : (q : ℕ) → (cb == q) ≡ false → v.callbacks q ≡ w.callbacks q

module _ {S : Type 0} (cb : ℕ) where
  cleanup-IsAlike :
      (q : ℕ) (v w : World S)
      → (cb == q) ≡ false
      → IsAlike cb v w
      → IsAlike cb (callback_cleanup q v) (callback_cleanup q w)
  unfolding callback_cleanup callback_dec
  cleanup-IsAlike q v w d h = record {
    refs = rw (h.others q d) (ground (arith, h.refs));
    others = λ p o. rw (h.others q d) (ground (arith, h.others p o));
  }

  run_cleanups-IsAlike :
      (cbs : List ℕ) (v w : World S)
      → cb ∈ cbs ≡ false
      → IsAlike cb v w
      → IsAlike cb (run_cleanups cbs v) (run_cleanups cbs w)
  unfolding run_cleanups
  run_cleanups-IsAlike [] v w m h = h
  run_cleanups-IsAlike (q ∷ cbs) v w m h =
      run_cleanups-IsAlike cbs (callback_cleanup q v) (callback_cleanup q w) (ground arith)
        (cleanup-IsAlike q v w (ground arith) h)

pub take_all : (l : List ℕ) → take (length l) l ≡ l
take_all [] = refl
take_all (x ∷ l) = ap (λ t. x ∷ t) (take_all l)

pub dec_handler-count :
    (sub : Option ℕ) (refs : ℕ → ℕ) (a : ℕ) → dec_handler sub refs a ≡ refs a - count_sub a sub
dec_handler-count none refs a = omega arith
dec_handler-count (some sub) refs a = ground arith

spent :
    (args mortals : List ℕ) (sub : Option ℕ) (refs refs0 : ℕ → ℕ) (a : ℕ)
    → refs a ≡ refs0 a + count a mortals + count a args + count_sub a sub
    → dec_all args (dec_handler sub (dec_all mortals refs)) a ≡ refs0 a
spent args mortals sub refs refs0 a h = ground (
  arith,
  dec_all-count args (dec_handler sub (dec_all mortals refs)) a,
  dec_handler-count sub (dec_all mortals refs) a,
  dec_all-count mortals refs a,
  h,
)

module _ {S : Type 0} (cb n : ℕ) (cbs : List ℕ) (w0 w v : World S)
    (h : IsBooked cb n cbs w0 n w) where
  spent_all :
      v.refs ≡ dec_all w.mortals w.refs
      → dec_all
          (take (w.callbacks cb).args_n (w.callbacks cb).args)
          (dec_handler (w.callbacks cb).handler v.refs)
        ≡ w0.refs
  spent_all r = fun_ext λ a.
      rw (r, h.number, sym h.filled, take_all (w.callbacks cb).args)
        (spent (w.callbacks cb).args w.mortals (w.callbacks cb).handler w.refs w0.refs a
          (h.counts a))

  -- The end of the statement and giving back what the new callback holds settle the books.
  pub refs-callback_dec :
      v.refs ≡ dec_all w.mortals w.refs
      → v.callbacks ≡ w.callbacks
      → (callback_dec cb v).refs ≡ w0.refs
  unfolding callback_dec
  refs-callback_dec r c = rw (c, h.kept) (spent_all r)

  -- So does its cleanup handler.
  settled :
      (v0 : World S)
      → v.refs ≡ dec_all w.mortals w.refs
      → v.callbacks ≡ w.callbacks
      → v0.refs ≡ w0.refs
      → v0.callbacks ≡ w0.callbacks
      → IsAlike cb (callback_cleanup cb v) v0
  unfolding callback_cleanup callback_dec
  settled v0 r c r0 c0 = record {
    refs = rw (c, h.kept) (spent_all r ∙ sym r0);
    others = λ q d. rw (c, c0, h.kept) (ground (arith, h.others q d));
  }

module _ {S : Type 0} (e : Env S) where
  refs-close :
      (w : World S)
      → w.destroyed ≡ false
      → (close e connection w).refs
        ≡ (run_cleanups w.cleanups (close_connection e (record w { destroyed = true }))).refs
  unfolding close destroy_pool
  refs-close w d = rw d refl

  -- If the callback is new to the pool, what was booked is gone when the connection is closed.
  pub close_booked :
      (cb n : ℕ) (w0 w : World S)
      → IsBooked cb n (cb ∷ w0.cleanups) w0 n w
      → w0.destroyed ≡ false
      → cb ∈ w0.cleanups ≡ false
      → (close e connection (free_temps w)).refs ≡ (close e connection w0).refs
  unfolding free_temps close_connection run_cleanups
  close_booked cb n w0 w h d m =
      refs-close (free_temps w) (h.alive ∙ d)
      ∙ ap (λ l. (run_cleanups l closing).refs) h.registered
      ∙ (run_cleanups-IsAlike cb w0.cleanups (callback_cleanup cb closing) closing0 m
          (settled cb n (cb ∷ w0.cleanups) w0 w closing h closing0 refl refl refl refl)).refs
      ∙ sym (refs-close w0 d)
    where
      closing : World S
      closing = close_connection e (record (free_temps w) { destroyed = true })

      closing0 : World S
      closing0 = close_connection e (record w0 { destroyed = true })
