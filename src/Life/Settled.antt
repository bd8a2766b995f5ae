-- ===== src/Life/Settled.antt =====
-- The reference counts over the events of a connection.
mod Events
use nginx_engine.Base.{
  ℕ, ℤ, ◌+◌, ◌==◌, true, ap, arith, Bool-cases, ◌⊎◌, false, some, List, [], ◌∷◌, ◌≡◌, sym, ◌∙◌, inl,
  inr,
}
use nginx_engine.State.{World, Env, connection}
use mathlib.Core.Path.{subst}
use mathlib.Core.Option.{some-injective}
use nginx_engine.Connection.{close}
use nginx_engine.Connection.Close.{◌∈◌}
use nginx_engine.Api.{Globals, Supply, Reply, state_of, free_temps}
use nginx_engine.Api.Reader
use nginx_engine.Api.Books.{IsBooked}
use nginx_engine.Api.Balance.{IsServed, reader-IsBooked}
use nginx_engine.Api.Refs.{close_booked}
use nginx_engine.Api.Debts.{IsTidy, close-refs, refs-close}
use nginx_engine.Api.Debts.Kept.{KeepDebts}
use nginx_engine.Life.Echo.Events.{serve, Arrival}
use nginx_engine.Life.Settled.Events.{serve-Owes}

-- A new callback is registered with the pool.
booked-IsTidy :
    {S : Type 0} (cb n : ℕ) (w0 w : World S)
    → IsBooked cb n (cb ∷ w0.cleanups) w0 n w
    → w0.destroyed ≡ false
    → IsTidy w0
    → IsTidy (free_temps w)
unfolding free_temps
booked-IsTidy cb n w0 w h d tidy = record {
  registered = λ k. rw h.registered (registered k (Bool-cases (cb == k)) (tidy.registered k));
  empty = λ q. let same : w0.destroyed ≡ true = sym h.alive ∙ q in absurd cc;
}
  where
    registered :
        (k : ℕ)
        → ((cb == k) ≡ true) ⊎ ((cb == k) ≡ false)
        → ((w0.callbacks k).decremented ≡ true) ⊎ (k ∈ w0.cleanups ≡ true)
        → ((w.callbacks k).decremented ≡ true) ⊎ (k ∈ (cb ∷ w0.cleanups) ≡ true)
    registered k (inl same) t = inr (ground arith)
    registered k (inr other) (inl done) = inl (ap (λ c. c.decremented) (h.others k other) ∙ done)
    registered k (inr other) (inr m) = inr (ground arith)

module _ {S : Type 0} (e : Env S) (k : KeepDebts e) where
  -- Over any sequence of events whose handlers return, on a connection whose callbacks are all registered
  -- with the pool or have given their references back, if the Perl subs and native handlers keep that
  -- and the counts that closing the connection would leave, the subs their handler and arguments too:
  -- closing it at the end leaves exactly the reference counts that closing it at once would have left.
  pub refs-close-serve :
      (limit fuel : ℕ) (arrivals : List (Arrival S)) (w w' : World S)
      → IsTidy w
      → serve e limit fuel arrivals w ≡ some w'
      → (close e connection w').refs ≡ (close e connection w).refs
  refs-close-serve limit fuel arrivals w w' tidy h = close-refs (close e connection w).refs e w' (
      serve-Owes e k (close e connection w).refs limit fuel arrivals w
        (record { tidy = tidy; balance = λ a. sym (refs-close e w a tidy) }) w' h)

  -- A call of ngxe_reader that is not refused and gets the memory that it asks for, on a connection that
  -- is not destroyed and whose callbacks are registered with the pool or have given their references back,
  -- with no temporary scalars before it, a new callback and an event system that accepts the read
  -- event; then, when its statement has ended, any sequence of events whose handlers return, for Perl subs
  -- that keep that condition on the callbacks, their own handler and arguments and, maybe with
  -- ngxe_close, the counts that closing the connection would leave, and native handlers that keep the
  -- condition and the counts: closing the connection at the end leaves exactly the reference counts
  -- that closing it before the call would have left. What a reference in the write buffer adds to the
  -- count of the thing that it refers to is not among these counts.
  pub refs-close-session :
      (g : Globals) (cb : ℕ) (s : Supply) (start t : ℤ) (extra limit fuel : ℕ)
      (arrivals : List (Arrival S)) (w : World S) (r : Reply S) (w' : World S)
      → IsServed g s w
      → ((x : S) → (e.handle_read_event x).0 ≡ true)
      → w.mortals ≡ []
      → w.destroyed ≡ false
      → cb ∈ w.cleanups ≡ false
      → IsTidy w
      → Reader.reader e g connection start t extra cb s w ≡ some r
      → serve e limit fuel arrivals (free_temps (state_of r)) ≡ some w'
      → (close e connection w').refs ≡ (close e connection w).refs
  refs-close-session g cb s start t extra limit fuel arrivals w r w' v ok m d f tidy h served =
      let (r', same, b) = reader-IsBooked e g cb s start t extra w v ok m in
      let own : IsBooked cb (extra + 5) (cb ∷ w.cleanups) w (extra + 5) (state_of r) =
        subst (λ x. IsBooked cb (extra + 5) (cb ∷ w.cleanups) w (extra + 5) (state_of x))
          (some-injective r' r (sym same ∙ h)) b in
      refs-close-serve limit fuel arrivals (free_temps (state_of r)) w'
        (booked-IsTidy cb (extra + 5) w (state_of r) own d tidy) served
      ∙ close_booked e cb (extra + 5) w (state_of r) own d f
